-- ===== src/Xray/Transport/Extra.antt =====
-- xray_vps_manager/xray/config.py: the extra settings of XHTTP without the settings of a download.
use Prim.Native.Char.{Char}
use xray_vps_manager.Base.{
  String, Bool, true, false, not, ◌&&◌, ◌||◌, Option, none, some, List, [], ◌∷◌, any, contains,
  if◌then◌else◌, leb, ◌==◌,
}
use xray_vps_manager.Json.{
  Json, num, str, obj, members, dict, Object, truthy, strip, get, put, is_ascii_alnum,
}
use xray_vps_manager.Xray.Transport.{◌>>=◌, refuse_if, text_length, all_chars, one_of}
use xray_vps_manager.Xray.Transport.Values.{
  is_empty_extra_value, normalize_non_negative_range, normalize_integer,
  normalize_non_negative_integer, normalize_bool, normalize_text, range_is_active,
}

-- `if not _is_empty_extra_value(value): result[key] = f(value)`
unfoldable pub set_if : String → Json → (Json → Option Json) → Object → Option Object
set_if key value f result =
    if is_empty_extra_value value then some result else f value >>= λ v. some (put result key v)

-- The same with an object, which is left out where it is empty.
unfoldable pub set_object_if : String → Json → (Json → Option Object) → Object → Option Object
set_object_if key value f result =
    if is_empty_extra_value value
    then some result
    else f value >>= λ d.
        some (if truthy (obj (dict d)) then put result key (obj (dict d)) else result)

-- An object with no other keys, for `f`; a value that is false is `{}`.
unfoldable pub with_keys : List String → (Object → Option Object) → Json → Option Object
with_keys keys f (obj fs) =
    if not (truthy (obj fs))
    then some []
    else refuse_if (any (λ p. not (contains keys p.0)) (members fs)) (f (members fs))
with_keys keys f value = if truthy value then none else some []

-- HTTP_HEADER_NAME_RE
abbrev pub in_token : Char → Bool
in_token c =
    is_ascii_alnum c
    || one_of
        (b'!' ∷ b'#' ∷ b'$' ∷ b'%' ∷ b'&' ∷ 39 ∷ b'*' ∷ b'+' ∷ b'.' ∷ b'^' ∷ b'_' ∷ b'`' ∷ b'|'
          ∷ b'~' ∷ b'-' ∷ [])
        c

abbrev pub is_header_name : String → Bool
is_header_name key = all_chars in_token key && (leb 1 (text_length key) && leb (text_length key) 64)

unfoldable pub headers_from : Object → Object → Option Object
headers_from [] result = some result
headers_from ((raw_key, raw_value) ∷ rest) result =
    let key = strip raw_key in
    refuse_if (not (is_header_name key))
      (normalize_text 512 false raw_value >>= λ text. headers_from rest (put result key (str text)))

unfoldable pub normalize_xhttp_headers : Json → Option Object
unfolding headers_from
normalize_xhttp_headers (obj fs) = headers_from (members fs) []
normalize_xhttp_headers value = if truthy value then none else some []

abbrev pub xmux_keys : List String
xmux_keys =
    "maxConcurrency" ∷ "maxConnections" ∷ "cMaxReuseTimes" ∷ "hMaxRequestTimes" ∷ "hMaxReusableSecs"
    ∷ "hKeepAlivePeriod" ∷ []

abbrev pub xmux_value : String → Json → Option Json
xmux_value key value =
    if key == "hKeepAlivePeriod"
    then (normalize_integer value >>= λ number. some (num number))
    else normalize_non_negative_range false value

-- The loop over the keys.
unfoldable pub xmux_from : List String → Object → Object → Option Object
xmux_from [] raw_xmux xmux = some xmux
xmux_from (key ∷ keys) raw_xmux xmux =
    set_if key (get raw_xmux key) (xmux_value key) xmux >>= λ next. xmux_from keys raw_xmux next

abbrev pub in_conflict : Object → Bool
in_conflict xmux =
    range_is_active (get xmux "maxConcurrency") && range_is_active (get xmux "maxConnections")

unfoldable pub normalize_xmux : Json → Option Object
unfolding xmux_from
normalize_xmux (obj fs) =
    let raw_xmux = members fs in
    refuse_if (any (λ p. not (contains xmux_keys p.0)) raw_xmux)
      (xmux_from xmux_keys raw_xmux [] >>= λ xmux. refuse_if (in_conflict xmux) (some xmux))
normalize_xmux value = none

abbrev pub xhttp_server_extra_keys : List String
xhttp_server_extra_keys =
    "headers" ∷ "xPaddingBytes" ∷ "noSSEHeader" ∷ "scMaxEachPostBytes" ∷ "scMaxBufferedPosts"
    ∷ "scStreamUpServerSecs" ∷ []

abbrev pub xhttp_extra_keys : List String
xhttp_extra_keys =
    "headers" ∷ "xPaddingBytes" ∷ "noSSEHeader" ∷ "scMaxEachPostBytes" ∷ "scMaxBufferedPosts"
    ∷ "scStreamUpServerSecs" ∷ "noGRPCHeader" ∷ "scMinPostsIntervalMs" ∷ "xmux" ∷ "downloadSettings"
    ∷ []

-- `lower` is `str.lower`.
module _ (lower : String → String) where
  -- `normalize_xhttp_extra` between the test of the keys and the settings of a download.
  unfoldable pub extra_fields : Object → Option Object
  extra_fields value = do
    r1 ← set_object_if "headers" (get value "headers") normalize_xhttp_headers []
    r2 ← set_if "xPaddingBytes" (get value "xPaddingBytes") (normalize_non_negative_range false) r1
    r3 ← set_if "noGRPCHeader" (get value "noGRPCHeader") (normalize_bool lower) r2
    r4 ← set_if "noSSEHeader" (get value "noSSEHeader") (normalize_bool lower) r3
    r5 ←
        set_if "scMaxEachPostBytes" (get value "scMaxEachPostBytes")
          (normalize_non_negative_range false) r4
    r6 ←
        set_if "scMinPostsIntervalMs" (get value "scMinPostsIntervalMs")
          (normalize_non_negative_range false) r5
    r7 ←
        set_if "scMaxBufferedPosts" (get value "scMaxBufferedPosts") normalize_non_negative_integer
          r6
    r8 ←
        set_if "scStreamUpServerSecs" (get value "scStreamUpServerSecs")
          (normalize_non_negative_range true) r7
    set_object_if "xmux" (get value "xmux") normalize_xmux r8
