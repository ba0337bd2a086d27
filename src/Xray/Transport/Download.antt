-- ===== src/Xray/Transport/Download.antt =====
-- xray_vps_manager/xray/config.py: `downloadSettings`, and the extra settings of XHTTP that hold it.
use xray_vps_manager.Base.{
  String, Bool, true, false, not, Option, none, some, List, [], ◌∷◌, map, any, contains,
  if◌then◌else◌, ◌==◌,
}
use xray_vps_manager.Json.{
  Json, null, num, str, arr, obj, array, members, dict, Object, truthy, text_or_empty, strip, get,
  put, has_key,
}
use xray_vps_manager.Xray.Transport.{◌>>=◌, refuse_if, normalize_xhttp_path, normalize_xhttp_mode}
use xray_vps_manager.Xray.Transport.Values.{
  is_empty_extra_value, normalize_port, normalize_host_like, normalize_text, normalize_string_list,
}
use xray_vps_manager.Xray.Transport.Extra.{
  set_if, set_object_if, with_keys, xhttp_extra_keys, extra_fields,
}

-- The value of a text.
abbrev pub as_str : Option String → Option Json
as_str none = none
as_str (some s) = some (str s)

-- `result[key] = value`, where the value is computed without an exception.
abbrev pub set_to : String → Option Json → Object → Option Object
set_to key m result = m >>= λ v. some (put result key v)

abbrev pub host_value : Bool → Json → Option Json
host_value required value = as_str (normalize_host_like required value)

abbrev pub line_value : String → Bool → Json → Option Json
line_value key required value =
    as_str (normalize_text (if key == "publicKey" then 128 else 32) required value)

abbrev pub tls_keys : List String
tls_keys = "serverName" ∷ "fingerprint" ∷ "alpn" ∷ []

abbrev pub reality_keys : List String
reality_keys = "serverName" ∷ "publicKey" ∷ "shortId" ∷ "fingerprint" ∷ "spiderX" ∷ []

abbrev pub xhttp_keys : List String
xhttp_keys = "host" ∷ "path" ∷ "mode" ∷ "extra" ∷ []

abbrev pub download_keys : List String
download_keys =
    "address" ∷ "port" ∷ "network" ∷ "security" ∷ "tlsSettings" ∷ "realitySettings"
    ∷ "xhttpSettings" ∷ "sockopt" ∷ []

abbrev pub put_list : String → List String → Object → Object
put_list key [] result = result
put_list key (t ∷ ts) result = put result key (arr (array (map str (t ∷ ts))))

unfoldable pub tls_fields : Object → Option Object
tls_fields value = do
  r1 ← set_if "serverName" (get value "serverName") (host_value false) []
  r2 ← set_if "fingerprint" (get value "fingerprint") (line_value "fingerprint" false) r1
  alpn ← normalize_string_list (get value "alpn")
  some (put_list "alpn" alpn r2)

-- `_normalize_download_tls_settings`
unfoldable pub normalize_download_tls_settings : Json → Option Object
unfolding tls_fields
normalize_download_tls_settings value = with_keys tls_keys tls_fields value

unfoldable pub reality_fields : Object → Option Object
reality_fields value = do
  r1 ← set_to "serverName" (host_value true (get value "serverName")) []
  r2 ← set_to "publicKey" (line_value "publicKey" true (get value "publicKey")) r1
  r3 ← set_if "shortId" (get value "shortId") (line_value "shortId" false) r2
  r4 ← set_if "fingerprint" (get value "fingerprint") (line_value "fingerprint" false) r3
  set_if "spiderX" (get value "spiderX") (λ v. as_str (normalize_xhttp_path v)) r4

-- `_normalize_download_reality_settings`
unfoldable pub normalize_download_reality_settings : Json → Option Object
unfolding reality_fields
normalize_download_reality_settings value = with_keys reality_keys reality_fields value

-- `value or {}` as an object.
abbrev pub object_or_empty : Json → Option Object
object_or_empty (obj fs) = some (members fs)
object_or_empty value = if truthy value then none else some []

abbrev pub set_sockopt : Json → Object → Option Object
set_sockopt null result = some result
set_sockopt (str s) result = refuse_if (not (s == "")) (some result)
set_sockopt (obj fs) result =
    some (if truthy (obj fs) then put result "sockopt" (obj fs) else result)
set_sockopt _ result = none

-- `text.strip().lower()` of `value or default`.
abbrev pub lowered : (String → String) → String → Json → String
lowered lower default value =
    let text = text_or_empty value in lower (strip (if text == "" then default else text))

-- `lower` is `str.lower`.
module _ (lower : String → String) where
  -- An `extra` inside of the settings of a download, which has no `downloadSettings` of its own.
  unfoldable pub nested_extra : Json → Option Object
  nested_extra (obj fs) =
      refuse_if (has_key (members fs) "downloadSettings")
        (with_keys xhttp_extra_keys (extra_fields lower) (obj fs))
  nested_extra value = none

  unfoldable pub xhttp_fields : Object → Option Object
  unfolding nested_extra
  xhttp_fields value = refuse_if (any (λ p. not (contains xhttp_keys p.0)) value) (do
    r1 ← set_to "path" (as_str (normalize_xhttp_path (get value "path"))) []
    r2 ← set_to "mode" (as_str (normalize_xhttp_mode lower (get value "mode"))) r1
    r3 ← set_if "host" (get value "host") (host_value false) r2
    set_object_if "extra" (get value "extra") nested_extra r3)

  -- `_normalize_download_xhttp_settings(value or {})`
  unfoldable pub normalize_download_xhttp_settings : Json → Option Object
  unfolding xhttp_fields
  normalize_download_xhttp_settings value = object_or_empty value >>= λ d. xhttp_fields d

  abbrev pub set_security : String → Object → Object → Option Object
  set_security security value result =
      if security == "tls"
      then (normalize_download_tls_settings (get value "tlsSettings") >>= λ tls.
          some
            (if truthy (obj (dict tls)) then put result "tlsSettings" (obj (dict tls)) else result))
      else (normalize_download_reality_settings (get value "realitySettings") >>= λ d.
          some (put result "realitySettings" (obj (dict d))))

  unfoldable pub download_fields : Object → Option Object
  download_fields value =
      let security = lowered lower "tls" (get value "security") in
      let port = get value "port" in
      do
        r1 ← set_to "address" (host_value true (get value "address")) []
        r2 ← set_to "port" (normalize_port (if truthy port then port else num "443")) r1
        r3 ←
            refuse_if (not (lowered lower "xhttp" (get value "network") == "xhttp"))
              (some (put r2 "network" (str "xhttp")))
        r4 ←
            refuse_if (not (contains ("tls" ∷ "reality" ∷ []) security))
              (some (put r3 "security" (str security)))
        r5 ← set_security security value r4
        xhttp ← normalize_download_xhttp_settings (get value "xhttpSettings")
        set_sockopt (get value "sockopt") (put r5 "xhttpSettings" (obj (dict xhttp)))

  unfoldable pub normalize_xhttp_download_settings : Json → Option Object
  unfolding download_fields
  normalize_xhttp_download_settings value = with_keys download_keys download_fields value

  -- `normalize_xhttp_extra` of a value that is no object of Python is an error there.
  unfoldable pub normalize_xhttp_extra : Json → Option Object
  unfolding normalize_xhttp_download_settings
  normalize_xhttp_extra value =
      with_keys xhttp_extra_keys
        (λ d. extra_fields lower d >>= λ result.
          (if is_empty_extra_value (get d "downloadSettings")
            then some result
            else (normalize_xhttp_download_settings (get d "downloadSettings") >>= λ download.
                some (put result "downloadSettings" (obj (dict download))))))
        value
