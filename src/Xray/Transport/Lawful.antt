-- ===== src/Xray/Transport/Lawful.antt =====
-- What the extra settings of XHTTP must be for Xray, said of the values alone.
pub mod Values
pub mod Fields
pub mod Download
pub mod Complete
pub mod Accepted
use xray_vps_manager.Json.{
  dict, Json, bool, num, str, arr, obj, elements, members, Object, has_key, truthy,
}
use xray_vps_manager.Base.{
  ℕ, String, Bool, true, false, not, ◌&&◌, ◌||◌, Option, none, some, List, [], ◌∷◌, all, contains,
  if◌then◌else◌, leb, ◌==◌,
}
use xray_vps_manager.Xray.Transport.{is_path, xhttp_modes}
use xray_vps_manager.Xray.Transport.Values.{
  integer_text, is_negative, range_of, is_port, is_host, is_line,
}
use xray_vps_manager.Xray.Transport.Extra.{is_header_name, xmux_keys, in_conflict}

-- A number from 0 on.
abbrev pub is_count : Json → Bool
is_count (num t) = integer_text t && not (is_negative t)
is_count _ = false

abbrev pub is_integer : Json → Bool
is_integer (num t) = integer_text t
is_integer _ = false

-- A number from 0 on, or a range whose end is not below its start; -1 where it is allowed.
abbrev pub is_range : Bool → Json → Bool
is_range minus_one (num t) = (minus_one && t == "-1") || (integer_text t && not (is_negative t))
is_range minus_one (str s) = elim (range_of s) [ none ↦ false | some (start, end) ↦ leb start end ]
is_range minus_one _ = false

abbrev pub is_bool : Json → Bool
is_bool (bool b) = true
is_bool _ = false

abbrev pub is_str : (String → Bool) → Json → Bool
is_str p (str s) = p s
is_str p _ = false

abbrev pub is_number : (String → Bool) → Json → Bool
is_number p (num t) = p t
is_number p _ = false

abbrev pub is_object : (Object → Bool) → Json → Bool
is_object p (obj fs) = p (members fs)
is_object p _ = false

abbrev pub Field : Type 0
Field = String × Json

abbrev pub header_field : Field → Bool
header_field (key, v) = is_header_name key && is_str (is_line 512) v

abbrev pub xmux_field : Field → Bool
xmux_field (key, v) =
    contains xmux_keys key && (if key == "hKeepAlivePeriod" then is_integer v else is_range false v)

abbrev pub is_xmux : Object → Bool
is_xmux d = all xmux_field d && not (in_conflict d)

-- A field of the extra settings but `downloadSettings`; there is no other.
abbrev pub extra_field : Field → Bool
extra_field (key, v) =
    if key == "headers"
    then is_object (all header_field) v
    else if contains ("noGRPCHeader" ∷ "noSSEHeader" ∷ []) key
    then is_bool v
    else if key == "scMaxBufferedPosts"
    then is_count v
    else if key == "scStreamUpServerSecs"
    then is_range true v
    else if contains ("xPaddingBytes" ∷ "scMaxEachPostBytes" ∷ "scMinPostsIntervalMs" ∷ []) key
    then is_range false v
    else if key == "xmux"
    then is_object is_xmux v
    else false

abbrev pub or_empty : (String → Bool) → String → Bool
or_empty p s = s == "" || p s

abbrev pub is_list : (Json → Bool) → Json → Bool
is_list p (arr xs) = all p (elements xs)
is_list p _ = false

abbrev pub tls_field : Field → Bool
tls_field (key, v) =
    if key == "serverName"
    then is_str (or_empty is_host) v
    else if key == "fingerprint"
    then is_str (is_line 32) v
    else if key == "alpn"
    then is_list (is_str (is_line 32)) v
    else false

abbrev pub reality_field : Field → Bool
reality_field (key, v) =
    if key == "serverName"
    then is_str is_host v
    else if key == "publicKey"
    then is_str (is_line 128) v
    else if contains ("shortId" ∷ "fingerprint" ∷ []) key
    then is_str (is_line 32) v
    else if key == "spiderX"
    then is_str is_path v
    else false

abbrev pub xhttp_field : Field → Bool
xhttp_field (key, v) =
    if key == "path"
    then is_str is_path v
    else if key == "mode"
    then is_str (contains xhttp_modes) v
    else if key == "host"
    then is_str (or_empty is_host) v
    else if key == "extra"
    then is_object (all extra_field) v
    else false

abbrev pub download_field : Field → Bool
download_field (key, v) =
    if key == "address"
    then is_str is_host v
    else if key == "port"
    then is_number (λ t. integer_text t && is_port t) v
    else if key == "network"
    then is_str (λ s. s == "xhttp") v
    else if key == "security"
    then is_str (contains ("tls" ∷ "reality" ∷ [])) v
    else if key == "tlsSettings"
    then is_object (all tls_field) v
    else if key == "realitySettings"
    then is_object (all reality_field) v
    else if key == "xhttpSettings"
    then is_object (all xhttp_field) v
    else if key == "sockopt"
    then is_object (λ d. true) v
    else false

abbrev pub required_fields : List String
required_fields = "xhttpSettings" ∷ "security" ∷ "network" ∷ "port" ∷ "address" ∷ []

-- Settings of a download; there may be none in the object.
abbrev pub is_download : Object → Bool
is_download d =
    all download_field d && (not (truthy (obj (dict d))) || all (has_key d) required_fields)

abbrev pub lawful_field : Field → Bool
lawful_field (key, v) =
    if key == "downloadSettings" then is_object is_download v else extra_field (key, v)
