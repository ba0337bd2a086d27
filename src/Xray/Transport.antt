-- ===== src/Xray/Transport.antt =====
-- xray_vps_manager/xray/config.py: the transports of an inbound, and the texts in their settings.
pub mod Values
pub mod Extra
pub mod Download
pub mod Stream
pub mod Lawful
use Prim.Native.Char.{Char, code}
use xray_vps_manager.Base.{
  ℕ, zero, suc, String, Bool, true, false, not, ◌&&◌, ◌||◌, Option, none, some, List, [], ◌∷◌, any,
  contains, if◌then◌else◌, leb, nat_eq, starts_with, ◌==◌,
}
use xray_vps_manager.Json.{
  Json, str, obj, members, Object, truthy, strip, put, is_space, is_ascii_alnum,
}

-- An exception is `none`.
infixl 5 ◌>>=◌
abbrev pub ◌>>=◌ : {A B : Type 0} → Option A → (A → Option B) → Option B
none >>= f = none
some a >>= f = f a

abbrev pub refuse_if : {A : Type 0} → Bool → Option A → Option A
refuse_if b m = if b then none else m

-- `len(text)`
unfoldable pub text_length : String → ℕ
text_length String.[] = 0
text_length (String.◌∷◌ c s) = suc (text_length s)

unfoldable pub all_chars : (Char → Bool) → String → Bool
all_chars p String.[] = true
all_chars p (String.◌∷◌ c s) = p c && all_chars p s

abbrev pub one_of : List ℕ → Char → Bool
one_of codes c = any (nat_eq (code c)) codes

-- `(value or default).strip()`: a value that is true and no text has no `strip`.
abbrev pub text_or : String → Json → Option String
text_or default (str s) = some (strip (if s == "" then default else s))
text_or default v = if truthy v then none else some (strip default)

-- A path that begins with a slash, has no spaces, and has 256 characters at most.
abbrev pub is_path : String → Bool
is_path path = not (
    not (starts_with path "/")
    || (not (all_chars (λ c. not (is_space c)) path) || not (leb (text_length path) 256)))

unfoldable pub normalize_xhttp_path : Json → Option String
normalize_xhttp_path value = do
  path ← text_or "/vless-xhttp" value
  refuse_if (not (is_path path)) (some path)

unfoldable pub normalize_trojan_ws_path : Json → Option String
normalize_trojan_ws_path value = do
  path ← text_or "/trojan" value
  refuse_if (not (is_path path)) (some path)

-- The class of GRPC_SERVICE_NAME_RE.
abbrev pub in_service_name : Char → Bool
in_service_name c = is_ascii_alnum c || one_of (b'_' ∷ b'.' ∷ b'-' ∷ []) c

abbrev pub is_service_name : String → Bool
is_service_name name =
    all_chars in_service_name name && (leb 1 (text_length name) && leb (text_length name) 128)

unfoldable pub normalize_grpc_service_name : Json → Option String
normalize_grpc_service_name value = do
  name ← text_or "vless-grpc" value
  refuse_if (not (is_service_name name)) (some name)

abbrev pub xhttp_modes : List String
xhttp_modes = "auto" ∷ "packet-up" ∷ "stream-up" ∷ "stream-one" ∷ []

abbrev pub reality_transports : List String
reality_transports = "tcp" ∷ "grpc" ∷ "xhttp" ∷ []

-- `lower` is `str.lower`.
module _ (lower : String → String) where
  unfoldable pub normalize_xhttp_mode : Json → Option String
  normalize_xhttp_mode value = do
    text ← text_or "auto" value
    refuse_if (not (contains xhttp_modes (lower text))) (some (lower text))

  unfoldable pub normalize_reality_transport : Json → Option String
  normalize_reality_transport value = do
    text ← text_or "tcp" value
    refuse_if (not (contains reality_transports (lower text))) (some (lower text))
