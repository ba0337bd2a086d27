-- ===== src/Xray/Transport/Stream/Kept.antt =====
-- Texts that are normal forms already are kept as they are.
use Prim.Native.Char.{Char}
use xray_vps_manager.Base.{
  String, Bool, true, false, not, ◌&&◌, ◌≡◌, refl, subst, ap, ◌∙◌, arith, Option, none, some, List,
  [], ◌∷◌, all, contains, eq_iff, ◌==◌, Bool-cases, inl, inr,
}
use xray_vps_manager.Json.{Json, str, strip, lstrip, rstrip, is_space, is_ascii_alnum}
use xray_vps_manager.Xray.Transport.{
  ◌>>=◌, refuse_if, text_length, all_chars, text_or, is_path, in_service_name, is_service_name,
  xhttp_modes, reality_transports, normalize_xhttp_path, normalize_grpc_service_name,
  normalize_reality_transport,
}
use xray_vps_manager.Xray.Transport.Lawful.Values.{holds, refused}

rstrip-none : (s : String) → all_chars (λ c. not (is_space c)) s ≡ true → rstrip is_space s ≡ s
unfolding all_chars rstrip
rstrip-none String.[] h = refl
rstrip-none (String.◌∷◌ c s) h =
    let here : is_space c ≡ false = ground arith in rw (here, rstrip-none s (ground arith))

lstrip-none : (s : String) → all_chars (λ c. not (is_space c)) s ≡ true → lstrip is_space s ≡ s
unfolding all_chars lstrip
lstrip-none String.[] h = refl
lstrip-none (String.◌∷◌ c s) h = let here : is_space c ≡ false = ground arith in rw here

strip-none : (s : String) → all_chars (λ c. not (is_space c)) s ≡ true → strip s ≡ s
unfolding strip
strip-none s h = rw (lstrip-none s h) (rstrip-none s h)

all_chars-weaker :
    (p q : Char → Bool)
    → ((c : Char) → p c ≡ true → q c ≡ true)
    → (s : String) → all_chars p s ≡ true
    → all_chars q s ≡ true
unfolding all_chars
all_chars-weaker p q h String.[] k = refl
all_chars-weaker p q h (String.◌∷◌ c s) k = ground (arith, h c, all_chars-weaker p q h s)

text_or-kept :
    (default s : String) → strip s ≡ s → (s == "") ≡ false → text_or default (str s) ≡ some s
text_or-kept default s h k = rw (k, h)

not_empty : (p : String → Bool) (s : String) → p "" ≡ false → p s ≡ true → (s == "") ≡ false
not_empty p s h k = elim (Bool-cases (s == "")) [
  | inl e ↦ let here : p "" ≡ true = subst (λ t. p t ≡ true) ((eq_iff s "").0 e) k in absurd (cc)
  | inr e ↦ e
]

accepted :
    (p : String → Bool) (m : Option String) (s : String)
    → m ≡ some s
    → p s ≡ true
    → (m >>= λ t. refuse_if (not (p t)) (some t)) ≡ some s
accepted p m s e h = ap (λ o. o >>= λ t. refuse_if (not (p t)) (some t)) e ∙ rw h

empty_path : is_path "" ≡ false
unfolding all_chars text_length
empty_path = refl

empty_name : is_service_name "" ≡ false
unfolding all_chars text_length
empty_name = refl

pub path-kept : (path : String) → is_path path ≡ true → normalize_xhttp_path (str path) ≡ some path
unfolding normalize_xhttp_path
path-kept path h =
    accepted is_path (text_or "/vless-xhttp" (str path)) path
      (text_or-kept "/vless-xhttp" path (strip-none path (ground arith))
        (not_empty is_path path empty_path h))
      h

service_name-chars : (c : Char) → in_service_name c ≡ true → not (is_space c) ≡ true
unfolding is_space is_ascii_alnum
service_name-chars c h = ground arith

pub name-kept :
    (name : String)
    → is_service_name name ≡ true
    → normalize_grpc_service_name (str name) ≡ some name
unfolding normalize_grpc_service_name
name-kept name h =
    let chars : all_chars in_service_name name ≡ true = ground arith in
    let plain =
      all_chars-weaker in_service_name (λ c. not (is_space c)) service_name-chars name chars in
    accepted is_service_name (text_or "vless-grpc" (str name)) name
      (text_or-kept "vless-grpc" name (strip-none name plain)
        (not_empty is_service_name name empty_name h))
      h

pub contains-all :
    (p : String → Bool) (words : List String) (w : String)
    → all p words ≡ true
    → contains words w ≡ true
    → p w ≡ true
contains-all p [] w h k = absurd (cc)
contains-all p (x ∷ words) w h k = elim (Bool-cases (x == w)) [
  | inl e ↦ subst (λ y. p y ≡ true) ((eq_iff x w).0 e) (ground arith)
  | inr e ↦ contains-all p words w (ground arith) (ground arith)
]

abbrev pub is_word : String → Bool
is_word w = strip w == w && not (w == "")

pub modes-words : all is_word xhttp_modes ≡ true
unfolding strip
modes-words = refl

pub transports-words : all is_word reality_transports ≡ true
unfolding strip
transports-words = refl

pub text_or-word : (default w : String) → is_word w ≡ true → text_or default (str w) ≡ some w
text_or-word default w h =
    text_or-kept default w ((eq_iff (strip w) w).0 (ground arith)) (ground arith)

pub known_by :
    {A : Type 0} (p : A → Bool) {m : Option A} {a : A} → holds p m ≡ true → m ≡ some a → p a ≡ true
known_by p h e = subst (λ o. holds p o ≡ true) e h

accepts :
    (p : String → Bool) (f : String → String) (m : Option String)
    → holds p (m >>= λ t. refuse_if (not (p (f t))) (some (f t))) ≡ true
accepts p f none = refl
accepts p f (some t) = refused p (p (f t)) (f t) (λ h. h)

pub normalize_grpc_service_name-known :
    (v : Json) (name : String)
    → normalize_grpc_service_name v ≡ some name
    → is_service_name name ≡ true
unfolding normalize_grpc_service_name
normalize_grpc_service_name-known v name e =
    known_by is_service_name (accepts is_service_name (λ t. t) (text_or "vless-grpc" v)) e

pub normalize_reality_transport-known :
    (lower : String → String) (v : Json)
    → holds (contains reality_transports) (normalize_reality_transport lower v) ≡ true
unfolding normalize_reality_transport
normalize_reality_transport-known lower v =
    accepts (contains reality_transports) lower (text_or "tcp" v)
