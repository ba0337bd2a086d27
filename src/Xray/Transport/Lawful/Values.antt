-- ===== src/Xray/Transport/Lawful/Values.antt =====
-- What the functions on single values accept.
use xray_vps_manager.Xray.Transport.{
  text_length, all_chars, ◌>>=◌, refuse_if, text_or, is_path, xhttp_modes, normalize_xhttp_path,
  normalize_xhttp_mode,
}
use xray_vps_manager.Base.{
  ltb, &&-left, ℕ, String, Bool, true, false, not, ◌&&◌, ◌||◌, ◌≡◌, refl, arith, Option, none, some,
  [], ◌∷◌, contains, ◌==◌, Bool-cases, Option-cases, inl, inr,
}
use xray_vps_manager.Json.{text_or_empty, Json, null, bool, num, str, arr, obj, strip, py_str}
use xray_vps_manager.Xray.Transport.Values.{
  bool_of_text, number_text, integer_text, is_negative, printed, range_of, from_integer, from_text,
  normalize_non_negative_range, normalize_integer, normalize_non_negative_integer, normalize_port,
  normalize_bool, is_host, normalize_host_like, is_line, normalize_text, is_port,
}
use xray_vps_manager.Xray.Transport.Lawful.{is_count, is_range, is_bool, is_number}

-- What is returned has a property.
abbrev pub holds : {A : Type 0} → (A → Bool) → Option A → Bool
holds p none = true
holds p (some a) = p a

pub holds_any : {A : Type 0} (m : Option A) → holds (λ a. true) m ≡ true
holds_any none = refl
holds_any (some a) = refl

pub holds-bind :
    {A B : Type 0} (p : A → Bool) (q : B → Bool) (m : Option A) (f : A → Option B)
    → holds p m ≡ true
    → ((a : A) → p a ≡ true → holds q (f a) ≡ true)
    → holds q (m >>= f) ≡ true
holds-bind p q none f h k = refl
holds-bind p q (some a) f h k = k a h

pub holds-refuse_if :
    {A : Type 0} (p : A → Bool) (b : Bool) (m : Option A)
    → (b ≡ false → holds p m ≡ true)
    → holds p (refuse_if b m) ≡ true
holds-refuse_if p true m h = refl
holds-refuse_if p false m h = h refl

pub refused :
    {A : Type 0} (p : A → Bool) (b : Bool) (a : A)
    → (b ≡ true → p a ≡ true)
    → holds p (refuse_if (not b) (some a)) ≡ true
refused p true a h = h refl
refused p false a h = refl

zero-number_text : number_text "0" ≡ true
unfolding number_text
zero-number_text = refl

printed-is_integer : (t : String) → integer_text t ≡ true → integer_text (printed t) ≡ true
printed-is_integer t h = elim (Bool-cases (t == "-0")) [
  | inl e ↦ rw e zero-number_text
  | inr e ↦ rw e h
]

printed-count :
    (t : String) → integer_text t ≡ true → is_negative t ≡ false → is_count (num (printed t)) ≡ true
printed-count t h k = elim (Bool-cases (t == "-0")) [
  | inl e ↦ rw (e, zero-number_text)
  | inr e ↦ rw (e, h, k)
]

count-is_range :
    (allow : Bool) (t : String) → is_count (num t) ≡ true → is_range allow (num t) ≡ true
count-is_range allow t h = ground arith

negative_or_range :
    (allow : Bool) (t : String)
    → integer_text t ≡ true
    → holds (is_range allow) (from_integer false t) ≡ true
negative_or_range allow t h =
    holds-refuse_if (is_range allow) (is_negative t) _
      (λ k. count-is_range allow (printed t) (printed-count t h k))

from_integer-is_range :
    (allow : Bool) (t : String)
    → integer_text t ≡ true
    → holds (is_range allow) (from_integer allow t) ≡ true
from_integer-is_range allow t h = elim (Bool-cases (allow && t == "-1")) [
  | inl e ↦ rw e (rw (&&-left allow (t == "-1") e))
  | inr e ↦ rw e (negative_or_range allow t h)
]

range-ok :
    (allow : Bool) (t : String) (start end : ℕ)
    → range_of t ≡ some (start, end)
    → ltb end start ≡ false
    → is_range allow (str t) ≡ true
range-ok allow t start end r k = rw (is_range, r) (ground arith)

from_text-is_range : (allow : Bool) (t : String) → holds (is_range allow) (from_text allow t) ≡ true
from_text-is_range allow t = elim (Bool-cases (allow && t == "-1")) [
  | inl e ↦ rw e (rw (&&-left allow (t == "-1") e))
  | inr e ↦ rw e (elim (Bool-cases (integer_text t)) [
    | inl i ↦ rw i (negative_or_range allow t i)
    | inr i ↦ rw i (elim (Option-cases (range_of t)) [
      | inl r ↦ rw r
      | inr ((start, end), r) ↦
          rw r (
            holds-refuse_if (is_range allow) (ltb end start) _
              (λ k. range-ok allow t start end r k))
    ])
  ])
]

pub normalize_non_negative_range-is_range :
    (allow : Bool) (v : Json) → holds (is_range allow) (normalize_non_negative_range allow v) ≡ true
unfolding normalize_non_negative_range
normalize_non_negative_range-is_range allow null = from_text-is_range allow (strip (py_str null))
normalize_non_negative_range-is_range allow (bool b) = refl
normalize_non_negative_range-is_range allow (num t) = elim (Bool-cases (integer_text t)) [
  | inl e ↦ rw e (from_integer-is_range allow t e)
  | inr e ↦ rw e (from_text-is_range allow (strip t))
]
normalize_non_negative_range-is_range allow (str s) =
    from_text-is_range allow (strip (py_str (str s)))
normalize_non_negative_range-is_range allow (arr xs) =
    from_text-is_range allow (strip (py_str (arr xs)))
normalize_non_negative_range-is_range allow (obj fs) =
    from_text-is_range allow (strip (py_str (obj fs)))

from_other-integer :
    (text : String)
    → holds integer_text (refuse_if (not (integer_text text)) (some (printed text))) ≡ true
from_other-integer text = elim (Bool-cases (integer_text text)) [
  | inl e ↦ rw e (printed-is_integer text e)
  | inr e ↦ rw e
]

pub normalize_integer-integer : (v : Json) → holds integer_text (normalize_integer v) ≡ true
unfolding normalize_integer
normalize_integer-integer null = from_other-integer (strip (py_str null))
normalize_integer-integer (bool b) = refl
normalize_integer-integer (num t) = elim (Bool-cases (integer_text t)) [
  | inl e ↦ rw e e
  | inr e ↦ rw e (from_other-integer (strip t))
]
normalize_integer-integer (str s) = from_other-integer (strip (py_str (str s)))
normalize_integer-integer (arr xs) = from_other-integer (strip (py_str (arr xs)))
normalize_integer-integer (obj fs) = from_other-integer (strip (py_str (obj fs)))

pub normalize_non_negative_integer-is_count :
    (v : Json) → holds is_count (normalize_non_negative_integer v) ≡ true
unfolding normalize_non_negative_integer
normalize_non_negative_integer-is_count v =
    holds-bind integer_text is_count (normalize_integer v) _ (normalize_integer-integer v)
      (λ t h. holds-refuse_if is_count (is_negative t) _ (λ k. rw (h, k)))

pub normalize_port-is_port :
    (v : Json) → holds (is_number (λ t. integer_text t && is_port t)) (normalize_port v) ≡ true
unfolding normalize_port
normalize_port-is_port v =
    let a_port = is_number (λ t. integer_text t && is_port t) in
    holds-bind integer_text a_port (normalize_integer v) _ (normalize_integer-integer v)
      (λ t h. refused a_port (is_port t) (num t) (λ k. rw (h, k)))

bool_of_text-is_bool : (text : String) → holds is_bool (bool_of_text text) ≡ true
bool_of_text-is_bool text =
    let yes = contains ("true" ∷ "1" ∷ "yes" ∷ "y" ∷ "on" ∷ "да" ∷ "д" ∷ []) text in
    let no = contains ("false" ∷ "0" ∷ "no" ∷ "n" ∷ "off" ∷ "нет" ∷ "н" ∷ []) text in
    elim (Bool-cases yes) [
      | inl e ↦ rw e
      | inr e ↦ rw e (elim (Bool-cases no) [ inl f ↦ rw f | inr f ↦ rw f ])
    ]

pub normalize_bool-is_bool :
    (lower : String → String) (v : Json) → holds is_bool (normalize_bool lower v) ≡ true
unfolding normalize_bool
normalize_bool-is_bool lower null = bool_of_text-is_bool (lower (strip (py_str null)))
normalize_bool-is_bool lower (bool b) = refl
normalize_bool-is_bool lower (num t) = elim (Bool-cases (t == "0")) [
  | inl e ↦ rw e
  | inr e ↦ rw e (elim (Bool-cases (t == "1")) [
    | inl f ↦ rw f
    | inr f ↦ rw f (bool_of_text-is_bool (lower (strip t)))
  ])
]
normalize_bool-is_bool lower (str s) = bool_of_text-is_bool (lower (strip (py_str (str s))))
normalize_bool-is_bool lower (arr xs) = bool_of_text-is_bool (lower (strip (py_str (arr xs))))
normalize_bool-is_bool lower (obj fs) = bool_of_text-is_bool (lower (strip (py_str (obj fs))))

pub normalize_host_like-is_host :
    (v : Json) → holds (λ s. s == "" || is_host s) (normalize_host_like false v) ≡ true
unfolding normalize_host_like
normalize_host_like-is_host v =
    let text = strip (text_or_empty v) in
    elim (Bool-cases (text == "")) [
      | inl e ↦ rw e
      | inr e ↦ rw e (refused (λ s. s == "" || is_host s) (is_host text) text (λ h. ground arith))
    ]

pub normalize_host_like-required : (v : Json) → holds is_host (normalize_host_like true v) ≡ true
unfolding normalize_host_like
normalize_host_like-required v =
    let text = strip (text_or_empty v) in
    elim (Bool-cases (text == "")) [
      | inl e ↦ rw e
      | inr e ↦ rw e (refused is_host (is_host text) text (λ h. h))
    ]

empty-is_line : (n : ℕ) → is_line n "" ≡ true
unfolding all_chars text_length
empty-is_line n = ground arith

pub normalize_text-is_line :
    (max_length : ℕ) (required : Bool) (v : Json)
    → holds (is_line max_length) (normalize_text max_length required v) ≡ true
unfolding normalize_text
normalize_text-is_line max_length required v =
    let text = strip (text_or_empty v) in
    elim (Bool-cases (text == "")) [
      | inl e ↦
          rw e (holds-refuse_if (is_line max_length) required _ (λ k. empty-is_line max_length))
      | inr e ↦ rw e (refused (is_line max_length) (is_line max_length text) text (λ h. h))
    ]

pub normalize_xhttp_path-is_path : (v : Json) → holds is_path (normalize_xhttp_path v) ≡ true
unfolding normalize_xhttp_path
normalize_xhttp_path-is_path v = elim (Option-cases (text_or "/vless-xhttp" v)) [
  | inl e ↦ rw e
  | inr (path, e) ↦ rw e (refused is_path (is_path path) path (λ h. h))
]

pub normalize_xhttp_mode-is_mode :
    (lower : String → String) (v : Json)
    → holds (contains xhttp_modes) (normalize_xhttp_mode lower v) ≡ true
unfolding normalize_xhttp_mode
normalize_xhttp_mode-is_mode lower v = elim (Option-cases (text_or "auto" v)) [
  | inl e ↦ rw e
  | inr (mode, e) ↦
      rw e
        (refused (contains xhttp_modes) (contains xhttp_modes (lower mode)) (lower mode) (λ h. h))
]
