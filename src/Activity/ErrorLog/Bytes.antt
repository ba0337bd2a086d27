-- ===== src/Activity/ErrorLog/Bytes.antt =====
-- Lists of bytes and of lines, as the reader of the error log takes them.
use xray_vps_manager.Base.{
  ℕ, zero, suc, ◌+◌, ◌≤◌, ◌≡◌, refl, arith, String, Bool, true, Option, List, [], ◌∷◌, ◌++◌, nat_eq,
  length, drop, length-append, ap,
}
use xray_vps_manager.Activity.ErrorLog.{parsed}

-- The bytes end with the end of a line.
abbrev pub whole : List ℕ → Bool
whole [] = true
whole (b ∷ []) = nat_eq b 10
whole (b ∷ c ∷ bs) = whole (c ∷ bs)

pub drop-append_le : (n : ℕ) (xs ys : List ℕ) → n ≤ length xs → drop n (xs ++ ys) ≡ drop n xs ++ ys
drop-append_le zero xs ys h = refl
drop-append_le (suc n) [] ys h = absurd (omega arith)
drop-append_le (suc n) (x ∷ xs) ys h = drop-append_le n xs ys (omega arith)

pub drop-length_all : (n : ℕ) (xs : List ℕ) → length xs ≤ n → drop n xs ≡ []
drop-length_all zero [] h = refl
drop-length_all zero (x ∷ xs) h = absurd (omega arith)
drop-length_all (suc n) [] h = refl
drop-length_all (suc n) (x ∷ xs) h = drop-length_all n xs (omega arith)

pub length-drop : (n : ℕ) (xs : List ℕ) → n ≤ length xs → n + length (drop n xs) ≡ length xs
length-drop zero xs h = omega arith
length-drop (suc n) [] h = absurd (omega arith)
length-drop (suc n) (x ∷ xs) h = omega (arith, length-drop n xs)

pub whole-drop : (n : ℕ) (xs : List ℕ) → whole xs ≡ true → whole (drop n xs) ≡ true
whole-drop zero xs h = h
whole-drop (suc n) [] h = refl
whole-drop (suc n) (x ∷ []) h = rw (drop-length_all n [] (omega arith))
whole-drop (suc n) (x ∷ y ∷ xs) h = whole-drop n (y ∷ xs) h

pub whole-append : (xs ys : List ℕ) → whole xs ≡ true → whole ys ≡ true → whole (xs ++ ys) ≡ true
whole-append [] ys h k = k
whole-append (x ∷ []) [] h k = h
whole-append (x ∷ []) (y ∷ ys) h k = k
whole-append (x ∷ z ∷ xs) ys h k = whole-append (z ∷ xs) ys h k

pub parsed-append :
    {E : Type 0} (parse : String → Option E) (xs ys : List String)
    → parsed parse (xs ++ ys) ≡ parsed parse xs ++ parsed parse ys
parsed-append parse [] ys = refl
parsed-append parse (x ∷ xs) ys = ground (arith, parsed-append parse xs ys)

pub no_bytes : (xs : List ℕ) → length xs ≡ 0 → xs ≡ []
no_bytes [] h = refl
no_bytes (x ∷ xs) h = absurd (omega arith)

pub doubled : (xs : List String) → xs ≡ xs ++ xs → xs ≡ []
doubled [] h = refl
doubled (x ∷ xs) h = absurd (omega (arith, ap length h, length-append {0} (x ∷ xs) (x ∷ xs)))
