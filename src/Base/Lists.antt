-- ===== src/Base/Lists.antt =====
-- Lists under Boolean tests, measured by native numbers.
use Prim.Native.Nat.{ℕ, zero, suc, ◌+◌, ◌≤◌}
use Prim.Native.String.{String}
use mathlib.Core.Path.{◌≡◌, refl}
use mathlib.Core.Bool.{Bool, true, false, not, ◌&&◌, ◌||◌}
use mathlib.Core.List.{List, [], ◌∷◌, ◌++◌}
use mathlib.Core.Option.{Option, none, some}
use native.Mathlib.Omega.{arith}
use text.Mathlib.Text.{◌==◌}
use xray_vps_manager.Base.Tests.{if◌then◌else◌}

module _ {ℓ} {A : Type ℓ} where
  abbrev pub length : List A → ℕ
  length [] = 0
  length (x ∷ xs) = suc (length xs)

  abbrev pub take : ℕ → List A → List A
  take zero xs = []
  take (suc n) [] = []
  take (suc n) (x ∷ xs) = x ∷ take n xs

  abbrev pub drop : ℕ → List A → List A
  drop zero xs = xs
  drop (suc n) [] = []
  drop (suc n) (x ∷ xs) = drop n xs

  -- `[x for x in xs if p(x)]`
  abbrev pub filter : (A → Bool) → List A → List A
  filter p [] = []
  filter p (x ∷ xs) = let rest = filter p xs in if p x then x ∷ rest else rest

  -- `any(p(x) for x in xs)`, `all(p(x) for x in xs)`
  abbrev pub any : (A → Bool) → List A → Bool
  any p [] = false
  any p (x ∷ xs) = p x || any p xs

  abbrev pub all : (A → Bool) → List A → Bool
  all p [] = true
  all p (x ∷ xs) = p x && all p xs

  -- `next((x for x in xs if p(x)), None)`
  abbrev pub find : (A → Bool) → List A → Option A
  find p [] = none
  find p (x ∷ xs) = let rest = find p xs in if p x then some x else rest

  -- `for i, x in enumerate(xs): if p(x): index = i; break`, then `xs.insert(index, r)`; with no
  -- hit the index is the length.
  abbrev pub insert_before : (A → Bool) → A → List A → List A
  insert_before p r [] = r ∷ []
  insert_before p r (x ∷ xs) =
      let rest = insert_before p r xs in if p x then r ∷ x ∷ xs else x ∷ rest

  pub length-append : (xs ys : List A) → length (xs ++ ys) ≡ length xs + length ys
  length-append [] ys = omega arith
  length-append (x ∷ xs) ys = omega (arith, length-append xs ys)

  pub filter_idem : (p : A → Bool) (xs : List A) → filter p (filter p xs) ≡ filter p xs
  filter_idem p [] = refl
  filter_idem p (x ∷ xs) = ground (arith, filter_idem p xs)

  pub length-filter_le : (p : A → Bool) (xs : List A) → length (filter p xs) ≤ length xs
  length-filter_le p [] = omega arith
  length-filter_le p (x ∷ xs) = ground (arith, length-filter_le p xs)

  -- A filter that drops no element returns the list.
  pub filter_full :
      (p : A → Bool) (xs : List A) → length (filter p xs) ≡ length xs → filter p xs ≡ xs
  filter_full p [] h = refl
  filter_full p (x ∷ xs) h = ground (arith, filter_full p xs, length-filter_le p xs)

  pub all-filter : (p : A → Bool) (xs : List A) → all p (filter p xs) ≡ true
  all-filter p [] = refl
  all-filter p (x ∷ xs) = ground (arith, all-filter p xs)

  pub filter-complement : (p : A → Bool) (xs : List A) → filter p (filter (λ x. not (p x)) xs) ≡ []
  filter-complement p [] = refl
  filter-complement p (x ∷ xs) = ground (arith, filter-complement p xs)

  -- What is inserted among elements that fail the test is all that passes it.
  pub filter-insert_new :
      (p s : A → Bool) (r : A) (xs : List A)
      → p r ≡ true
      → filter p (insert_before s r (filter (λ x. not (p x)) xs)) ≡ r ∷ []
  filter-insert_new p s r [] h = ground arith
  filter-insert_new p s r (x ∷ xs) h =
      ground (arith, filter-insert_new p s r xs h, filter-complement p xs)

  pub filter_none : (p : A → Bool) (xs : List A) → all (λ x. not (p x)) xs ≡ true → filter p xs ≡ []
  filter_none p [] h = refl
  filter_none p (x ∷ xs) h = ground (arith, filter_none p xs)

  pub any-insert_before :
      (q p : A → Bool) (r : A) (xs : List A) → any q (insert_before p r xs) ≡ (q r || any q xs)
  any-insert_before q p r [] = refl
  any-insert_before q p r (x ∷ xs) = ground (arith, any-insert_before q p r xs)

  -- What is inserted is all that passes the test, where nothing else passes it.
  pub filter-insert_only :
      (p s : A → Bool) (r : A) (xs : List A)
      → p r ≡ true
      → all (λ x. not (p x)) xs ≡ true
      → filter p (insert_before s r xs) ≡ r ∷ []
  filter-insert_only p s r [] h k = ground arith
  filter-insert_only p s r (x ∷ xs) h k =
      ground (arith, filter-insert_only p s r xs h, filter_none p xs)

  pub all-not-any : (p : A → Bool) (xs : List A) → all (λ x. not (p x)) xs ≡ not (any p xs)
  all-not-any p [] = refl
  all-not-any p (x ∷ xs) = ground (arith, all-not-any p xs)

  pub filter-append :
      (p : A → Bool) (xs ys : List A) → filter p (xs ++ ys) ≡ filter p xs ++ filter p ys
  filter-append p [] ys = refl
  filter-append p (x ∷ xs) ys = ground (arith, filter-append p xs ys)

  pub any-append : (p : A → Bool) (xs ys : List A) → any p (xs ++ ys) ≡ (any p xs || any p ys)
  any-append p [] ys = refl
  any-append p (x ∷ xs) ys = ground (arith, any-append p xs ys)

  pub all-append : (p : A → Bool) (xs ys : List A) → all p (xs ++ ys) ≡ (all p xs && all p ys)
  all-append p [] ys = refl
  all-append p (x ∷ xs) ys = ground (arith, all-append p xs ys)

  pub all-insert_before :
      (q p : A → Bool) (r : A) (xs : List A) → all q (insert_before p r xs) ≡ (q r && all q xs)
  all-insert_before q p r [] = refl
  all-insert_before q p r (x ∷ xs) = ground (arith, all-insert_before q p r xs)

  pub filter-insert_before :
      (q p : A → Bool) (r : A) (xs : List A)
      → q r ≡ false
      → filter q (insert_before p r xs) ≡ filter q xs
  filter-insert_before q p r [] h = ground arith
  filter-insert_before q p r (x ∷ xs) h = ground (arith, filter-insert_before q p r xs)

  -- A test that is met by all of a list holds of the part that another test keeps.
  pub all-filter_sub : (q p : A → Bool) (xs : List A) → all q xs ≡ true → all q (filter p xs) ≡ true
  all-filter_sub q p [] h = refl
  all-filter_sub q p (x ∷ xs) h = ground (arith, all-filter_sub q p xs)

module _ {ℓ} {A : Type ℓ} where
  pub find_holds : (p : A → Bool) (xs : List A) (x : A) → find p xs ≡ some x → p x ≡ true
  find_holds p [] x h = ground arith
  find_holds p (y ∷ xs) x h = ground (arith, find_holds p xs x)

  -- What is found in the part that `q` keeps passes `q`.
  pub find-filter_holds :
      (p q : A → Bool) (xs : List A) (x : A) → find p (filter q xs) ≡ some x → q x ≡ true
  find-filter_holds p q [] x h = ground arith
  find-filter_holds p q (y ∷ xs) x h = ground (arith, find-filter_holds p q xs x)

-- Some element passes `q`, and none before the first of these passes `p`.
abbrev pub precedes {ℓ} : {A : Type ℓ} → (A → Bool) → (A → Bool) → List A → Bool
precedes q p [] = false
precedes q p (x ∷ xs) = q x || not (p x) && precedes q p xs

module _ {ℓ} {A : Type ℓ} where
  pub precedes-insert_before :
      (q p : A → Bool) (r : A) (xs : List A)
      → q r ≡ true
      → precedes q p (insert_before p r xs) ≡ true
  precedes-insert_before q p r [] h = ground arith
  precedes-insert_before q p r (x ∷ xs) h = ground (arith, precedes-insert_before q p r xs)

  -- Inserting something else keeps an order that is there, if it does not pass `p` itself.
  pub precedes-insert_other :
      (q p s : A → Bool) (r : A) (xs : List A)
      → p r ≡ false
      → precedes q p xs ≡ true
      → precedes q p (insert_before s r xs) ≡ true
  precedes-insert_other q p s r [] h k = ground arith
  precedes-insert_other q p s r (x ∷ xs) h k = ground (arith, precedes-insert_other q p s r xs)

-- `s in texts`, on a list or a set of texts.
abbrev pub contains : List String → String → Bool
contains [] s = false
contains (t ∷ ts) s = t == s || contains ts s
