-- ===== src/Telegram/Updates/Kept.antt =====
-- The signatures that a claim keeps: those of the hundred highest numbers.
use xray_vps_manager.Base.{
  ltb, ◌∙◌, ℕ, suc, zero, ◌-◌, ◌≤◌, ◌<◌, ◌≡◌, refl, arith, String, Bool, true, not, ◌&&◌, ◌||◌,
  some, none, List, [], ◌∷◌, if◌then◌else◌, nat_eq, leb, is_some, all, any, drop, length,
  Bool-cases, Option-cases, inl, inr,
}
use xray_vps_manager.Telegram.Updates.{
  lowest, highest, Signatures, keys, at, store, update, last_hundred, chosen, sorted, insert_number,
}

-- Numbers in order.
abbrev pub in_order : List ℕ → Bool
in_order [] = true
in_order (k ∷ []) = true
in_order (k ∷ j ∷ js) = leb k j && in_order (j ∷ js)

abbrev pub has : ℕ → List ℕ → Bool
has m ks = any (nat_eq m) ks

abbrev pub up_to : ℕ → List ℕ → Bool
up_to m ks = all (λ k. leb k m) ks

pub in_order-insert_number :
    (k : ℕ) (js : List ℕ) → in_order js ≡ true → in_order (insert_number k js) ≡ true
unfolding insert_number
in_order-insert_number k [] h = refl
in_order-insert_number k (j ∷ []) h = ground arith
in_order-insert_number k (j ∷ i ∷ is) h = ground (arith, in_order-insert_number k (i ∷ is))

pub in_order-sorted : (ks : List ℕ) → in_order (sorted ks) ≡ true
unfolding sorted
in_order-sorted [] = refl
in_order-sorted (k ∷ ks) = in_order-insert_number k (sorted ks) (in_order-sorted ks)

pub has-insert_number :
    (m k : ℕ) (js : List ℕ) → has m (insert_number k js) ≡ (nat_eq m k || has m js)
unfolding insert_number
has-insert_number m k [] = refl
has-insert_number m k (j ∷ js) = ground (arith, has-insert_number m k js)

pub has-sorted : (m : ℕ) (ks : List ℕ) → has m (sorted ks) ≡ has m ks
unfolding sorted
has-sorted m [] = refl
has-sorted m (k ∷ ks) = ground (arith, has-insert_number m k (sorted ks), has-sorted m ks)

pub up_to-insert_number :
    (m k : ℕ) (js : List ℕ) → up_to m (insert_number k js) ≡ (leb k m && up_to m js)
unfolding insert_number
up_to-insert_number m k [] = refl
up_to-insert_number m k (j ∷ js) = ground (arith, up_to-insert_number m k js)

pub up_to-sorted : (m : ℕ) (ks : List ℕ) → up_to m (sorted ks) ≡ up_to m ks
unfolding sorted
up_to-sorted m [] = refl
up_to-sorted m (k ∷ ks) = ground (arith, up_to-insert_number m k (sorted ks), up_to-sorted m ks)

pub length-insert_number : (k : ℕ) (js : List ℕ) → length (insert_number k js) ≡ suc (length js)
unfolding insert_number
length-insert_number k [] = refl
length-insert_number k (j ∷ js) = ground (arith, length-insert_number k js)

pub length-sorted : {V : Type 0} (d : List (ℕ × V)) → length (sorted (keys d)) ≡ length d
unfolding sorted
length-sorted [] = refl
length-sorted ((k, v) ∷ d) =
    omega (arith, length-insert_number k (sorted (keys d)), length-sorted d)

-- The highest number is the last one in order, so it stays where only the first ones are dropped.
pub has-drop :
    (m n : ℕ) (ks : List ℕ)
    → in_order ks ≡ true
    → up_to m ks ≡ true
    → has m ks ≡ true
    → n < length ks
    → has m (drop n ks) ≡ true
has-drop m zero ks o u h l = h
has-drop m (suc n) [] o u h l = absurd (omega arith)
has-drop m (suc n) (k ∷ []) o u h l = absurd (omega arith)
has-drop m (suc n) (k ∷ j ∷ js) o u h l = ground (arith, has-drop m n (j ∷ js))

pub chosen-some :
    (recent : Signatures) (k : ℕ) (ks : List ℕ) (d : String)
    → at recent k ≡ some d
    → chosen recent (k ∷ ks) ≡ (k, d) ∷ chosen recent ks
chosen-some recent k ks d e = rw (chosen, e)

pub chosen-none :
    (recent : Signatures) (k : ℕ) (ks : List ℕ)
    → at recent k ≡ none
    → chosen recent (k ∷ ks) ≡ chosen recent ks
chosen-none recent k ks e = rw (chosen, e)

pub at-chosen :
    (recent : Signatures) (ks : List ℕ) (m : ℕ) (d : String)
    → at recent m ≡ some d
    → has m ks ≡ true
    → at (chosen recent ks) m ≡ some d
at-chosen recent [] m d h k = absurd (cc)
at-chosen recent (k ∷ ks) m d h q = elim (Bool-cases (nat_eq k m)) [
  | inl e ↦
      let same : k ≡ m = ground arith in
      let found : at recent k ≡ some d = rw same h in
      rw (chosen-some recent k ks d found) (ground arith)
  | inr e ↦
      let ih : at (chosen recent ks) m ≡ some d = at-chosen recent ks m d h (ground arith) in
      elim (Option-cases (at recent k)) [
        | inl none_there ↦ rw (chosen-none recent k ks none_there) ih
        | inr (d', there) ↦ rw (chosen-some recent k ks d' there) (ground arith)
      ]
]

pub has-keys :
    {V : Type 0} (recent : List (ℕ × V)) (m : ℕ) (d : V)
    → at recent m ≡ some d
    → has m (keys recent) ≡ true
has-keys [] m d h = absurd (cc)
has-keys ((k, e) ∷ recent) m d h = ground (arith, has-keys recent m d)

pub not_empty :
    {V : Type 0} (recent : List (ℕ × V)) (m : ℕ) (d : V) → at recent m ≡ some d → 0 < length recent
not_empty [] m d h = absurd (cc)
not_empty ((k, e) ∷ recent) m d h = omega arith

-- The signature of the highest number is kept.
pub at-last_hundred :
    (recent : Signatures) (m : ℕ) (d : String)
    → at recent m ≡ some d
    → up_to m (keys recent) ≡ true
    → at (last_hundred recent) m ≡ some d
unfolding last_hundred
at-last_hundred recent m d h u = at-chosen recent _ m d h (
    has-drop m (length recent - 100) (sorted (keys recent)) (in_order-sorted (keys recent))
      (up_to-sorted m (keys recent) ∙ u) (has-sorted m (keys recent) ∙ has-keys recent m d h)
      (omega (arith, length-sorted recent, not_empty recent m d h)))

pub up_to-store :
    {V : Type 0} (d : List (ℕ × V)) (k m : ℕ) (v : V)
    → up_to m (keys d) ≡ true
    → k ≤ m
    → up_to m (keys (store d k v)) ≡ true
up_to-store [] k m v h l = ground arith
up_to-store ((j, w) ∷ d) k m v h l = ground (arith, up_to-store d k m v)

pub up_to-update :
    {V : Type 0} (d e : List (ℕ × V)) (m : ℕ)
    → up_to m (keys d) ≡ true
    → up_to m (keys e) ≡ true
    → up_to m (keys (update d e)) ≡ true
up_to-update d [] m h k = h
up_to-update d ((j, v) ∷ e) m h k =
    up_to-update (store d j v) e m (up_to-store d j m v h (ground arith)) (ground arith)

abbrev pub once : {V : Type 0} → List (ℕ × V) → Bool
once [] = true
once ((k, v) ∷ d) = not (is_some (at d k)) && once d

pub at-store :
    {V : Type 0} (d : List (ℕ × V)) (k j : ℕ) (v : V)
    → at (store d k v) j ≡ (if nat_eq k j then some v else at d j)
at-store [] k j v = refl
at-store ((i, w) ∷ d) k j v = ground (arith, at-store d k j v)

pub at-update_other :
    {V : Type 0} (d e : List (ℕ × V)) (k : ℕ) → at e k ≡ none → at (update d e) k ≡ at d k
at-update_other d [] k h = refl
at-update_other d ((j, v) ∷ e) k h =
    at-update_other (store d j v) e k (ground arith) ∙ ground (arith, at-store d j k v)

pub at-update :
    {V : Type 0} (d e : List (ℕ × V)) (k : ℕ) (v : V)
    → once e ≡ true
    → at e k ≡ some v
    → at (update d e) k ≡ some v
at-update d [] k v o h = absurd (cc)
at-update d ((j, w) ∷ e) k v o h = elim (Bool-cases (nat_eq j k)) [
  | inl same ↦
      let there : at e k ≡ none = ground arith in
      at-update_other (store d j w) e k there ∙ ground (arith, at-store d j k w)
  | inr other ↦ at-update (store d j w) e k v (ground arith) (ground arith)
]

pub up_to-le : (m n : ℕ) (ks : List ℕ) → up_to m ks ≡ true → m ≤ n → up_to n ks ≡ true
up_to-le m n [] h l = refl
up_to-le m n (k ∷ ks) h l = ground (arith, up_to-le m n ks)

pub below-le : (o m : ℕ) (ks : List ℕ) → all (λ k. ltb k o) ks ≡ true → o ≤ m → up_to m ks ≡ true
below-le o m [] h l = refl
below-le o m (k ∷ ks) h l = ground (arith, below-le o m ks)

pub has-lowest : (m k : ℕ) (ks : List ℕ) → has m (k ∷ ks) ≡ true → lowest k ks ≤ m
has-lowest m k [] h = ground arith
has-lowest m k (j ∷ js) h = ground (arith, has-lowest m j js)

pub has-highest : (m k : ℕ) (ks : List ℕ) → has m (k ∷ ks) ≡ true → m ≤ highest k ks
has-highest m k [] h = ground arith
has-highest m k (j ∷ js) h = elim (Bool-cases (nat_eq m k)) [
  | inl e ↦ let same : m ≡ k = ground arith in omega arith
  | inr e ↦ let rest : m ≤ highest j js = has-highest m j js (ground arith) in omega arith
]

pub up_to-drop : (m n : ℕ) (ks : List ℕ) → up_to m ks ≡ true → up_to m (drop n ks) ≡ true
up_to-drop m zero ks h = h
up_to-drop m (suc n) [] h = refl
up_to-drop m (suc n) (k ∷ ks) h = up_to-drop m n ks (ground arith)

pub up_to-chosen :
    (recent : Signatures) (ks : List ℕ) (m : ℕ)
    → up_to m ks ≡ true
    → up_to m (keys (chosen recent ks)) ≡ true
up_to-chosen recent [] m h = refl
up_to-chosen recent (k ∷ ks) m h = elim (Option-cases (at recent k)) [
  | inl e ↦ rw (chosen-none recent k ks e) (up_to-chosen recent ks m (ground arith))
  | inr (d, e) ↦ rw (chosen-some recent k ks d e) (ground (arith, up_to-chosen recent ks m))
]

pub up_to-last_hundred :
    (recent : Signatures) (m : ℕ)
    → up_to m (keys recent) ≡ true
    → up_to m (keys (last_hundred recent)) ≡ true
unfolding last_hundred
up_to-last_hundred recent m h =
    up_to-chosen recent _ m
      (up_to-drop m (length recent - 100) (sorted (keys recent)) (up_to-sorted m (keys recent) ∙ h))

pub below-up_to : (o m : ℕ) (ks : List ℕ) → up_to m ks ≡ true → m < o → all (λ k. ltb k o) ks ≡ true
below-up_to o m [] h l = refl
below-up_to o m (k ∷ ks) h l = ground (arith, below-up_to o m ks)

pub up_to-below :
    (o m : ℕ) (ks : List ℕ) → all (λ k. ltb k o) ks ≡ true → o ≤ suc m → up_to m ks ≡ true
up_to-below o m [] h l = refl
up_to-below o m (k ∷ ks) h l = ground (arith, up_to-below o m ks)

pub up_to-all : (n : ℕ) (k : ℕ) (ks : List ℕ) → highest k ks ≤ n → up_to n (k ∷ ks) ≡ true
up_to-all n k [] h = ground arith
up_to-all n k (j ∷ js) h =
    let here : k ≤ n = omega arith in
    let there : highest j js ≤ n = omega arith in ground (arith, here, up_to-all n j js there)
