-- ===== src/Xray/Inbounds/Found.antt =====
-- `find_inbound_by_tag` after a change of an inbound in place.
use xray_vps_manager.Base.{
  String, Bool, true, false, ◌&&◌, ◌||◌, ◌≡◌, refl, arith, Option, none, some, List, [], ◌∷◌, ◌++◌,
  if◌then◌else◌, find, filter, any, eq_iff, ◌==◌, Bool-cases, inl, inr, any-append,
}
use xray_vps_manager.Xray.Inbounds.{
  Inbound, inbound_tag, is_reality, is_tls_only, is_trojan, find_inbound_by_tag, change_first,
  of_kind, change_found,
}

module _ {ℓ} {A : Type ℓ} where
  find-append_some :
      (p : A → Bool) (xs ys : List A)
      → find p (xs ++ ys) ≡ (if any p xs then find p xs else find p ys)
  find-append_some p [] ys = refl
  find-append_some p (x ∷ xs) ys = ground (arith, find-append_some p xs ys)

  any-filter : (p q : A → Bool) (xs : List A) → any p (filter q xs) ≡ any (λ x. q x && p x) xs
  any-filter p q [] = refl
  any-filter p q (x ∷ xs) = ground (arith, any-filter p q xs)

  find-filter : (p q : A → Bool) (xs : List A) → find p (filter q xs) ≡ find (λ x. q x && p x) xs
  find-filter p q [] = refl
  find-filter p q (x ∷ xs) = ground (arith, find-filter p q xs)

abbrev pub kind_found : List Inbound → String → Option Inbound
kind_found inbounds tag =
    if any (of_kind is_reality tag) inbounds
    then find (of_kind is_reality tag) inbounds
    else if any (of_kind is_tls_only tag) inbounds
    then find (of_kind is_tls_only tag) inbounds
    else find (of_kind is_trojan tag) inbounds

split {ℓ} :
    {A : Type ℓ} (a b : Bool) (x y z : A)
    → (if a || b then (if a then x else y) else z) ≡ (if a then x else if b then y else z)
split true b x y z = refl
split false b x y z = refl

find_inbound_by_tag-kind :
    (inbounds : List Inbound) (tag : String)
    → find_inbound_by_tag inbounds tag ≡ kind_found inbounds tag
unfolding find_inbound_by_tag
find_inbound_by_tag-kind inbounds tag =
    rw
      (
        find-append_some, find-append_some, any-append, any-filter, any-filter, find-filter,
        find-filter, find-filter,
      )
      (split (any (of_kind is_reality tag) inbounds) (any (of_kind is_tls_only tag) inbounds) _ _ _)

abbrev pub mapped : (Inbound → Inbound) → Option Inbound → Option Inbound
mapped f none = none
mapped f (some i) = some (f i)

module _ (f : Inbound → Inbound) (p q : Inbound → Bool)
    (keeps : (i : Inbound) → q (f i) ≡ q i) where
  any-change_first : (is : List Inbound) → any q (change_first p f is) ≡ any q is
  any-change_first [] = refl
  any-change_first (i ∷ is) = ground (arith, keeps i, any-change_first is)

  find-change_first_other :
      ((i : Inbound) → p i ≡ true → q i ≡ false)
      → (is : List Inbound) → find q (change_first p f is) ≡ find q is
  find-change_first_other apart [] = refl
  find-change_first_other apart (i ∷ is) =
      ground (arith, keeps i, apart i, find-change_first_other apart is)

find-change_first :
    (f : Inbound → Inbound) (p : Inbound → Bool)
    → ((i : Inbound) → p (f i) ≡ p i)
    → (is : List Inbound) → find p (change_first p f is) ≡ mapped f (find p is)
find-change_first f p keeps [] = refl
find-change_first f p keeps (i ∷ is) = ground (arith, keeps i, find-change_first f p keeps is)

-- What a change leaves alone, so that the same inbounds are found.
pub record KeepsPlace (f : Inbound → Inbound) : Type 0 where
  pub same_tag : (i : Inbound) → inbound_tag (f i) ≡ inbound_tag i
  pub same_reality : (i : Inbound) → is_reality (f i) ≡ is_reality i
  pub same_tls : (i : Inbound) → is_tls_only (f i) ≡ is_tls_only i
  pub same_trojan : (i : Inbound) → is_trojan (f i) ≡ is_trojan i

apart :
    (t s : String) (k l : Inbound → Bool)
    → (t == s) ≡ false
    → (i : Inbound) → of_kind k t i ≡ true
    → of_kind l s i ≡ false
apart t s k l h i e = ground (arith, eq_iff (inbound_tag i) t, eq_iff (inbound_tag i) s, eq_iff t s)

module _ (f : Inbound → Inbound) (keeps : KeepsPlace f) (s : String) where
  of_kind-keeps :
      (kind : Inbound → Bool)
      → ((i : Inbound) → kind (f i) ≡ kind i)
      → (i : Inbound) → of_kind kind s (f i) ≡ of_kind kind s i
  of_kind-keeps kind h i = rw (h i, keeps.same_tag i)

  keeps_reality : (i : Inbound) → of_kind is_reality s (f i) ≡ of_kind is_reality s i
  keeps_reality = of_kind-keeps is_reality keeps.same_reality

  keeps_tls : (i : Inbound) → of_kind is_tls_only s (f i) ≡ of_kind is_tls_only s i
  keeps_tls = of_kind-keeps is_tls_only keeps.same_tls

  keeps_trojan : (i : Inbound) → of_kind is_trojan s (f i) ≡ of_kind is_trojan s i
  keeps_trojan = of_kind-keeps is_trojan keeps.same_trojan

  kind_found-same :
      (is : List Inbound) → kind_found (change_found s f is) s ≡ mapped f (kind_found is s)
  unfolding change_found
  kind_found-same is = elim (Bool-cases (any (of_kind is_reality s) is)) [
    | inl r ↦
        rw (r, any-change_first f (of_kind is_reality s) _ keeps_reality is, r)
          (find-change_first f _ keeps_reality is)
    | inr r ↦ elim (Bool-cases (any (of_kind is_tls_only s) is)) [
      | inl t ↦
          rw
            (
              r,
              t,
              any-change_first f (of_kind is_tls_only s) _ keeps_reality is,
              r,
              any-change_first f (of_kind is_tls_only s) _ keeps_tls is,
              t,
            )
            (find-change_first f _ keeps_tls is)
      | inr t ↦
          rw
            (
              r,
              t,
              any-change_first f (of_kind is_trojan s) _ keeps_reality is,
              r,
              any-change_first f (of_kind is_trojan s) _ keeps_tls is,
              t,
            )
            (find-change_first f _ keeps_trojan is)
    ]
  ]

  kind_found-apart :
      (t : String) (k : Inbound → Bool)
      → (t == s) ≡ false
      → (is : List Inbound) → kind_found (change_first (of_kind k t) f is) s ≡ kind_found is s
  kind_found-apart t k h is = rw (
    any-change_first f (of_kind k t) _ keeps_reality is,
    any-change_first f (of_kind k t) _ keeps_tls is,
    find-change_first_other f (of_kind k t) _ keeps_reality (apart t s k is_reality h) is,
    find-change_first_other f (of_kind k t) _ keeps_tls (apart t s k is_tls_only h) is,
    find-change_first_other f (of_kind k t) _ keeps_trojan (apart t s k is_trojan h) is,
  )

  kind_found-other :
      (t : String)
      → (t == s) ≡ false
      → (is : List Inbound) → kind_found (change_found t f is) s ≡ kind_found is s
  unfolding change_found
  kind_found-other t h is = elim (Bool-cases (any (of_kind is_reality t) is)) [
    | inl r ↦ rw r (kind_found-apart t is_reality h is)
    | inr r ↦ elim (Bool-cases (any (of_kind is_tls_only t) is)) [
      | inl l ↦ rw (r, l) (kind_found-apart t is_tls_only h is)
      | inr l ↦ rw (r, l) (kind_found-apart t is_trojan h is)
    ]
  ]

  -- The inbound that is found by a tag after a change of the one that is found by a tag.
  pub find-change_found :
      (t : String) (is : List Inbound)
      → find_inbound_by_tag (change_found t f is) s
        ≡ (if t == s then mapped f (find_inbound_by_tag is s) else find_inbound_by_tag is s)
  find-change_found t is =
      rw (find_inbound_by_tag-kind is s, find_inbound_by_tag-kind (change_found t f is) s)
        (elim (Bool-cases (t == s)) [
          | inl e ↦ rw e (rw ((eq_iff t s).0 e) (kind_found-same is))
          | inr e ↦ rw e (kind_found-other t e is)
        ])
