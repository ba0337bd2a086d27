-- ===== src/Clients/Status/Due.antt =====
-- Whose access has ended: the names that the run collects from the items of the inbounds.
use xray_vps_manager.Base.{
  ℕ, String, Bool, true, false, not, ◌&&◌, ◌≡◌, refl, arith, Option, none, some, List, [], ◌∷◌,
  find, filter, map, contains, eq_iff, any-append, Bool-cases, inl, inr, ◌==◌,
}
use mathlib.Core.List.{map-append}
use xray_vps_manager.Json.{Object}
use xray_vps_manager.Xray.Inbounds.{
  Inbound, is_reality, is_tls_only, is_trojan, managed_connection_inbounds, clients_of, client_name,
  with_tag, find_inbound_by_tag,
}
use xray_vps_manager.Xray.Inbounds.Found.{mapped, KeepsPlace}
use xray_vps_manager.Clients.Access.{Moment}
use xray_vps_manager.Clients.Credentials.{named}
use xray_vps_manager.Clients.Credentials.Removed.{
  items_of, found_items, migrated-KeepsPlace, clients_of-migrated,
}
use xray_vps_manager.Clients.Status.{Clients, is_due, due_from, items_in, touched}
use xray_vps_manager.Clients.Status.Steps.{has_item}

-- The first inbound with a tag is one of the managed ones.
has_item-found :
    (n tag : String) (is : List Inbound)
    → has_item n (items_in is) ≡ false
    → has_item n (items_of (find (with_tag tag) is)) ≡ false
has_item-found n tag [] h = refl
has_item-found n tag (i ∷ is) h =
    ground (arith, has_item-found n tag is, any-append (named n) (clients_of i) (items_in is))

pub has_item-found_items :
    (n t : String) (inbounds : List Inbound)
    → has_item n (items_in (managed_connection_inbounds inbounds)) ≡ false
    → has_item n (found_items inbounds t) ≡ false
unfolding find_inbound_by_tag
has_item-found_items n t inbounds h = has_item-found n t (managed_connection_inbounds inbounds) h

touched-KeepsPlace : KeepsPlace touched
touched-KeepsPlace = record {
  same_tag = λ i. ground (arith, migrated-KeepsPlace.same_tag i);
  same_reality = λ i. ground (arith, migrated-KeepsPlace.same_reality i);
  same_tls = λ i. ground (arith, migrated-KeepsPlace.same_tls i);
  same_trojan = λ i. ground (arith, migrated-KeepsPlace.same_trojan i);
}

filter-map :
    (f : Inbound → Inbound) (p : Inbound → Bool) (same : (i : Inbound) → p (f i) ≡ p i)
    → (is : List Inbound) → filter p (map f is) ≡ map f (filter p is)
filter-map f p same [] = refl
filter-map f p same (i ∷ is) = ground (arith, same i, filter-map f p same is)

find-map :
    (f : Inbound → Inbound) (p : Inbound → Bool) (same : (i : Inbound) → p (f i) ≡ p i)
    → (is : List Inbound) → find p (map f is) ≡ mapped f (find p is)
find-map f p same [] = refl
find-map f p same (i ∷ is) = ground (arith, same i, find-map f p same is)

managed-touched :
    (is : List Inbound)
    → managed_connection_inbounds (map touched is) ≡ map touched (managed_connection_inbounds is)
unfolding managed_connection_inbounds
managed-touched is =
    rw
      (
        filter-map touched is_reality touched-KeepsPlace.same_reality is,
        filter-map touched is_tls_only touched-KeepsPlace.same_tls is,
        filter-map touched is_trojan touched-KeepsPlace.same_trojan is,
      )
      (simp map-append)

items_of-touched : (o : Option Inbound) → items_of (mapped touched o) ≡ items_of o
items_of-touched none = refl
items_of-touched (some i) = ground (arith, clients_of-migrated i)

-- The calls of `clients` change the items of no inbound.
pub found_items-touched :
    (is : List Inbound) (t : String) → found_items (map touched is) t ≡ found_items is t
unfolding find_inbound_by_tag
found_items-touched is t =
    rw
      (
        managed-touched is,
        find-map touched (with_tag t) (λ i. rw (touched-KeepsPlace.same_tag i))
            (managed_connection_inbounds is),
      )
      (items_of-touched (find (with_tag t) (managed_connection_inbounds is)))

-- No name comes twice.
abbrev pub all_once : List String → Bool
all_once [] = true
all_once (n ∷ ns) = not (contains ns n) && all_once ns

module _ (lower : String → String) (parse_datetime : String → Option Moment) (midnight : ℕ → String)
    (now : ℕ) where
  abbrev due : Clients → List String → List Object → List String
  due = due_from lower parse_datetime midnight now

  abbrev ended : Clients → String → Bool
  ended = is_due lower parse_datetime midnight now

  pub due-seen :
      (clients : Clients) (seen : List String) (items : List Object) (n : String)
      → contains seen n ≡ true
      → contains (due clients seen items) n ≡ false
  unfolding due_from
  due-seen clients seen [] n h = refl
  due-seen clients seen (i ∷ is) n h = ground (
    arith,
    due-seen clients seen is n h,
    due-seen clients (client_name i ∷ seen) is n,
    eq_iff (client_name i) n,
  )

  pub due-ended :
      (clients : Clients) (seen : List String) (items : List Object) (n : String)
      → ended clients n ≡ false
      → contains (due clients seen items) n ≡ false
  unfolding due_from
  due-ended clients seen [] n h = refl
  due-ended clients seen (i ∷ is) n h = ground (
    arith,
    due-ended clients seen is n h,
    due-ended clients (client_name i ∷ seen) is n h,
    eq_iff (client_name i) n,
  )

  pub due-has_item :
      (clients : Clients) (seen : List String) (items : List Object) (n : String)
      → ended clients n ≡ true
      → contains seen n ≡ false
      → contains (due clients seen items) n ≡ has_item n items
  unfolding due_from
  due-has_item clients seen [] n h k = refl
  due-has_item clients seen (i ∷ is) n h k = elim (Bool-cases (client_name i == n)) [
    | inl e ↦
        let same : client_name i ≡ n = (eq_iff (client_name i) n).0 e in
        let new : contains seen (client_name i) ≡ false = rw same k in
        let over : ended clients (client_name i) ≡ true = rw same h in rw (new, over, e)
    | inr e ↦ ground (
      arith,
      e,
      due-has_item clients seen is n h k,
      due-has_item clients (client_name i ∷ seen) is n h,
    )
  ]

  pub due-all_once :
      (clients : Clients) (seen : List String) (items : List Object)
      → all_once (due clients seen items) ≡ true
  unfolding due_from
  due-all_once clients seen [] = refl
  due-all_once clients seen (i ∷ is) = ground (
    arith,
    due-all_once clients seen is,
    due-all_once clients (client_name i ∷ seen) is,
    due-seen clients (client_name i ∷ seen) is (client_name i),
    eq_iff (client_name i) (client_name i),
  )
