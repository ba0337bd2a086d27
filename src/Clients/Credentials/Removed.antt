-- ===== src/Clients/Credentials/Removed.antt =====
-- What the removal of an active credential does to the items of each inbound.
use xray_vps_manager.Base.{
  sym, ◌∙◌, ap, subst, String, true, false, ◌≡◌, arith, Option, none, some, List, [], length,
  nat_eq, if◌then◌else◌, eq_iff, filter_full, Option-cases, Bool-cases, inl, inr, ◌==◌,
}
use xray_vps_manager.Json.{Object}
use xray_vps_manager.Xray.Inbounds.{
  Inbound, inbound_tag, is_reality, is_tls_only, is_trojan, migrated, clients_of, set_clients,
  find_inbound_by_tag, change_found,
}
use xray_vps_manager.Xray.Inbounds.Found.{KeepsPlace, find-change_found}
use xray_vps_manager.Clients.Credentials.{credential_key, without, remove_active_credential}

-- The items of the inbound with a tag.
abbrev pub items_of : Option Inbound → List Object
items_of none = []
items_of (some i) = clients_of i

abbrev pub found_items : List Inbound → String → List Object
found_items inbounds tag = items_of (find_inbound_by_tag inbounds tag)

pub migrated-KeepsPlace : KeepsPlace migrated
unfolding migrated inbound_tag is_reality is_tls_only is_trojan
migrated-KeepsPlace = record {
  same_tag = λ i. ground arith;
  same_reality = λ i. ground arith;
  same_tls = λ i. ground arith;
  same_trojan = λ i. ground arith;
}

set_clients-KeepsPlace : (items : List Object) → KeepsPlace (λ i. set_clients (migrated i) items)
unfolding set_clients migrated inbound_tag is_reality is_tls_only is_trojan
set_clients-KeepsPlace items = record {
  same_tag = λ i. ground arith;
  same_reality = λ i. ground arith;
  same_tls = λ i. ground arith;
  same_trojan = λ i. ground arith;
}

pub clients_of-migrated : (i : Inbound) → clients_of (migrated i) ≡ clients_of i
unfolding migrated
clients_of-migrated i = ground arith

clients_of-set_clients :
    (i : Inbound) (items : List Object) → clients_of (set_clients (migrated i) items) ≡ items
unfolding migrated set_clients
clients_of-set_clients i items = ground arith

pub changed-found :
    (f : Inbound → Inbound) (keeps : KeepsPlace f) (inbounds : List Inbound) (t s : String)
    (i : Inbound)
    → find_inbound_by_tag inbounds t ≡ some i
    → found_items (change_found t f inbounds) s
      ≡ (if t == s then clients_of (f i) else found_items inbounds s)
changed-found f keeps inbounds t s i e = elim (Bool-cases (t == s)) [
  | inl same ↦
      let there : find_inbound_by_tag inbounds s ≡ some i =
        subst (λ x. find_inbound_by_tag inbounds x ≡ some i) ((eq_iff t s).0 same) e in
      rw (find-change_found f keeps s t inbounds, same, there)
  | inr other ↦ rw (find-change_found f keeps s t inbounds, other)
]

module _ (inbounds : List Inbound) (name connection_tag : String) where
  removal_none :
      find_inbound_by_tag inbounds (credential_key connection_tag) ≡ none
      → (remove_active_credential inbounds name connection_tag).inbounds ≡ inbounds
  unfolding remove_active_credential
  removal_none e = ground arith

  removal_same :
      (i : Inbound)
      → find_inbound_by_tag inbounds (credential_key connection_tag) ≡ some i
      → nat_eq (length (without name (clients_of i))) (length (clients_of i)) ≡ true
      → (remove_active_credential inbounds name connection_tag).inbounds
        ≡ change_found (credential_key connection_tag) migrated inbounds
  unfolding remove_active_credential
  removal_same i e h = ground arith

  removal_some :
      (i : Inbound)
      → find_inbound_by_tag inbounds (credential_key connection_tag) ≡ some i
      → nat_eq (length (without name (clients_of i))) (length (clients_of i)) ≡ false
      → (remove_active_credential inbounds name connection_tag).inbounds
        ≡ change_found
            (credential_key connection_tag)
            (λ j. set_clients (migrated j) (without name (clients_of i)))
            inbounds
  unfolding remove_active_credential
  removal_some i e h = ground arith

  -- The items of the name go from the inbound with the tag, and no other item goes.
  pub found_items-remove :
      (s : String)
      → found_items (remove_active_credential inbounds name connection_tag).inbounds s ≡ (
          if credential_key connection_tag == s
          then without name (found_items inbounds s)
          else found_items inbounds s)
  found_items-remove s =
      let t = credential_key connection_tag in
      elim (Option-cases (find_inbound_by_tag inbounds t)) [
        | inl e ↦ rw (removal_none e) (elim (Bool-cases (t == s)) [
          | inl same ↦
              let there : find_inbound_by_tag inbounds s ≡ none =
                subst (λ x. find_inbound_by_tag inbounds x ≡ none) ((eq_iff t s).0 same) e in
              rw (same, there)
          | inr other ↦ rw other
        ])
        | inr (i, e) ↦
            let items = clients_of i in
            let there : t ≡ s → found_items inbounds s ≡ items =
              λ same. ap items_of (subst (λ x. find_inbound_by_tag inbounds x ≡ some i) same e) in
            elim (Bool-cases (nat_eq (length (without name items)) (length items))) [
              | inl h ↦
                  rw
                    (
                      removal_same i e h,
                      changed-found migrated migrated-KeepsPlace inbounds t s i e,
                    )
                    (elim (Bool-cases (t == s)) [
                      | inl same ↦
                          rw (same, there ((eq_iff t s).0 same))
                            (clients_of-migrated i ∙ sym (filter_full _ items (ground arith)))
                      | inr other ↦ rw other
                    ])
              | inr h ↦
                  rw
                    (
                      removal_some i e h,
                      changed-found _ (set_clients-KeepsPlace (without name items)) inbounds t s i
                          e,
                    )
                    (elim (Bool-cases (t == s)) [
                      | inl same ↦
                          rw (same, there ((eq_iff t s).0 same))
                            (clients_of-set_clients i (without name items))
                      | inr other ↦ rw other
                    ])
            ]
      ]
