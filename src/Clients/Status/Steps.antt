-- ===== src/Clients/Status/Steps.antt =====
-- What one client's end of access does to the items of the inbounds and to its entry.
use xray_vps_manager.Base.{
  String, Bool, true, false, not, ◌≡◌, refl, arith, some, List, [], ◌∷◌, filter, any, all, eq_iff,
  Bool-cases, Option-cases, inl, inr, ◌∙◌, ◌==◌,
}
use xray_vps_manager.Json.{Object}
use xray_vps_manager.Xray.Inbounds.{Inbound, client_name}
use xray_vps_manager.Clients.Entry.{Entry}
use xray_vps_manager.Clients.Credentials.{
  Credentials, credential_key, is_on, named, without, remove_active_credential, sync_legacy_fields,
}
use xray_vps_manager.Clients.Credentials.Removed.{found_items, found_items-remove}
use xray_vps_manager.Clients.Status.{disable_each}

abbrev pub has_item : String → List Object → Bool
has_item name items = any (named name) items

abbrev pub items_named : String → List Object → List Object
items_named name items = filter (named name) items

has_item-without :
    (name : String) (items : List Object) → has_item name (without name items) ≡ false
has_item-without name [] = refl
has_item-without name (i ∷ is) = ground (arith, has_item-without name is)

has_item-without_other :
    (name other : String) (items : List Object)
    → has_item name items ≡ false
    → has_item name (without other items) ≡ false
has_item-without_other name other [] h = refl
has_item-without_other name other (i ∷ is) h = ground (arith, has_item-without_other name other is)

items_named-without :
    (name other : String) (items : List Object)
    → (other == name) ≡ false
    → items_named name (without other items) ≡ items_named name items
items_named-without name other [] h = refl
items_named-without name other (i ∷ is) h = ground (
  arith,
  items_named-without name other is,
  eq_iff (client_name i) name,
  eq_iff (client_name i) other,
  eq_iff other name,
)

module _ (name id : String) where
  abbrev pub after_loop : Credentials → List Inbound → List Inbound
  after_loop credentials inbounds = (disable_each name id credentials inbounds).inbounds

  -- A client that has no item in an inbound gets none, whoever is disabled.
  pub disable_each-none :
      (n : String) (credentials : Credentials) (inbounds : List Inbound) (t : String)
      → has_item n (found_items inbounds t) ≡ false
      → has_item n (found_items (after_loop credentials inbounds) t) ≡ false
  unfolding disable_each
  disable_each-none n [] inbounds t h = h
  disable_each-none n ((tag, c) ∷ cs) inbounds t h =
      disable_each-none n cs (remove_active_credential inbounds name tag).inbounds t (
        rw (found_items-remove inbounds name tag t) (elim (Bool-cases (credential_key tag == t)) [
          | inl e ↦ rw e (has_item-without_other n name (found_items inbounds t) h)
          | inr e ↦ rw e h
        ]))

  -- The loop takes the client out of the inbound of each credential.
  pub disable_each-removes :
      (credentials : Credentials) (inbounds : List Inbound) (t : String)
      → any (λ p. credential_key p.0 == t) credentials ≡ true
      → has_item name (found_items (after_loop credentials inbounds) t) ≡ false
  unfolding disable_each
  disable_each-removes [] inbounds t h = absurd (cc)
  disable_each-removes ((tag, c) ∷ cs) inbounds t h =
      let rest = (remove_active_credential inbounds name tag).inbounds in
      elim (Bool-cases (credential_key tag == t)) [
        | inl e ↦ disable_each-none name cs rest t (
            rw (found_items-remove inbounds name tag t, e)
              (has_item-without name (found_items inbounds t)))
        | inr e ↦ disable_each-removes cs rest t (ground arith)
      ]

  -- The items of another client stay.
  pub disable_each-keeps :
      (n : String) (credentials : Credentials) (inbounds : List Inbound) (t : String)
      → (name == n) ≡ false
      → items_named n (found_items (after_loop credentials inbounds) t)
        ≡ items_named n (found_items inbounds t)
  unfolding disable_each
  disable_each-keeps n [] inbounds t h = refl
  disable_each-keeps n ((tag, c) ∷ cs) inbounds t h =
      disable_each-keeps n cs (remove_active_credential inbounds name tag).inbounds t h
      ∙ rw (found_items-remove inbounds name tag t) (elim (Bool-cases (credential_key tag == t)) [
        | inl e ↦ rw e (items_named-without n name (found_items inbounds t) h)
        | inr e ↦ rw e
      ])

  pub disable_each-off :
      (credentials : Credentials) (inbounds : List Inbound)
      → all (λ p. not (is_on (p.1).enabled)) (disable_each name id credentials inbounds).credentials
        ≡ true
  unfolding disable_each
  disable_each-off [] inbounds = refl
  disable_each-off ((tag, c) ∷ cs) inbounds =
      let removal = remove_active_credential inbounds name tag in
      elim (Option-cases removal.item) [
        | inl e ↦ rw e (disable_each-off cs removal.inbounds)
        | inr (i, e) ↦ rw e (disable_each-off cs removal.inbounds)
      ]

any_on :
    (credentials : Credentials)
    → all (λ p. not (is_on (p.1).enabled)) credentials ≡ true
    → any (λ p. is_on (p.1).enabled) credentials ≡ false
any_on [] h = refl
any_on ((k, c) ∷ cs) h = ground (arith, any_on cs)

-- An entry all of whose credentials are off is off.
pub sync_legacy_fields-off :
    (entry : Entry)
    → entry.limited.enabled ≡ some false
    → all (λ p. not (is_on (p.1).enabled)) entry.credentials ≡ true
    → (sync_legacy_fields entry).limited.enabled ≡ some false
unfolding sync_legacy_fields
sync_legacy_fields-off entry h k = ground (arith, any_on entry.credentials)

pub sync_legacy_fields-credentials :
    (entry : Entry) → (sync_legacy_fields entry).credentials ≡ entry.credentials
unfolding sync_legacy_fields
sync_legacy_fields-credentials entry = ground arith
