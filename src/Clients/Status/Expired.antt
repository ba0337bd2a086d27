-- ===== src/Clients/Status/Expired.antt =====
-- The run that ends the access of clients whose time is over.
use xray_vps_manager.Base.{
  ℕ, String, Bool, true, false, not, ◌&&◌, ◌≡◌, refl, arith, Option, none, some, List, [], ◌∷◌, all,
  any, map, contains, get_or, eq_iff, Bool-cases, Option-cases, inl, inr, ◌∙◌, ◌==◌,
}
use xray_vps_manager.Base.Assoc.{lookup, insert, lookup-insert_same, lookup-insert_other}
use xray_vps_manager.Xray.Inbounds.{Inbound, managed_connection_inbounds}
use xray_vps_manager.Clients.Access.{Moment, access_expired}
use xray_vps_manager.Clients.Entry.{Entry}
use xray_vps_manager.Clients.Credentials.{credential_key, is_on, normalize_entry_credentials}
use xray_vps_manager.Clients.Credentials.Removed.{found_items}
use xray_vps_manager.Clients.Status.{
  Clients, Loop, ExpireDueResult, disable_each, disabled_entry_for_policy, is_due, due_from,
  marked_expired, expire_each, expire_due_clients, items_in, touched,
}
use xray_vps_manager.Clients.Status.Steps.{
  has_item, items_named, disable_each-none, disable_each-removes, disable_each-keeps,
  disable_each-off, sync_legacy_fields-off, sync_legacy_fields-credentials,
}
use xray_vps_manager.Clients.Status.Due.{
  all_once, found_items-touched, due-ended, due-has_item, due-all_once,
}

-- An entry without access: it and all its credentials are off, with the reason.
abbrev pub is_off : Entry → Bool
is_off entry =
    not (is_on entry.limited.enabled)
    && (get_or entry.limited.disabled_reason "" == "expired"
        && all (λ p. not (is_on (p.1).enabled)) entry.credentials)

abbrev pub entry_is_off : Option Entry → Bool
entry_is_off none = false
entry_is_off (some e) = is_off e

-- The client has a credential for the tag.
abbrev pub has_key_for : (String → String) → String → Entry → Bool
has_key_for lower tag entry =
    any (λ p. credential_key p.0 == tag) (normalize_entry_credentials lower entry).credentials

module _ (lower : String → String) (parse_datetime : String → Option Moment) (midnight : ℕ → String)
    (now : ℕ) (stamp : String) where
  abbrev expire : List String → List Inbound → Clients → ExpireDueResult
  expire = expire_each lower parse_datetime midnight now stamp

  abbrev disabled : List Inbound → String → Entry → Loop × Entry
  disabled = disabled_entry_for_policy lower

  expire-none :
      (name : String) (names : List String) (inbounds : List Inbound) (clients : Clients)
      → lookup clients name ≡ none
      → expire (name ∷ names) inbounds clients ≡ expire names inbounds clients
  unfolding expire_each
  expire-none name names inbounds clients e = rw (expire_each, e)

  expire-some :
      (name : String) (names : List String) (inbounds : List Inbound) (clients : Clients)
      (entry : Entry)
      → lookup clients name ≡ some entry
      → expire (name ∷ names) inbounds clients
        ≡ expire names
            (disabled inbounds name entry).0.inbounds
            (insert clients name (marked_expired stamp (disabled inbounds name entry).1))
  unfolding expire_each
  expire-some name names inbounds clients entry e = rw (expire_each, e)

  disabled-off :
      (inbounds : List Inbound) (name : String) (entry : Entry)
      → is_off (marked_expired stamp (disabled inbounds name entry).1) ≡ true
  unfolding disabled_entry_for_policy
  disabled-off inbounds name entry =
      let loop =
        disable_each name entry.id (normalize_entry_credentials lower entry).credentials inbounds in
      let off =
        disable_each-off name entry.id (normalize_entry_credentials lower entry).credentials
          inbounds in
      let before : Entry = record entry {
        credentials = loop.credentials;
        limited = record (entry.limited) { enabled = some false };
      } in
      rw (sync_legacy_fields-off before refl off, sync_legacy_fields-credentials before) off

  abbrev disabled_inbounds : List Inbound → String → Entry → List Inbound
  disabled_inbounds inbounds name entry = (disabled inbounds name entry).0.inbounds

  abbrev disabled_clients : List Inbound → Clients → String → Entry → Clients
  disabled_clients inbounds clients name entry =
      insert clients name (marked_expired stamp (disabled inbounds name entry).1)

  disabled-none :
      (n t name : String) (inbounds : List Inbound) (entry : Entry)
      → has_item n (found_items inbounds t) ≡ false
      → has_item n (found_items (disabled_inbounds inbounds name entry) t) ≡ false
  unfolding disabled_entry_for_policy
  disabled-none n t name inbounds entry h =
      disable_each-none name entry.id n (normalize_entry_credentials lower entry).credentials
        inbounds t h

  disabled-removes :
      (t name : String) (inbounds : List Inbound) (entry : Entry)
      → has_key_for lower t entry ≡ true
      → has_item name (found_items (disabled_inbounds inbounds name entry) t) ≡ false
  unfolding disabled_entry_for_policy
  disabled-removes t name inbounds entry h = disable_each-removes name entry.id _ inbounds t h

  disabled-keeps :
      (n t name : String) (inbounds : List Inbound) (entry : Entry)
      → (name == n) ≡ false
      → items_named n (found_items (disabled_inbounds inbounds name entry) t)
        ≡ items_named n (found_items inbounds t)
  unfolding disabled_entry_for_policy
  disabled-keeps n t name inbounds entry h =
      disable_each-keeps name entry.id n (normalize_entry_credentials lower entry).credentials
        inbounds t h

  module _ (n t : String) where
    expire-has_none :
        (names : List String) (inbounds : List Inbound) (clients : Clients)
        → has_item n (found_items inbounds t) ≡ false
        → has_item n (found_items (expire names inbounds clients).inbounds t) ≡ false
    unfolding expire_each
    expire-has_none [] inbounds clients h = h
    expire-has_none (name ∷ names) inbounds clients h = elim (Option-cases (lookup clients name)) [
      | inl e ↦
          rw (expire-none name names inbounds clients e) (expire-has_none names inbounds clients h)
      | inr (entry, e) ↦
          rw (expire-some name names inbounds clients entry e)
            (expire-has_none names _ _ (disabled-none n t name inbounds entry h))
    ]

    expire-removes :
        (names : List String) (inbounds : List Inbound) (clients : Clients) (entry : Entry)
        → lookup clients n ≡ some entry
        → has_key_for lower t entry ≡ true
        → contains names n ≡ true
        → has_item n (found_items (expire names inbounds clients).inbounds t) ≡ false
    expire-removes [] inbounds clients entry l k h = absurd (cc)
    expire-removes (name ∷ names) inbounds clients entry l k h = elim (Bool-cases (name == n)) [
      | inl same ↦
          let here : name ≡ n = (eq_iff name n).0 same in
          let there : lookup clients name ≡ some entry = rw here l in
          rw (expire-some name names inbounds clients entry there)
            (expire-has_none names _ _ (rw (← here) (disabled-removes t name inbounds entry k)))
      | inr other ↦ elim (Option-cases (lookup clients name)) [
        | inl e ↦
            rw (expire-none name names inbounds clients e)
              (expire-removes names inbounds clients entry l k (ground arith))
        | inr (entry', e) ↦ rw (expire-some name names inbounds clients entry' e) (
            expire-removes names _ (disabled_clients inbounds clients name entry') entry
              (lookup-insert_other clients name _ n other ∙ l) k (ground arith))
      ]
    ]

    expire-keeps :
        (names : List String) (inbounds : List Inbound) (clients : Clients)
        → contains names n ≡ false
        → (items_named n (found_items (expire names inbounds clients).inbounds t)
            ≡ items_named n (found_items inbounds t))
          × (lookup (expire names inbounds clients).clients n ≡ lookup clients n)
    unfolding expire_each
    expire-keeps [] inbounds clients h = (refl, refl)
    expire-keeps (name ∷ names) inbounds clients h =
        let other : (name == n) ≡ false = ground arith in
        let rest : contains names n ≡ false = ground arith in
        elim (Option-cases (lookup clients name)) [
          | inl e ↦
              rw (expire-none name names inbounds clients e)
                (expire-keeps names inbounds clients rest)
          | inr (entry, e) ↦
              let ih =
                expire-keeps names (disabled_inbounds inbounds name entry)
                  (disabled_clients inbounds clients name entry) rest in
              rw (expire-some name names inbounds clients entry e) (
                ih.0 ∙ disabled-keeps n t name inbounds entry other,
                ih.1 ∙ lookup-insert_other clients name _ n other,
              )
        ]

    expire-off :
        (names : List String) (inbounds : List Inbound) (clients : Clients) (entry : Entry)
        → lookup clients n ≡ some entry
        → contains names n ≡ true
        → all_once names ≡ true
        → entry_is_off (lookup (expire names inbounds clients).clients n) ≡ true
    expire-off [] inbounds clients entry l h o = absurd (cc)
    expire-off (name ∷ names) inbounds clients entry l h o = elim (Bool-cases (name == n)) [
      | inl same ↦
          let here : name ≡ n = (eq_iff name n).0 same in
          let there : lookup clients name ≡ some entry = rw here l in
          let gone : contains names n ≡ false = rw (← here) (ground arith) in
          let set : lookup (disabled_clients inbounds clients name entry) n
              ≡ some (marked_expired stamp (disabled inbounds name entry).1) =
            rw (← here) (lookup-insert_same clients name _) in
          rw (expire-some name names inbounds clients entry there) (
            rw ((expire-keeps names _ (disabled_clients inbounds clients name entry) gone).1, set)
              (disabled-off inbounds name entry))
      | inr other ↦ elim (Option-cases (lookup clients name)) [
        | inl e ↦
            rw (expire-none name names inbounds clients e)
              (expire-off names inbounds clients entry l (ground arith) (ground arith))
        | inr (entry', e) ↦ rw (expire-some name names inbounds clients entry' e) (
            expire-off names _ (disabled_clients inbounds clients name entry') entry
              (lookup-insert_other clients name _ n other ∙ l) (ground arith) (ground arith))
      ]
    ]

  abbrev run : List Inbound → Clients → ExpireDueResult
  run = expire_due_clients lower parse_datetime midnight now stamp

  module _ (inbounds : List Inbound) (clients : Clients) (name : String) {entry : Entry}
      (known : lookup clients name ≡ some entry)
      (over : access_expired parse_datetime midnight entry.access now ≡ true)
      (active : has_item name (items_in (managed_connection_inbounds inbounds)) ≡ true)
      (tag : String) where
    is_named : is_due lower parse_datetime midnight now clients name ≡ true
    is_named = rw known over

    named_due :
        contains
          (due_from lower parse_datetime midnight now clients []
            (items_in (managed_connection_inbounds inbounds)))
          name
        ≡ true
    named_due =
        due-has_item lower parse_datetime midnight now clients []
          (items_in (managed_connection_inbounds inbounds)) name is_named refl
        ∙ active

    -- The access of a client of the database has ended, and it has an item in a managed inbound.
    -- After a run of `expire_due_clients` the inbound of a tag for which the client has a credential
    -- has no item of the client, the client is one of the names in the result, and its entry and all
    -- the credentials in it are off, with the reason `expired`.
    pub expire_due_clients-ends_access :
        (has_key_for lower tag entry
            && has_item name (found_items (run inbounds clients).inbounds tag)
          ≡ false)
        × (contains (run inbounds clients).due_names name ≡ true)
        × (entry_is_off (lookup (run inbounds clients).clients name) ≡ true)
    unfolding expire_due_clients
    expire_due_clients-ends_access = (
      elim (Bool-cases (has_key_for lower tag entry)) [
        | inl k ↦
            rw (k, expire-removes name tag _ (map touched inbounds) clients entry known k named_due)
        | inr k ↦ rw k
      ],
      named_due,
      expire-off name tag _ (map touched inbounds) clients entry known named_due (
          due-all_once lower parse_datetime midnight now clients []
            (items_in (managed_connection_inbounds inbounds))),
    )

  -- A client whose access has not ended, or that is not in the database, keeps its items in the
  -- inbound of each tag and its entry, whoever else loses access, and is not in the result's names.
  pub expire_due_clients-keeps_others :
      (inbounds : List Inbound) (clients : Clients) (name tag : String)
      → is_due lower parse_datetime midnight now clients name ≡ false
      → (items_named name (found_items (run inbounds clients).inbounds tag)
          ≡ items_named name (found_items inbounds tag))
        × (lookup (run inbounds clients).clients name ≡ lookup clients name)
        × (contains (run inbounds clients).due_names name ≡ false)
  unfolding expire_due_clients
  expire_due_clients-keeps_others inbounds clients name tag h =
      let items = items_in (managed_connection_inbounds inbounds) in
      let out = due-ended lower parse_datetime midnight now clients [] items name h in
      let kept = expire-keeps name tag _ (map touched inbounds) clients out in
      (kept.0 ∙ rw (found_items-touched inbounds tag), kept.1, out)
