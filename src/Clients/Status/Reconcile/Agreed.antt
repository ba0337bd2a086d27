-- ===== src/Clients/Status/Reconcile/Agreed.antt =====
-- The status of a client agrees with its limit and its access, in config.json and in its entry.
use xray_vps_manager.Base.{
  arith, List, [], ◌∷◌, contains, is_some, eq_iff, ◌-◌, ℕ, String, Bool, true, false, not, ◌&&◌,
  ◌||◌, ◌≡◌, refl, sym, subst, Option, none, some, all, if◌then◌else◌, leb, get_or, Bool-cases,
  Option-cases, inl, inr, ◌==◌,
}
use xray_vps_manager.Clients.Access.{Moment, access_expired}
use xray_vps_manager.Clients.Limits.{Limit, LimitStatus, traffic_limit_of, traffic_limit_status}
use xray_vps_manager.Clients.Entry.{Entry}
use xray_vps_manager.Clients.Credentials.{is_on, normalize_entry_credentials}
use xray_vps_manager.Clients.Credentials.Removed.{found_items}
use xray_vps_manager.Clients.Status.{
  disable_each, disabled_entry_for_policy, clear_traffic_limit_exceeded_state, clear_disabled_state,
}
use xray_vps_manager.Clients.Status.Steps.{
  has_item, disable_each-removes, disable_each-off, sync_legacy_fields-off,
  sync_legacy_fields-credentials,
}
use xray_vps_manager.Clients.Status.Expired.{has_key_for}
use xray_vps_manager.Clients.Status.Reconcile.{
  Now, traffic_limit_period_key, traffic_limit_reset_time, enable_db_client, Reconciled, exceed,
  expire, enable, or_else, reconcile_client_access_status,
}
use xray_vps_manager.Xray.Inbounds.{Inbound}
use xray_vps_manager.Xray.Transport.Lawful.Values.{holds}

abbrev pub all_off : Entry → Bool
all_off entry = all (λ p. not (is_on (p.1).enabled)) entry.credentials

abbrev pub reason_of : String → String
reason_of status =
    if status == "disabled-traffic-limit"
    then "traffic-limit"
    else if status == "disabled-expired"
    then "expired"
    else ""

module _ (lower : String → String) (inbounds : List Inbound) (name : String) (entry : Entry) where
  abbrev disabled : List Inbound × Entry
  disabled = (
    (disabled_entry_for_policy lower inbounds name entry).0.inbounds,
    (disabled_entry_for_policy lower inbounds name entry).1,
  )

  disabled-off : ((disabled.1).limited.enabled ≡ some false) × (all_off (disabled.1) ≡ true)
  unfolding disabled_entry_for_policy
  disabled-off =
      let credentials = (normalize_entry_credentials lower entry).credentials in
      let loop = disable_each name entry.id credentials inbounds in
      let off = disable_each-off name entry.id credentials inbounds in
      let before : Entry = record entry {
        credentials = loop.credentials;
        limited = record (entry.limited) { enabled = some false };
      } in
      (sync_legacy_fields-off before refl off, rw (sync_legacy_fields-credentials before) off)

  disabled-removes :
      (t : String) → (has_key_for lower t entry && has_item name (found_items disabled.0 t)) ≡ false
  unfolding disabled_entry_for_policy
  disabled-removes t = elim (Bool-cases (has_key_for lower t entry)) [
    | inl k ↦ rw (k, disable_each-removes name entry.id _ inbounds t k)
    | inr k ↦ rw k
  ]

  module _ (parse_datetime : String → Option Moment) (midnight : ℕ → String)
      (first_of_month : ℕ → ℕ → String) (used : String → ℕ) (now : Now) (stamp t : String) where
    abbrev is_exceeded : Bool
    is_exceeded = elim (traffic_limit_of entry.limited) [
      | none ↦ false
      | some l ↦ leb l.bytes (used l.period)
    ]

    -- The status that a limit and the end of access ask for.
    abbrev pub expected : String
    expected =
        if is_exceeded
        then "disabled-traffic-limit"
        else if access_expired parse_datetime midnight entry.access now.instant
        then "disabled-expired"
        else "enabled"

    -- What is asked of the result; `none` is an exception.
    abbrev pub Agreed : String → Option Reconciled → Type 0
    Agreed status none = Unit {0}
    Agreed status (some r) =
        (r.status ≡ status)
        × (is_on r.entry.limited.enabled ≡ (status == "enabled"))
        × (get_or r.entry.limited.disabled_reason "" ≡ reason_of status)
        × ((status == "enabled" || all_off r.entry) ≡ true)
        × ((not (status == "enabled")
              && (has_key_for lower t entry && has_item name (found_items r.inbounds t)))
            ≡ false)

    exceed-Agreed :
        (status : LimitStatus)
        → Agreed "disabled-traffic-limit" (
            exceed lower parse_datetime midnight first_of_month used now stamp status inbounds name
              entry)
    exceed-Agreed status = elim (Option-cases (traffic_limit_period_key status.period now)) [
      | inl e ↦ rw e tt
      | inr (key, e) ↦
          rw e (elim (Option-cases (traffic_limit_reset_time first_of_month status.period now)) [
            | inl f ↦ rw f tt
            | inr (reset, f) ↦
                rw f (refl, rw disabled-off.0, refl, disabled-off.1, disabled-removes t)
          ])
    ]

    expire-Agreed : Agreed "disabled-expired" (
        some
          (expire lower parse_datetime midnight first_of_month used now stamp inbounds name entry))
    unfolding clear_traffic_limit_exceeded_state
    expire-Agreed = (refl, rw disabled-off.0, refl, disabled-off.1, disabled-removes t)

    enable-Agreed :
        Agreed "enabled"
          (enable lower parse_datetime midnight first_of_month used now stamp inbounds name entry)
    unfolding clear_disabled_state
    enable-Agreed = elim (Option-cases (enable_db_client lower inbounds name entry)) [
      | inl e ↦ rw e tt
      | inr (r, e) ↦ rw e (refl, refl, refl, refl, refl)
    ]

    or_else-Agreed :
        Agreed
          (if access_expired parse_datetime midnight entry.access now.instant
            then "disabled-expired"
            else "enabled")
          (or_else lower parse_datetime midnight first_of_month used now stamp inbounds name entry)
    or_else-Agreed =
        elim (Bool-cases (access_expired parse_datetime midnight entry.access now.instant)) [
          | inl over ↦ rw over expire-Agreed
          | inr over ↦ rw over enable-Agreed
        ]

    -- The same with the limit set apart.
    abbrev asked : Option Limit → String
    asked limit =
        if elim limit [ none ↦ false | some l ↦ leb l.bytes (used l.period) ]
        then "disabled-traffic-limit"
        else if access_expired parse_datetime midnight entry.access now.instant
        then "disabled-expired"
        else "enabled"

    abbrev status_of : Limit → LimitStatus
    status_of l = record {
      period = l.period;
      limit_bytes = l.bytes;
      used_bytes = used l.period;
      remaining_bytes = l.bytes - used l.period;
      exceeded = leb l.bytes (used l.period);
    }

    abbrev answer : Option Limit → Option Reconciled
    answer none =
        or_else lower parse_datetime midnight first_of_month used now stamp inbounds name entry
    answer (some l) =
        if leb l.bytes (used l.period)
        then exceed lower parse_datetime midnight first_of_month used now stamp (status_of l)
            inbounds name entry
        else or_else lower parse_datetime midnight first_of_month used now stamp inbounds name entry

    answer-Agreed : (limit : Option Limit) → Agreed (asked limit) (answer limit)
    answer-Agreed none = or_else-Agreed
    answer-Agreed (some l) = elim (Bool-cases (leb l.bytes (used l.period))) [
      | inl x ↦ rw x (exceed-Agreed (status_of l))
      | inr x ↦ rw x or_else-Agreed
    ]

    abbrev by_status : Option LimitStatus → Option Reconciled
    by_status o = elim o [
      | none ↦
          or_else lower parse_datetime midnight first_of_month used now stamp inbounds name entry
      | some status ↦
          if status.exceeded
          then exceed lower parse_datetime midnight first_of_month used now stamp status inbounds
              name entry
          else or_else lower parse_datetime midnight first_of_month used now stamp inbounds name
              entry
    ]

    by_status-answer :
        (limit : Option Limit)
        → by_status (elim limit [ none ↦ none | some l ↦ some (status_of l) ]) ≡ answer limit
    by_status-answer none = refl
    by_status-answer (some l) = refl

    reconcile-answer :
        reconcile_client_access_status lower parse_datetime midnight first_of_month used now stamp
          inbounds name entry
        ≡ answer (traffic_limit_of entry.limited)
    unfolding reconcile_client_access_status traffic_limit_status
    reconcile-answer = by_status-answer (traffic_limit_of entry.limited)

    reconcile-Agreed : Agreed expected (
        reconcile_client_access_status lower parse_datetime midnight first_of_month used now stamp
          inbounds name entry)
    reconcile-Agreed =
        subst (Agreed expected) (sym reconcile-answer)
          (answer-Agreed (traffic_limit_of entry.limited))

    abbrev known_period : Limit → Bool
    known_period l = contains ("daily" ∷ "monthly" ∷ []) l.period

    limit-known : holds known_period (traffic_limit_of entry.limited) ≡ true
    unfolding traffic_limit_of
    limit-known = elim (Option-cases entry.limited.traffic_limit) [
      | inl n ↦ rw n
      | inr (m, n) ↦ rw n (elim (Bool-cases (not (known_period m) || leb m.bytes 0)) [
        | inl h ↦ rw h
        | inr h ↦ rw h (ground arith)
      ])
    ]

    exceed-is_some :
        (status : LimitStatus)
        → contains ("daily" ∷ "monthly" ∷ []) status.period ≡ true
        → is_some (
            exceed lower parse_datetime midnight first_of_month used now stamp status inbounds name
              entry)
          ≡ true
    unfolding traffic_limit_period_key traffic_limit_reset_time
    exceed-is_some status h = elim (Bool-cases (status.period == "daily")) [
      | inl d ↦ rw d
      | inr d ↦
          let m : (status.period == "monthly") ≡ true = ground (
            arith,
            eq_iff status.period "daily",
            eq_iff "daily" status.period,
            eq_iff status.period "monthly",
            eq_iff "monthly" status.period,
          ) in
          rw (d, m)
    ]

    abbrev returns : Option Limit → Bool
    returns limit = asked limit == "enabled" || is_some (answer limit)

    answer-returns : (limit : Option Limit) → holds known_period limit ≡ true → returns limit ≡ true
    answer-returns none h =
        elim (Bool-cases (access_expired parse_datetime midnight entry.access now.instant)) [
          | inl over ↦ rw over
          | inr over ↦ rw over
        ]
    answer-returns (some l) h = elim (Bool-cases (leb l.bytes (used l.period))) [
      | inl x ↦ rw x (exceed-is_some (status_of l) h)
      | inr x ↦
          rw x
            (elim (Bool-cases (access_expired parse_datetime midnight entry.access now.instant)) [
              | inl over ↦ rw over
              | inr over ↦ rw over
            ])
    ]

    -- An exception is raised only where the client is to return. Else, and there too where none is
    -- raised, the status that `reconcile_client_access_status` gives is the one that the use of the
    -- limit asks for, or else the end of the access. The entry is on just where the status is
    -- `enabled`, and has the reason of the status. Otherwise all its credentials are off, and the
    -- inbound of a tag for which the client had a credential has no item of the client.
    pub reconcile_client_access_status-agrees :
        ((expected == "enabled"
            || is_some (
                reconcile_client_access_status lower parse_datetime midnight first_of_month used now
                  stamp inbounds name entry))
          ≡ true)
        × Agreed expected (
            reconcile_client_access_status lower parse_datetime midnight first_of_month used now
              stamp inbounds name entry)
    reconcile_client_access_status-agrees = (
      rw reconcile-answer (answer-returns (traffic_limit_of entry.limited) limit-known),
      reconcile-Agreed,
    )
