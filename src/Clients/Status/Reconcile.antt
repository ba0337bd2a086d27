-- ===== src/Clients/Status/Reconcile.antt =====
-- xray_vps_manager/clients/status.py: the return of a client, and its status after a change of its
-- access or its limit.
pub mod Agreed
use xray_vps_manager.Base.{
  ℕ, ◌+◌, String, Bool, true, false, not, ◌&&◌, ◌||◌, Option, none, some, List, [], ◌∷◌, any, map,
  if◌then◌else◌, get_or, nat_eq, ◌==◌,
}
use xray_vps_manager.Base.Assoc.{lookup}
use xray_vps_manager.Base.Sort.{sorted_set}
use xray_vps_manager.Clients.Access.{Moment, access_expired}
use xray_vps_manager.Clients.Limits.{LimitStatus, traffic_limit_status}
use xray_vps_manager.Clients.Entry.{Credential, Entry, or_text}
use xray_vps_manager.Clients.Credentials.{
  credential_key, is_on, named, sync_legacy_fields, normalize_entry_credentials,
}
use xray_vps_manager.Clients.Credentials.Active.{upsert_active_credential}
use xray_vps_manager.Clients.Status.{
  Loop, disabled_entry_for_policy, clear_traffic_limit_exceeded_state, clear_disabled_state,
  marked_expired,
}
use xray_vps_manager.Xray.Inbounds.{
  Inbound, migrated, clients_of, find_inbound_by_tag, change_found, default_connection_tag,
}
use xray_vps_manager.Xray.Transport.{◌>>=◌}

-- The time of a run, with the texts that Python makes of it: its date, its month, and the start of
-- the next day.
pub record Now : Type 0 where
  pub instant : ℕ
  pub year : ℕ
  pub month : ℕ
  pub date_text : String
  pub month_text : String
  pub next_day_text : String

unfoldable pub traffic_limit_period_key : String → Now → Option String
traffic_limit_period_key period now =
    if period == "daily"
    then some now.date_text
    else if period == "monthly"
    then some now.month_text
    else none

-- `first_of_month` is the text of the first moment of a month.
unfoldable pub traffic_limit_reset_time : (ℕ → ℕ → String) → String → Now → Option String
traffic_limit_reset_time first_of_month period now =
    if period == "daily"
    then some now.next_day_text
    else if period == "monthly"
    then some (
        first_of_month (now.year + (if nat_eq now.month 12 then 1 else 0))
          (if nat_eq now.month 12 then 1 else now.month + 1))
    else none

pub record Enabled : Type 0 where
  pub inbounds : List Inbound
  pub entry : Entry
  pub changed : Bool

abbrev has_active_item : List Inbound → String → String → Bool
has_active_item inbounds name tag = elim (find_inbound_by_tag inbounds tag) [
  | none ↦ false
  | some inbound ↦ any (named name) (clients_of inbound)
]

-- `credential.get("connection") or entry.get("connection") or default_connection_tag(config)`
abbrev connection_of : List Inbound → Entry → Credential → Option String
connection_of inbounds entry c =
    let tag = or_text (get_or c.connection "") (get_or entry.connection "") in
    if tag == "" then default_connection_tag inbounds else some tag

abbrev marked_changed : Enabled → Enabled
marked_changed r = record r { changed = true }

-- What `reconcile_client_access_status` returns, with the configuration.
pub record Reconciled : Type 0 where
  pub inbounds : List Inbound
  pub entry : Entry
  pub changed : Bool
  pub status : String

-- `lower` is `str.lower`; an exception is `none`.
module _ (lower : String → String) where
  -- The loop over the credentials, by their keys in order.
  unfoldable pub enable_each : String → List String → List Inbound → Entry → Option Enabled
  enable_each name [] inbounds entry =
      some (record { inbounds = inbounds; entry = entry; changed = false })
  enable_each name (key ∷ keys) inbounds entry = elim (lookup entry.credentials key) [
    | none ↦ enable_each name keys inbounds entry
    | some c ↦ connection_of inbounds entry c >>= λ tag.
        (let next = change_found (credential_key tag) migrated inbounds in
          let skipped = enable_each name keys next entry in
          if has_active_item inbounds name (credential_key tag) && is_on c.enabled
          then skipped
          else (upsert_active_credential lower next name entry key c >>= λ r.
              enable_each name keys r.0 r.1 >>= λ e. some (marked_changed e)))
  ]

  unfoldable pub enable_db_client : List Inbound → String → Entry → Option Enabled
  unfolding enable_each
  enable_db_client inbounds name entry =
      let normalized = normalize_entry_credentials lower entry in
      let keys = sorted_set (map (λ p. p.0) normalized.credentials) in
      enable_each name keys inbounds normalized >>= λ r. some (
        if r.changed
        then record r {
          entry =
              sync_legacy_fields
                (record (r.entry) { limited = record (r.entry.limited) { enabled = some true } });
        }
        else r)

  module _ (parse_datetime : String → Option Moment) (midnight : ℕ → String)
      (first_of_month : ℕ → ℕ → String) (used : String → ℕ) (now : Now) (stamp : String) where
    abbrev marked_exceeded : LimitStatus → String → String → Entry → Entry
    marked_exceeded status period_key reset_at entry = record entry {
      access = record (entry.access) { expired_at = none };
      limited = record (entry.limited) {
        disabled_reason = some "traffic-limit";
        exceeded_at = some stamp;
        exceeded_period = some period_key;
        exceeded_bytes = some status.used_bytes;
      };
      disabled_at = some stamp;
      reset_at = some reset_at;
    }

    abbrev exceed : LimitStatus → List Inbound → String → Entry → Option Reconciled
    exceed status inbounds name entry = do
      period_key ← traffic_limit_period_key status.period now
      reset_at ← traffic_limit_reset_time first_of_month status.period now
      some (
          let (loop, disabled) = disabled_entry_for_policy lower inbounds name entry in
          record {
            inbounds = loop.inbounds;
            entry = marked_exceeded status period_key reset_at disabled;
            changed = loop.changed;
            status = "disabled-traffic-limit";
          })

    abbrev expire : List Inbound → String → Entry → Reconciled
    expire inbounds name entry =
        let (loop, disabled) = disabled_entry_for_policy lower inbounds name entry in
        record {
          inbounds = loop.inbounds;
          entry = clear_traffic_limit_exceeded_state (marked_expired stamp disabled);
          changed = loop.changed;
          status = "disabled-expired";
        }

    abbrev enable : List Inbound → String → Entry → Option Reconciled
    enable inbounds name entry = do
      r ← enable_db_client inbounds name entry
      some (record {
        inbounds = r.inbounds;
        entry =
            clear_disabled_state
              (record (r.entry) { limited = record (r.entry.limited) { enabled = some true } });
        changed = r.changed;
        status = "enabled";
      })

    abbrev or_else : List Inbound → String → Entry → Option Reconciled
    or_else inbounds name entry =
        if access_expired parse_datetime midnight entry.access now.instant
        then some (expire inbounds name entry)
        else enable inbounds name entry

    -- `used` is `traffic_limit_usage` of the client.
    unfoldable pub reconcile_client_access_status :
        List Inbound → String → Entry → Option Reconciled
    unfolding enable_db_client
    reconcile_client_access_status inbounds name entry =
        elim (traffic_limit_status used entry.limited) [
          | none ↦ or_else inbounds name entry
          | some status ↦
              if status.exceeded
              then exceed status inbounds name entry
              else or_else inbounds name entry
        ]
