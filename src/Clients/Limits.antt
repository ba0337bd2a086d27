-- ===== src/Clients/Limits.antt =====
-- xray_vps_manager/clients/limits.py: the traffic limit of a client.
pub mod Status
use xray_vps_manager.Base.{
  ℕ, ◌+◌, ◌-◌, String, Bool, true, false, not, ◌&&◌, ◌||◌, Option, none, some, List, [], ◌∷◌,
  if◌then◌else◌, nat_eq, leb, ltb, contains, get_or, ◌==◌,
}
use xray_vps_manager.Base.Assoc.{lookup}
use xray_vps_manager.Json.{strip}

-- `entry["trafficLimit"]`
pub record Limit : Type 0 where
  pub period : String
  pub bytes : ℕ
  pub set_at : String

-- The fields of a client's entry that limits use; `none` is a missing key.
pub record LimitedEntry : Type 0 where
  pub traffic_limit : Option Limit
  pub exceeded_at : Option String
  pub exceeded_period : Option String
  pub exceeded_bytes : Option ℕ
  pub disabled_reason : Option String
  pub enabled : Option Bool

abbrev aliases : List (String × String)
aliases =
    ("day", "daily")
    ∷ ("daily", "daily")
    ∷ ("d", "daily")
    ∷ ("день", "daily")
    ∷ ("сутки", "daily")
    ∷ ("month", "monthly")
    ∷ ("monthly", "monthly")
    ∷ ("m", "monthly")
    ∷ ("месяц", "monthly")
    ∷ []

abbrev has_reason : LimitedEntry → Bool
has_reason entry = get_or entry.disabled_reason "" == "traffic-limit"

-- The branch of `set_entry_traffic_limit` without a limit.
unfoldable pub without_limit : LimitedEntry → LimitedEntry
without_limit entry = record entry {
  traffic_limit = none;
  exceeded_at = none;
  exceeded_period = none;
  exceeded_bytes = none;
  disabled_reason = if has_reason entry then none else entry.disabled_reason;
}

-- `lower` is Python's `str.lower`.
module _ (lower : String → String) where
  -- `none` is the ValueError.
  unfoldable pub validate_limit_period : String → Option String
  validate_limit_period value = lookup aliases (lower (strip value))

  unfoldable pub set_entry_traffic_limit :
      LimitedEntry → String → Option ℕ → String → Option LimitedEntry
  set_entry_traffic_limit entry period none now = some (without_limit entry)
  set_entry_traffic_limit entry period (some bytes) now = elim (validate_limit_period period) [
    | none ↦ none
    | some p ↦
        let limit : Limit = record { period = p; bytes = bytes; set_at = now } in
        some (record entry { traffic_limit = some limit })
  ]

-- `clear_client_traffic_limit`; the flag is `was_disabled_by_limit`.
unfoldable pub clear_client_traffic_limit : LimitedEntry → LimitedEntry × Bool
clear_client_traffic_limit entry =
    (without_limit entry, not (get_or entry.enabled true) && has_reason entry)

-- `traffic_limit(entry)`: a limit that counts.
unfoldable pub traffic_limit_of : LimitedEntry → Option Limit
traffic_limit_of entry = elim entry.traffic_limit [
  | none ↦ none
  | some l ↦
      if not (contains ("daily" ∷ "monthly" ∷ []) l.period) || leb l.bytes 0 then none else some l
]

-- What `traffic_limit_status` says of the use of a period.
pub record LimitStatus : Type 0 where
  pub period : String
  pub limit_bytes : ℕ
  pub used_bytes : ℕ
  pub remaining_bytes : ℕ
  pub exceeded : Bool

-- `used` is `traffic_limit_usage` of the limit's period.
unfoldable pub traffic_limit_status : (String → ℕ) → LimitedEntry → Option LimitStatus
traffic_limit_status used entry = elim (traffic_limit_of entry) [
  | none ↦ none
  | some l ↦ some (record {
    period = l.period;
    limit_bytes = l.bytes;
    used_bytes = used l.period;
    remaining_bytes = l.bytes - used l.period;
    exceeded = leb l.bytes (used l.period);
  })
]
