-- ===== src/Clients/Limits/Status.antt =====
-- The status of a limit that is set or cleared (clients/limits.py).
use xray_vps_manager.Base.{
  Bool-cases, ℕ, ◌≤◌, ◌≡◌, refl, arith, String, Bool, true, false, none, some, List, [], ◌∷◌,
  nat_eq, leb, get_or, ◌==◌, contains, inl, inr, all, Option-cases, ◌-◌,
}
use xray_vps_manager.Base.Assoc.{lookup}
use xray_vps_manager.Json.{strip}
use xray_vps_manager.Clients.Limits.{
  aliases, LimitedEntry, LimitStatus, without_limit, validate_limit_period, set_entry_traffic_limit,
  clear_client_traffic_limit, traffic_limit_of, traffic_limit_status,
}

lookup-all :
    (p : String → Bool) (d : List (String × String)) (k v : String)
    → all (λ (j, w). p w) d ≡ true
    → lookup d k ≡ some v
    → p v ≡ true
unfolding lookup
lookup-all p [] k v h l = absurd (ground arith)
lookup-all p ((j, w) ∷ d) k v h l = ground (arith, lookup-all p d k v)

validate-known :
    (lower : String → String) (period p : String)
    → validate_limit_period lower period ≡ some p
    → contains ("daily" ∷ "monthly" ∷ []) p ≡ true
unfolding validate_limit_period
validate-known lower period p h =
    lookup-all (contains ("daily" ∷ "monthly" ∷ [])) aliases (lower (strip period)) p refl h

-- After a positive limit is set, the status shows it with the period that the text means; the limit
-- is exceeded if and only if nothing remains.
pub set_entry_traffic_limit-status :
    (lower : String → String) (used : String → ℕ) (entry entry' : LimitedEntry)
    (period now : String) (bytes : ℕ)
    → 1 ≤ bytes
    → set_entry_traffic_limit lower entry period (some bytes) now ≡ some entry'
    → (s : LimitStatus) × (traffic_limit_status used entry' ≡ some s)
      × (validate_limit_period lower period ≡ some s.period)
      × (s.limit_bytes ≡ bytes)
      × (s.exceeded ≡ nat_eq s.remaining_bytes 0)
unfolding set_entry_traffic_limit traffic_limit_status traffic_limit_of
set_entry_traffic_limit-status lower used entry entry' period now bytes positive h =
    elim (Option-cases (validate_limit_period lower period)) [
      | inl e ↦ absurd (ground (arith, e))
      | inr (p, e) ↦
          let status : LimitStatus = record {
            period = p;
            limit_bytes = bytes;
            used_bytes = used p;
            remaining_bytes = bytes - used p;
            exceeded = leb bytes (used p);
          } in
          (status, ground (arith, e, validate-known lower period p e), e, refl, ground arith)
    ]

-- After a limit is cleared there is no status, and the client is not disabled for its limit.
pub clear_client_traffic_limit-status :
    (used : String → ℕ) (entry : LimitedEntry)
    → let (entry', was_disabled) = clear_client_traffic_limit entry in
      (traffic_limit_status used entry' ≡ none)
      × ((get_or entry'.disabled_reason "" == "traffic-limit") ≡ false)
unfolding clear_client_traffic_limit without_limit traffic_limit_status traffic_limit_of
clear_client_traffic_limit-status used entry = (
  refl,
  elim (Bool-cases (get_or entry.disabled_reason "" == "traffic-limit")) [
    | inl e ↦ rw e refl
    | inr e ↦ rw e e
  ],
)
