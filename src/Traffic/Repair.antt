-- ===== src/Traffic/Repair.antt =====
-- xray_vps_manager/traffic/consistency.py: the repair of a history that sums up to less than the
-- totals.
pub mod Filled
use xray_vps_manager.Base.{
  ℕ, ◌-◌, ◌≡◌, arith, String, true, Option, none, some, List, [], ◌∷◌, if◌then◌else◌, get_or, ltb,
  leb, ◌&&◌, ◌==◌,
}
use xray_vps_manager.Base.Assoc.{lookup, insert}
use xray_vps_manager.Json.{Object, get, text_or_empty}
use xray_vps_manager.Traffic.History.{
  BucketTime, add_history_delta, history_totals, history_totals-add, counts,
}
use xray_vps_manager.Traffic.Entry.{Entry, Entries}

-- `RetainedHistoryGap`
pub record Gap : Type 0 where
  pub name : String
  pub missing_incoming : ℕ
  pub missing_outgoing : ℕ
  pub total_incoming : ℕ
  pub total_outgoing : ℕ
  pub history_incoming : ℕ
  pub history_outgoing : ℕ

abbrev pub or_else : String → String → String
or_else a b = if a == "" then b else a

-- `if gap: gaps.append(gap)`
abbrev pub add_gap : Option Gap → List Gap → List Gap
add_gap none gaps = gaps
add_gap (some gap) gaps = gap ∷ gaps

abbrev pub client_of : List (String × Object) → String → Object
client_of clients name = get_or (lookup clients name) []

-- `parse_day` is `date.fromisoformat`, `timestamp_day` and `timestamp_bucket` are the day and, in
-- the zone of the manager, the bucket of the time that `datetime.fromisoformat` reads.
module _ (parse_day timestamp_day : String → Option ℕ)
    (timestamp_bucket : String → Option BucketTime) (cutoff : ℕ) where
  unfoldable pub client_created_date : Object → Option ℕ
  client_created_date client =
      let created =
        or_else (text_or_empty (get client "created")) (text_or_empty (get client "created_at")) in
      if created == "" then none else timestamp_day created

  unfoldable pub retained_history_gap : String → Entry → Object → Option Gap
  retained_history_gap name entry client =
      let (history_in, history_out) = history_totals parse_day entry.history (some cutoff) in
      let missing_in = entry.incoming - history_in in
      let missing_out = entry.outgoing - history_out in
      let gap : Gap = record {
        name = name;
        missing_incoming = missing_in;
        missing_outgoing = missing_out;
        total_incoming = entry.incoming;
        total_outgoing = entry.outgoing;
        history_incoming = history_in;
        history_outgoing = history_out;
      } in
      elim (client_created_date client) [
        | none ↦ none
        | some created ↦
            if ltb created cutoff
            then none
            else if leb missing_in 0 && leb missing_out 0
            then none
            else some gap
      ]

  unfoldable pub retained_history_gaps : Entries → List (String × Object) → List Gap
  retained_history_gaps [] clients = []
  retained_history_gaps ((name, entry) ∷ entries) clients =
      add_gap (retained_history_gap name entry (client_of clients name))
        (retained_history_gaps entries clients)

  unfoldable pub repair_bucket_time : Entry → BucketTime → BucketTime
  repair_bucket_time entry time =
      let stamp = or_else entry.updated (or_else entry.last_online entry.last_accepted) in
      if stamp == "" then time else get_or (timestamp_bucket stamp) time

  unfoldable pub repaired : BucketTime → Gap → Entry → Entry
  repaired time gap entry = record entry {
    history =
        add_history_delta entry.history (repair_bucket_time entry time) gap.missing_incoming
          gap.missing_outgoing;
  }

  -- One turn of the loop over the gaps; an entry that is missing is an empty one that nothing keeps.
  unfoldable pub repair_one : BucketTime → Gap → Entries → Entries
  repair_one time gap entries = elim (lookup entries gap.name) [
    | none ↦ entries
    | some entry ↦ insert entries gap.name (repaired time gap entry)
  ]

  unfoldable pub repair_each : BucketTime → List Gap → Entries → Entries
  repair_each time [] entries = entries
  repair_each time (gap ∷ gaps) entries = repair_each time gaps (repair_one time gap entries)

  unfoldable pub repair_retained_history_gaps :
      Entries → List (String × Object) → BucketTime → Entries × List Gap
  repair_retained_history_gaps entries clients time =
      let gaps = retained_history_gaps entries clients in (repair_each time gaps entries, gaps)
