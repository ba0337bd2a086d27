-- ===== src/Traffic/Tests.antt =====
-- Runs of the traffic sync and of the repair at small databases.
use xray_vps_manager.Base.{
  if◌then◌else◌, suc, zero, ap, ◌≡◌, refl, ℕ, ◌≤◌, ◌+◌, String, Option, none, some, true, List, [],
  ◌∷◌,
}
use xray_vps_manager.Json.{get, Object, str}
use xray_vps_manager.Traffic.History.{Bucket, History, BucketTime, counts, history_totals}
use xray_vps_manager.Traffic.Period.{period_total, iter_dates, day_total, traffic_day_total}
use xray_vps_manager.Traffic.Period.Once.{
  canonical, within, incoming_of, outgoing_of, period_total-within,
}
use xray_vps_manager.Traffic.Sync.{counter, Db, Run, Credential, sync_credentials}
use xray_vps_manager.Base.Assoc.{lookup}
use xray_vps_manager.Traffic.Entry.{Entry, new_entry}
use xray_vps_manager.Traffic.Repair.{
  client_created_date, retained_history_gap, repair_bucket_time, client_of,
  repair_retained_history_gaps,
}
use xray_vps_manager.Traffic.Repair.Filled.{is_retained, asked_totals, repair-filled}
use xray_vps_manager.Traffic.Sync.Counter.{
  used, restarted, Use, traffic, credential_of, sync_runs, uplinks, readings, sync_runs-exact,
  sync_runs-no_more,
}
use xray_vps_manager.Traffic.Sync.Consistent.{up, balanced, sync_credentials-balanced}

-- No text is a time, and every text is the day 5.
abbrev no_time : String → Option ℕ
no_time s = none

abbrev day_five : String → Option ℕ
day_five s = some 5

abbrev no_bucket : String → Option BucketTime
no_bucket s = none

abbrev noon : BucketTime
noon = record { day = "2026-01-05"; hour = "12" }

abbrev alice : Entry
alice = record (new_entry "alice") {
  incoming = 30;
  last = record { uplink = some 10; downlink = some 0 };
}

abbrev alice_vless : Credential
alice_vless = record { name = "alice"; connection_tag = "vless"; email = "alice" }

abbrev db : Db
db = record { clients = ("alice", alice) ∷ []; credentials = ("alice", ("vless", alice) ∷ []) ∷ [] }

abbrev run_reading : ℕ → Run
run_reading n = record {
  stats = ("user>>>alice>>>traffic>>>uplink", n) ∷ [];
  stamp = "2026-01-05T12:00:00Z";
  time = noon;
  seen = [];
}

-- Five bytes are used, then Xray starts again and three are used.
abbrev runs : List Run
runs = run_reading 15 ∷ run_reading 3 ∷ []

abbrev uses : List Use
uses = used 5 ∷ restarted 3 ∷ []

same_readings : uplinks no_time alice_vless runs ≡ readings 10 uses
unfolding counter lookup
same_readings = refl

known : credential_of db alice_vless ≡ some alice
unfolding lookup
known = refl

sync_runs-no_more_example :
    (e' : Entry) × (credential_of (sync_runs no_time alice_vless db runs) alice_vless ≡ some e')
    × (30 ≤ e'.incoming)
    × (e'.incoming ≤ 30 + traffic uses)
sync_runs-no_more_example =
    sync_runs-no_more no_time alice_vless runs uses db alice 10 known refl same_readings

sync_runs-exact_example :
    (e' : Entry) × (credential_of (sync_runs no_time alice_vless db runs) alice_vless ≡ some e')
    × (e'.incoming ≡ 30 + traffic uses)
sync_runs-exact_example =
    sync_runs-exact no_time alice_vless runs uses db alice 10 known refl same_readings refl

in_step : balanced up db "alice" ≡ true
unfolding lookup
in_step = refl

sync_credentials-balanced_example :
    balanced up (sync_credentials no_time (run_reading 15) db (alice_vless ∷ [])) "alice" ≡ true
sync_credentials-balanced_example =
    sync_credentials-balanced up no_time (run_reading 15) db (alice_vless ∷ []) "alice" in_step

abbrev dates : List (String × Object)
dates = ("alice", ("created", str "2026-01-05T00:00:00Z") ∷ []) ∷ []

entry_known : lookup db.clients "alice" ≡ some alice
unfolding lookup
entry_known = refl

repaired_day :
    counts day_five (some 2) (repair_bucket_time day_five day_five no_bucket 2 alice noon).day
    ≡ true
unfolding repair_bucket_time
repaired_day = refl

repair-filled_example :
    let repair = repair_retained_history_gaps day_five day_five no_bucket 2 db.clients dates noon in
    let client = client_of dates "alice" in
    (entry' : Entry) × (lookup repair.0 "alice" ≡ some entry')
    × (entry'.incoming ≡ 30)
    × (entry'.outgoing ≡ 0)
    × (history_totals day_five entry'.history (some 2)
        ≡ asked_totals day_five day_five no_bucket 2 client alice)
    × ((if is_retained day_five day_five no_bucket 2 client then alice else entry') ≡ alice)
    × (retained_history_gap day_five day_five no_bucket 2 "alice" entry' client ≡ none)
repair-filled_example =
    repair-filled day_five day_five no_bucket 2 db.clients dates noon "alice" alice
      (unfold lookup in refl) entry_known repaired_day

-- The history of the example has a gap, and the client a date that is retained.
alice_asked : asked_totals day_five day_five no_bucket 2 (client_of dates "alice") alice ≡ (30, 0)
unfolding client_created_date history_totals lookup get
alice_asked = refl

-- Days are written in strokes.
strokes : ℕ → String
strokes zero = ""
strokes (suc n) = String.◌∷◌ "|" (strokes n)

stroke_count : String → ℕ
stroke_count String.[] = 0
stroke_count (String.◌∷◌ c s) = suc (stroke_count s)

abbrev read_strokes : String → Option ℕ
read_strokes s = some (stroke_count s)

strokes-count : (n : ℕ) → stroke_count (strokes n) ≡ n
unfolding strokes stroke_count
strokes-count zero = refl
strokes-count (suc n) = ap suc (strokes-count n)

read-strokes : (n : ℕ) → read_strokes (strokes n) ≡ some n
read-strokes n = ap some (strokes-count n)

abbrev bucket : Bucket
bucket = record { incoming = 3; outgoing = 4 }

abbrev three_days : History
three_days =
    ("||", ("12", bucket) ∷ []) ∷ ("|||", ("12", bucket) ∷ []) ∷ ("||||", ("12", bucket) ∷ []) ∷ []

written_days : canonical read_strokes strokes read-strokes three_days ≡ true
unfolding strokes stroke_count
written_days = refl

period_total-within_example : period_total strokes three_days 2 3 ≡ (
  within read_strokes strokes read-strokes
      (incoming_of read_strokes strokes read-strokes)
      2
      2
      three_days,
  within read_strokes strokes read-strokes
      (outgoing_of read_strokes strokes read-strokes)
      2
      2
      three_days,
)
period_total-within_example =
    period_total-within read_strokes strokes read-strokes three_days 2 3 written_days
      (unfold lookup in refl)

two_days : period_total strokes three_days 2 3 ≡ (6, 8)
unfolding period_total iter_dates day_total traffic_day_total lookup strokes
two_days = refl
