-- ===== src/Clients/Tests.antt =====
-- Emails and access periods at small values.
mod Ended
mod Active
mod Reconciled
use xray_vps_manager.Base.{
  true, nat_eq, get_or, eq_iff, ◌≡◌, refl, ap, arith, ℕ, suc, zero, ◌≤◌, ◌<◌, ◌*◌, String, Option,
  none, some, false, ◌==◌, Bool-cases, inl, inr,
}
use xray_vps_manager.Clients.Access.{
  refused, extended_expires_at, Access, Moment, days, parse_access_days, parse_extend_days,
  extend_entry_expiry, access_expired,
}
use xray_vps_manager.Base.Assoc.{lookup}
use xray_vps_manager.Clients.Limits.{
  LimitedEntry, LimitStatus, set_entry_traffic_limit, clear_client_traffic_limit,
  validate_limit_period, traffic_limit_status,
}
use xray_vps_manager.Clients.Limits.Status.{
  set_entry_traffic_limit-status, clear_client_traffic_limit-status,
}
use xray_vps_manager.Base.Prefix.{head_code}
use xray_vps_manager.Json.{strip, lstrip}
use xray_vps_manager.Clients.Email.{split_email, email_for_client}
use xray_vps_manager.Clients.Email.RoundTrip.{split_email-email_for_client}
use xray_vps_manager.Clients.Access.Extended.{extend_entry_expiry-keeps}
use xray_vps_manager.Clients.Access.Bounds.{in_bounds, read_alike, parse_days-bounds}

split_email-email_for_client_example :
    split_email (email_for_client "alice" "2026-01-05T12:00:00Z" "vless-reality")
    ≡ ("alice", "2026-01-05T12:00:00Z")
split_email-email_for_client_example =
    split_email-email_for_client "alice" "2026-01-05T12:00:00Z" "vless-reality" refl refl refl

written_email : email_for_client "alice" "2026" "vless" ≡ "alice|created=2026|connection=vless"
unfolding email_for_client
written_email = refl

abbrev lower : String → String
lower s = s

thirty : parse_access_days lower " 30 " ≡ days 30
unfolding parse_access_days strip
thirty = refl

thirty_more : parse_extend_days lower " 30 " ≡ days 30
unfolding parse_extend_days strip lstrip
thirty_more = refl

parse_days-bounds_example :
    (in_bounds (parse_access_days lower " 30 ") ≡ true)
    × (in_bounds (parse_extend_days lower " 30 ") ≡ true)
    × (read_alike (parse_access_days lower " 30 ") (parse_extend_days lower " 30 ") ≡ true)
parse_days-bounds_example = parse_days-bounds lower " 30 "

-- What a parser alone accepts or refuses.
none_more : parse_extend_days lower "0" ≡ refused
unfolding parse_extend_days strip lstrip
none_more = refl

signed_more : parse_extend_days lower "+30" ≡ days 30
unfolding parse_extend_days strip lstrip
signed_more = refl

-- A midnight is written as one stroke and one more for each day; a day has ten instants.
strokes : ℕ → String
strokes zero = ""
strokes (suc n) = String.◌∷◌ "|" (strokes n)

stroke_count : String → ℕ
stroke_count String.[] = 0
stroke_count (String.◌∷◌ c s) = suc (stroke_count s)

abbrev midnight : ℕ → String
midnight d = String.◌∷◌ "|" (strokes d)

abbrev day_start : ℕ → ℕ
day_start d = d * 10

abbrev parse_datetime : String → Option Moment
parse_datetime String.[] = none
parse_datetime (String.◌∷◌ c s) =
    some (record { instant = day_start (stroke_count s); date = stroke_count s })

strokes-count : (n : ℕ) → stroke_count (strokes n) ≡ n
unfolding strokes stroke_count
strokes-count zero = refl
strokes-count (suc n) = ap suc (strokes-count n)

written : (d : ℕ) → parse_datetime (midnight d) ≡ some (record { instant = day_start d; date = d })
written d = rw (strokes-count d) refl

filled : (d : ℕ) → (midnight d == "") ≡ false
filled d = elim (Bool-cases (midnight d == "")) [
  | inl e ↦
      let code : head_code (midnight d) ≡ 0 = ap head_code ((eq_iff (midnight d) "").0 e) in
      absurd (omega (arith, code))
  | inr e ↦ e
]

ordered : (d e : ℕ) → d ≤ e → day_start d ≤ day_start e
ordered d e h = omega arith

within_day :
    (text : String) (m : Moment) → parse_datetime text ≡ some m → m.instant < day_start (suc m.date)
within_day String.[] m h = absurd (ground arith)
within_day (String.◌∷◌ c s) m h = ground arith

abbrev until_three : Access
until_three = record { expires_at = some "||||"; access_days = some 3; expired_at = none }

-- On day 1 five days are added to a period that ends on day 3.
abbrev until_eight : Access
until_eight = record { expires_at = some "|||||||||"; access_days = some 8; expired_at = none }

extended : extend_entry_expiry parse_datetime midnight 1 until_three 5 ≡ some until_eight
unfolding extend_entry_expiry extended_expires_at strokes stroke_count
extended = refl

open_on_two : access_expired parse_datetime midnight until_three 25 ≡ false
unfolding access_expired stroke_count
open_on_two = refl

extend_entry_expiry-keeps_example : access_expired parse_datetime midnight until_eight 25 ≡ false
extend_entry_expiry-keeps_example =
    extend_entry_expiry-keeps parse_datetime midnight day_start written filled ordered within_day
      until_three until_eight 1 5 25
      (record { instant = day_start (stroke_count "|||"); date = stroke_count "|||" }) extended refl
      open_on_two

-- A limit of a thousand bytes a day is set, and cleared for a client that it has disabled.
abbrev unlimited_entry : LimitedEntry
unlimited_entry = record {
  traffic_limit = none;
  exceeded_at = none;
  exceeded_period = none;
  exceeded_bytes = none;
  disabled_reason = some "traffic-limit";
  enabled = some false;
}

abbrev limited_entry : LimitedEntry
limited_entry = record unlimited_entry {
  traffic_limit = some (record { period = "daily"; bytes = 1000; set_at = "2026-01-05" });
}

limit_set :
    set_entry_traffic_limit lower unlimited_entry "day" (some 1000) "2026-01-05"
    ≡ some limited_entry
unfolding set_entry_traffic_limit validate_limit_period strip lookup
limit_set = refl

abbrev used_all : String → ℕ
used_all period = 1200

set_entry_traffic_limit-status_example :
    (s : LimitStatus) × (traffic_limit_status used_all limited_entry ≡ some s)
    × (validate_limit_period lower "day" ≡ some s.period)
    × (s.limit_bytes ≡ 1000)
    × (s.exceeded ≡ nat_eq s.remaining_bytes 0)
set_entry_traffic_limit-status_example =
    set_entry_traffic_limit-status lower used_all unlimited_entry limited_entry "day" "2026-01-05"
      1000 (omega arith) limit_set

clear_client_traffic_limit-status_example :
    (traffic_limit_status used_all (clear_client_traffic_limit limited_entry).0 ≡ none)
    × ((get_or (clear_client_traffic_limit limited_entry).0.disabled_reason "" == "traffic-limit")
        ≡ false)
clear_client_traffic_limit-status_example = clear_client_traffic_limit-status used_all limited_entry
