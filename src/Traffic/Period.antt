-- ===== src/Traffic/Period.antt =====
-- The traffic of a day, of a period and of a month: xray_vps_manager/traffic/history.py, and the same
-- sums in clients/limits.py.
pub mod Once
use xray_vps_manager.Base.{
  ℕ, suc, zero, ◌+◌, ◌-◌, String, Bool, true, false, not, Option, none, some, List, [], ◌∷◌,
  if◌then◌else◌, get_or, leb, ltb, ◌&&◌, ◌==◌, nat_eq,
}
use xray_vps_manager.Base.Assoc.{lookup}
use xray_vps_manager.Traffic.History.{History, Hours, sum_of}

-- The first number of days from a day on.
abbrev pub days_from : ℕ → ℕ → List ℕ
days_from start zero = []
days_from start (suc n) = start ∷ days_from (suc start) n

-- `iter_dates`: from `start` to `end`, both included.
unfoldable pub iter_dates : ℕ → ℕ → List ℕ
iter_dates start end = days_from start (suc end - start)

-- `traffic_day_total`, the hours of the day summed up
unfoldable pub traffic_day_total : History → String → ℕ × ℕ
traffic_day_total history day_key =
    let hours = get_or (lookup history day_key) [] in
    (sum_of (λ hour b. b.incoming) hours, sum_of (λ hour b. b.outgoing) hours)

abbrev add_pair : ℕ × ℕ → ℕ × ℕ → ℕ × ℕ
add_pair (a, b) (c, d) = (a + c, b + d)

-- `format_day` is `date.isoformat`, the days numbered.
module _ (format_day : ℕ → String) where
  unfoldable pub day_total : History → ℕ → ℕ × ℕ
  day_total history day = traffic_day_total history (format_day day)

  abbrev pub days_total : History → List ℕ → ℕ × ℕ
  days_total history [] = (0, 0)
  days_total history (day ∷ days) = add_pair (day_total history day) (days_total history days)

  unfoldable pub period_total : History → ℕ → ℕ → ℕ × ℕ
  period_total history start end = days_total history (iter_dates start end)

-- `month_bounds`, from the first and the last day of the month; the month that runs ends today.
unfoldable pub month_bounds : ℕ → ℕ → ℕ → ℕ × ℕ
month_bounds first last today = (first, if leb first today && leb today last then today else last)

-- `traffic_limit_usage` of limits.py; `first` and `last` are the days of the month of today.
unfoldable pub traffic_limit_usage : (ℕ → String) → Bool → ℕ → ℕ → ℕ → History → ℕ
traffic_limit_usage format_day daily first last today history =
    let (start, end) = month_bounds first last today in
    let (day_in, day_out) = day_total format_day history today in
    let (month_in, month_out) = period_total format_day history start end in
    if daily then day_in + day_out else month_in + month_out
