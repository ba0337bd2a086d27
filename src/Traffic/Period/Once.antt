-- ===== src/Traffic/Period/Once.antt =====
-- A period counts each bucket of its days once (traffic/history.py).
use xray_vps_manager.Base.{
  List, ℕ, suc, ◌+◌, ◌≡◌, refl, arith, String, Bool, true, false, Option, none, some, [], ◌∷◌,
  if◌then◌else◌, get_or, leb, ltb, ◌&&◌, ◌==◌, eq_iff, Option-cases, inl, inr, sym, zero, ◌-◌,
}
use xray_vps_manager.Base.Assoc.{lookup, distinct_keys}
use xray_vps_manager.Traffic.Period.{
  days_from, iter_dates, traffic_day_total, day_total, days_total, period_total,
}
use xray_vps_manager.Traffic.History.{History, Bucket, sum_of}

-- `parse_day` is `date.fromisoformat` and reads back what `format_day` writes; the keys of a history
-- are what it writes.
module _ (parse_day : String → Option ℕ) (format_day : ℕ → String)
    (parse-format : (n : ℕ) → parse_day (format_day n) ≡ some n) where
  abbrev pub is_written : String → Bool
  is_written k = elim (parse_day k) [ none ↦ false | some n ↦ format_day n == k ]

  abbrev pub canonical : History → Bool
  canonical [] = true
  canonical ((k, hours) ∷ history) = is_written k && canonical history

  -- Whether the day is among `n` days from `start` on.
  abbrev pub falls_in : ℕ → ℕ → String → Bool
  falls_in start n k = elim (parse_day k) [
    | none ↦ false
    | some d ↦ leb start d && ltb d (start + n)
  ]

  falls_in-one :
      (k : String) (day : ℕ) → is_written k ≡ true → falls_in day 1 k ≡ (k == format_day day)
  falls_in-one k day h = elim (Option-cases (parse_day k)) [
    | inl e ↦ absurd (ground (arith, e))
    | inr (n, e) ↦ ground (
      arith,
      e,
      parse-format day,
      parse-format n,
      eq_iff (format_day n) k,
      eq_iff k (format_day day),
    )
  ]

  module _ (f : String → Bucket → ℕ) where
    abbrev pub within : ℕ → ℕ → History → ℕ
    within start n history =
        sum_of (λ k hours. if falls_in start n k then sum_of f hours else 0) history

    abbrev day_sum : History → ℕ → ℕ
    day_sum history day = sum_of f (get_or (lookup history (format_day day)) [])

    within-absent :
        (history : History) (day : ℕ)
        → canonical history ≡ true
        → lookup history (format_day day) ≡ none
        → within day 1 history ≡ 0
    unfolding lookup
    within-absent [] day c h = refl
    within-absent ((k, hours) ∷ history) day c h =
        ground (arith, within-absent history day, falls_in-one k day)

    within-day :
        (history : History) (day : ℕ)
        → canonical history ≡ true
        → distinct_keys history ≡ true
        → within day 1 history ≡ day_sum history day
    unfolding lookup
    within-day [] day c h = refl
    within-day ((k, hours) ∷ history) day c h = ground (
      arith,
      within-day history day,
      within-absent history day,
      falls_in-one k day,
      eq_iff k (format_day day),
    )

    within-split :
        (history : History) (start n : ℕ)
        → within start (suc n) history ≡ within start 1 history + within (suc start) n history
    within-split [] start n = refl
    within-split ((k, hours) ∷ history) start n = ground (arith, within-split history start n)

    within-nothing : (history : History) (start : ℕ) → within start 0 history ≡ 0
    within-nothing [] start = refl
    within-nothing ((k, hours) ∷ history) start = ground (arith, within-nothing history start)

    abbrev days_sum : History → List ℕ → ℕ
    days_sum history [] = 0
    days_sum history (day ∷ days) = day_sum history day + days_sum history days

    days_sum-within :
        (history : History) (start n : ℕ)
        → canonical history ≡ true
        → distinct_keys history ≡ true
        → days_sum history (days_from start n) ≡ within start n history
    days_sum-within history start zero c d = sym (within-nothing history start)
    days_sum-within history start (suc n) c d = omega (
      arith,
      days_sum-within history (suc start) n c d,
      within-day history start c d,
      within-split history start n,
    )

  abbrev pub incoming_of : String → Bucket → ℕ
  incoming_of hour b = b.incoming

  abbrev pub outgoing_of : String → Bucket → ℕ
  outgoing_of hour b = b.outgoing

  days_total-sums :
      (history : History) (days : List ℕ)
      → days_total format_day history days
        ≡ (days_sum incoming_of history days, days_sum outgoing_of history days)
  unfolding day_total traffic_day_total
  days_total-sums history [] = refl
  days_total-sums history (day ∷ days) = rw (days_total-sums history days) refl

  -- The total of a period is the sum over the history of the buckets of its days, each once, for a
  -- history with distinct keys that are written dates. `parse_day` is the reader of dates, which
  -- reads back what is written.
  pub period_total-within :
      (history : History) (start end : ℕ)
      → canonical history ≡ true
      → distinct_keys history ≡ true
      → let n = suc end - start in
        period_total format_day history start end
        ≡ (within incoming_of start n history, within outgoing_of start n history)
  unfolding period_total iter_dates
  period_total-within history start end c d =
      let n = suc end - start in
      rw
        (
          days_total-sums history (days_from start n),
          days_sum-within incoming_of history start n c d,
          days_sum-within outgoing_of history start n c d,
        )
        refl
