-- ===== src/Traffic/History.antt =====
-- The hourly history of an entry: xray_vps_manager/traffic/consistency.py and history.py.
use xray_vps_manager.Base.{
  ℕ, ◌+◌, ◌≡◌, refl, arith, String, Bool, true, false, not, Option, none, some, List, [], ◌∷◌,
  if◌then◌else◌, get_or, ltb, leb, ◌&&◌, filter, eq_iff,
}
use xray_vps_manager.Base.Assoc.{lookup, insert}

-- The bytes of one hour.
pub record Bucket : Type 0 where
  pub incoming : ℕ
  pub outgoing : ℕ

abbrev pub Hours : Type 0
Hours = List (String × Bucket)

-- Days to hours to buckets.
abbrev pub History : Type 0
History = List (String × Hours)

-- What `strftime` makes of the time of a bucket: `%Y-%m-%d` and `%H`.
pub record BucketTime : Type 0 where
  pub day : String
  pub hour : String

abbrev pub empty_bucket : Bucket
empty_bucket = record { incoming = 0; outgoing = 0 }

abbrev pub add_to_bucket : ℕ → ℕ → Bucket → Bucket
add_to_bucket incoming outgoing b = record {
  incoming = b.incoming + incoming;
  outgoing = b.outgoing + outgoing;
}

-- `add_history_delta` of consistency.py
unfoldable pub add_history_delta : History → BucketTime → ℕ → ℕ → History
add_history_delta history time incoming outgoing =
    let hours = get_or (lookup history time.day) [] in
    let bucket = get_or (lookup hours time.hour) empty_bucket in
    insert history time.day (insert hours time.hour (add_to_bucket incoming outgoing bucket))

-- `add_history_delta` of traffic_sync.py: nothing is added to an hour without traffic.
unfoldable pub add_positive_delta : History → BucketTime → ℕ → ℕ → History
add_positive_delta history time incoming outgoing =
    if leb incoming 0 && leb outgoing 0
    then history
    else add_history_delta history time incoming outgoing

-- A sum over a dictionary.
abbrev pub sum_of {ℓ} : {V : Type ℓ} → (String → V → ℕ) → List (String × V) → ℕ
sum_of f [] = 0
sum_of f ((k, v) ∷ d) = f k v + sum_of f d

abbrev pub measured {ℓ} : {V : Type ℓ} → (String → V → ℕ) → String → Option V → ℕ
measured f k none = 0
measured f k (some v) = f k v

pub sum-insert {ℓ} :
    {V : Type ℓ} (f : String → V → ℕ) (d : List (String × V)) (k : String) (v : V)
    → sum_of f (insert d k v) + measured f k (lookup d k) ≡ sum_of f d + f k v
unfolding insert lookup
sum-insert f [] k v = omega arith
sum-insert f ((j, w) ∷ d) k v = ground (arith, sum-insert f d k v, eq_iff j k)

-- `parse_day` is `date.fromisoformat`, the days numbered; `none` is its ValueError. `cutoff` is
-- `cutoff_date`.
module _ (parse_day : String → Option ℕ) where
  -- Whether the totals count the day.
  abbrev pub counts : Option ℕ → String → Bool
  counts none day = true
  counts (some cutoff) day = elim (parse_day day) [ none ↦ false | some n ↦ not (ltb n cutoff) ]

  abbrev pub incoming_of : String → Bucket → ℕ
  incoming_of hour b = b.incoming

  abbrev pub outgoing_of : String → Bucket → ℕ
  outgoing_of hour b = b.outgoing

  abbrev pub day_sum : (String → Bucket → ℕ) → Option ℕ → String → Hours → ℕ
  day_sum f cutoff day hours = if counts cutoff day then sum_of f hours else 0

  unfoldable pub history_totals : History → Option ℕ → ℕ × ℕ
  history_totals history cutoff =
      (sum_of (day_sum incoming_of cutoff) history, sum_of (day_sum outgoing_of cutoff) history)

  -- The loop over one entry in `prune_history`.
  unfoldable pub prune_entry_history : ℕ → History → History
  prune_entry_history cutoff history = filter (λ (day, hours). counts (some cutoff) day) history

  sum-add :
      (f : String → Bucket → ℕ) (cutoff : Option ℕ) (history : History) (time : BucketTime)
      (incoming outgoing amount : ℕ)
      → counts cutoff time.day ≡ true
      → ((b : Bucket) → f time.hour (add_to_bucket incoming outgoing b) ≡ f time.hour b + amount)
      → f time.hour empty_bucket ≡ 0
      → sum_of (day_sum f cutoff) (add_history_delta history time incoming outgoing)
        ≡ sum_of (day_sum f cutoff) history + amount
  unfolding add_history_delta
  sum-add f cutoff history time incoming outgoing amount counted add zero_bucket =
      let hours = get_or (lookup history time.day) [] in
      let bucket = get_or (lookup hours time.hour) empty_bucket in
      let bucket' = add_to_bucket incoming outgoing bucket in
      let hours' = insert hours time.hour bucket' in
      ground (
        arith,
        sum-insert (day_sum f cutoff) history time.day hours',
        sum-insert f hours time.hour bucket',
        add bucket,
        zero_bucket,
      )

  -- What is added in an hour that the totals count is added to the totals.
  pub history_totals-add :
      (cutoff : Option ℕ) (history : History) (time : BucketTime) (incoming outgoing : ℕ)
      → counts cutoff time.day ≡ true
      → let (before_in, before_out) = history_totals history cutoff in
        history_totals (add_history_delta history time incoming outgoing) cutoff
        ≡ (before_in + incoming, before_out + outgoing)
  unfolding history_totals
  history_totals-add cutoff history time incoming outgoing counted =
      rw
        (
          sum-add incoming_of cutoff history time incoming outgoing incoming counted (λ b. refl)
              refl,
          sum-add outgoing_of cutoff history time incoming outgoing outgoing counted (λ b. refl)
              refl,
        )
        refl

  sum-prune :
      (f : String → Bucket → ℕ) (cutoff : ℕ) (history : History)
      → sum_of (day_sum f (some cutoff)) (prune_entry_history cutoff history)
        ≡ sum_of (day_sum f (some cutoff)) history
  unfolding prune_entry_history
  sum-prune f cutoff [] = refl
  sum-prune f cutoff ((day, hours) ∷ history) = ground (arith, sum-prune f cutoff history)

  -- Pruning drops no hour that the totals count.
  pub history_totals-prune :
      (cutoff : ℕ) (history : History)
      → history_totals (prune_entry_history cutoff history) (some cutoff)
        ≡ history_totals history (some cutoff)
  unfolding history_totals
  history_totals-prune cutoff history =
      rw (sum-prune incoming_of cutoff history, sum-prune outgoing_of cutoff history) refl
