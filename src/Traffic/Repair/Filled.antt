-- ===== src/Traffic/Repair/Filled.antt =====
-- The repair of the history fills every gap (traffic/consistency.py).
use xray_vps_manager.Base.{
  Bool, if◌then◌else◌, ltb, leb, Bool-cases, eq_iff, ℕ, ◌-◌, ◌≡◌, refl, ◌∙◌, arith, String, true,
  false, Option, none, some, List, [], ◌∷◌, ◌==◌, contains, map, Option-cases, inl, inr,
}
use xray_vps_manager.Traffic.Repair.{
  client_created_date, repair_retained_history_gaps, Gap, retained_history_gap,
  retained_history_gaps, repaired, add_gap, repair_each, repair_one, repair_bucket_time, client_of,
}
use xray_vps_manager.Base.Assoc.{lookup, lookup-insert, distinct_keys}
use xray_vps_manager.Json.{Object}
use xray_vps_manager.Traffic.History.{BucketTime, history_totals, history_totals-add, counts}
use xray_vps_manager.Traffic.Entry.{Entry, Entries}

module _ (parse_day timestamp_day : String → Option ℕ)
    (timestamp_bucket : String → Option BucketTime) (cutoff : ℕ) where
  abbrev fill_gap : BucketTime → Option Gap → Entry → Entry
  fill_gap time none entry = entry
  fill_gap time (some gap) entry =
      repaired parse_day timestamp_day timestamp_bucket cutoff time gap entry

  -- What the repair does to the entry of one name: its gap, if it has one, is filled.
  abbrev repaired_if : BucketTime → Object → String → Entry → Entry
  repaired_if time client name entry =
      fill_gap time
        (retained_history_gap parse_day timestamp_day timestamp_bucket cutoff name entry client)
        entry

  name-gap :
      (name : String) (entry : Entry) (client : Object) (gap : Gap)
      → retained_history_gap parse_day timestamp_day timestamp_bucket cutoff name entry client
        ≡ some gap
      → gap.name ≡ name
  unfolding retained_history_gap
  name-gap name entry client gap h = ground arith

  -- A filled gap is no gap any more.
  repaired-no_gap :
      (time : BucketTime) (client : Object) (name : String) (entry : Entry)
      → counts parse_day
          (some cutoff)
          (repair_bucket_time parse_day timestamp_day timestamp_bucket cutoff entry time).day
        ≡ true
      → retained_history_gap parse_day timestamp_day timestamp_bucket cutoff name
          (repaired_if time client name entry)
          client
        ≡ none
  unfolding retained_history_gap repaired
  repaired-no_gap time client name entry counted =
      let (history_in, history_out) = history_totals parse_day entry.history (some cutoff) in
      ground (
        arith,
        history_totals-add parse_day (some cutoff) entry.history
            (repair_bucket_time parse_day timestamp_day timestamp_bucket cutoff entry time)
            (entry.incoming - history_in) (entry.outgoing - history_out) counted,
      )

  abbrev gaps_of : Entries → List (String × Object) → List Gap
  gaps_of = retained_history_gaps parse_day timestamp_day timestamp_bucket cutoff

  abbrev fill_each : BucketTime → List Gap → Entries → Entries
  fill_each = repair_each parse_day timestamp_day timestamp_bucket cutoff

  abbrev fill_one : BucketTime → Gap → Entries → Entries
  fill_one = repair_one parse_day timestamp_day timestamp_bucket cutoff

  fill_one-other :
      (time : BucketTime) (gap : Gap) (entries : Entries) (name : String)
      → (gap.name == name) ≡ false
      → lookup (fill_one time gap entries) name ≡ lookup entries name
  unfolding repair_one
  fill_one-other time gap entries name h = elim (Option-cases (lookup entries gap.name)) [
    | inl e ↦ rw (e, repair_one) refl
    | inr (entry, e) ↦
        let new = repaired parse_day timestamp_day timestamp_bucket cutoff time gap entry in
        rw (e, repair_one) (lookup-insert entries gap.name new name ∙ rw h refl)
  ]

  fill_each-other :
      (time : BucketTime) (gaps : List Gap) (entries : Entries) (name : String)
      → contains (map (λ g. g.name) gaps) name ≡ false
      → lookup (fill_each time gaps entries) name ≡ lookup entries name
  unfolding repair_each
  fill_each-other time [] entries name h = refl
  fill_each-other time (gap ∷ gaps) entries name h = ground (
    arith,
    fill_one-other time gap entries name,
    fill_each-other time gaps (fill_one time gap entries) name,
  )

  contains-add_gap :
      (gap : Option Gap) (gaps : List Gap) (n name : String)
      → ((g : Gap) → gap ≡ some g → g.name ≡ n)
      → (n == name) ≡ false
      → contains (map (λ g. g.name) gaps) name ≡ false
      → contains (map (λ g. g.name) (add_gap gap gaps)) name ≡ false
  contains-add_gap none gaps n name same other h = h
  contains-add_gap (some g) gaps n name same other h = ground (arith, same g refl)

  gaps_of-other :
      (entries : Entries) (clients : List (String × Object)) (name : String)
      → lookup entries name ≡ none
      → contains (map (λ g. g.name) (gaps_of entries clients)) name ≡ false
  unfolding retained_history_gaps lookup
  gaps_of-other [] clients name h = refl
  gaps_of-other ((n, entry) ∷ entries) clients name h = elim (Bool-cases (n == name)) [
    | inl e ↦ absurd (ground arith)
    | inr e ↦
        contains-add_gap
          (retained_history_gap parse_day timestamp_day timestamp_bucket cutoff n entry
            (client_of clients n))
          (gaps_of entries clients) n name (name-gap n entry (client_of clients n)) e
          (gaps_of-other entries clients name (ground arith))
  ]

  fill_one-name :
      (time : BucketTime) (gap : Gap) (entries : Entries) (entry : Entry)
      → lookup entries gap.name ≡ some entry
      → lookup (fill_one time gap entries) gap.name
        ≡ some (repaired parse_day timestamp_day timestamp_bucket cutoff time gap entry)
  unfolding repair_one
  fill_one-name time gap entries entry e =
      let new = repaired parse_day timestamp_day timestamp_bucket cutoff time gap entry in
      rw (e, repair_one)
        (lookup-insert entries gap.name new gap.name ∙ ground (arith, eq_iff gap.name gap.name))

  fill_each-gap :
      (time : BucketTime) (gap : Option Gap) (name : String) (entry : Entry) (gaps : List Gap)
      (entries : Entries)
      → ((g : Gap) → gap ≡ some g → g.name ≡ name)
      → contains (map (λ g. g.name) gaps) name ≡ false
      → lookup entries name ≡ some entry
      → lookup (fill_each time (add_gap gap gaps) entries) name ≡ some (fill_gap time gap entry)
  unfolding repair_each
  fill_each-gap time none name entry gaps entries same other h =
      fill_each-other time gaps entries name other ∙ h
  fill_each-gap time (some gap) name entry gaps entries same other h = ground (
    arith,
    same gap refl,
    fill_each-other time gaps (fill_one time gap entries) name other,
    fill_one-name time gap entries entry,
  )

  fill_each-tail :
      (time : BucketTime) (gap : Option Gap) (n name : String) (entry result : Entry)
      (gaps : List Gap) (entries : Entries)
      → ((g : Gap) → gap ≡ some g → g.name ≡ n)
      → (n == name) ≡ false
      → ((others : Entries)
          → lookup others name ≡ some entry
          → lookup (fill_each time gaps others) name ≡ some result)
      → lookup entries name ≡ some entry
      → lookup (fill_each time (add_gap gap gaps) entries) name ≡ some result
  unfolding repair_each
  fill_each-tail time none n name entry result gaps entries same other rest h = rest entries h
  fill_each-tail time (some gap) n name entry result gaps entries same other rest h =
      rest (fill_one time gap entries)
        (fill_one-other time gap entries name (ground (arith, same gap refl)) ∙ h)

  -- The loop over the gaps of `listed` fills the gap of one name in `entries`.
  fill_each-name :
      (time : BucketTime) (clients : List (String × Object)) (name : String) (entry : Entry)
      (listed entries : Entries)
      → distinct_keys listed ≡ true
      → lookup listed name ≡ some entry
      → lookup entries name ≡ some entry
      → lookup (fill_each time (gaps_of listed clients) entries) name
        ≡ some (repaired_if time (client_of clients name) name entry)
  unfolding retained_history_gaps lookup
  fill_each-name time clients name entry [] entries d l h = absurd (ground arith)
  fill_each-name time clients name entry ((n, first) ∷ listed) entries d l h =
      elim (Bool-cases (n == name)) [
        | inl same ↦ ground (
          arith,
          eq_iff n name,
          fill_each-gap time
              (retained_history_gap parse_day timestamp_day timestamp_bucket cutoff name entry
                (client_of clients name))
              name entry (gaps_of listed clients) entries
              (name-gap name entry (client_of clients name)),
          gaps_of-other listed clients name,
        )
        | inr other ↦
            fill_each-tail time
              (retained_history_gap parse_day timestamp_day timestamp_bucket cutoff n first
                (client_of clients n))
              n name entry (repaired_if time (client_of clients name) name entry)
              (gaps_of listed clients) entries (name-gap n first (client_of clients n)) other
              (λ others k.
                fill_each-name time clients name entry listed others (ground arith) (ground arith)
                  k)
              h
      ]

  totals-fill_gap :
      (time : BucketTime) (gap : Option Gap) (entry : Entry)
      → ((fill_gap time gap entry).incoming ≡ entry.incoming)
        × ((fill_gap time gap entry).outgoing ≡ entry.outgoing)
  unfolding repaired
  totals-fill_gap time none entry = (refl, refl)
  totals-fill_gap time (some gap) entry = (refl, refl)

  -- The client was created on a day that the history retains, so that it must add up.
  abbrev pub is_retained : Object → Bool
  is_retained client =
      elim (client_created_date parse_day timestamp_day timestamp_bucket cutoff client) [
        | none ↦ false
        | some created ↦ leb cutoff created
      ]

  abbrev pub larger : ℕ → ℕ → ℕ
  larger a b = if ltb a b then b else a

  -- What the history has to add up to: no less than the totals, and no less than before.
  abbrev pub asked_totals : Object → Entry → ℕ × ℕ
  asked_totals client entry =
      let (history_in, history_out) = history_totals parse_day entry.history (some cutoff) in
      if is_retained client
      then (larger entry.incoming history_in, larger entry.outgoing history_out)
      else (history_in, history_out)

  history_totals-repaired_if :
      (time : BucketTime) (client : Object) (name : String) (entry : Entry)
      → counts parse_day
          (some cutoff)
          (repair_bucket_time parse_day timestamp_day timestamp_bucket cutoff entry time).day
        ≡ true
      → history_totals parse_day (repaired_if time client name entry).history (some cutoff)
        ≡ asked_totals client entry
  unfolding retained_history_gap repaired
  history_totals-repaired_if time client name entry counted =
      let (history_in, history_out) = history_totals parse_day entry.history (some cutoff) in
      let added =
        history_totals-add parse_day (some cutoff) entry.history
          (repair_bucket_time parse_day timestamp_day timestamp_bucket cutoff entry time)
          (entry.incoming - history_in) (entry.outgoing - history_out) counted in
      ground (arith, added)

  repaired_if-kept :
      (time : BucketTime) (client : Object) (name : String) (entry : Entry)
      → (if is_retained client then entry else repaired_if time client name entry) ≡ entry
  unfolding retained_history_gap
  repaired_if-kept time client name entry = ground arith

  -- After the repair the entry of a client has its totals. If the client has a date of creation that
  -- is no day before the retained ones, then the incoming bytes of the retained days in its history
  -- add up to the larger one of its total and of what they added up to before, and so do the
  -- outgoing ones, each on its own; otherwise, as where the date is missing, the entry is not
  -- changed. No gap is left that a next run would find. This holds if the bucket of the repair is a
  -- retained day and the names of the entries are distinct, as the keys of a `dict` are.
  pub repair-filled :
      (entries : Entries) (clients : List (String × Object)) (time : BucketTime) (name : String)
      (entry : Entry)
      → distinct_keys entries ≡ true
      → lookup entries name ≡ some entry
      → counts parse_day
          (some cutoff)
          (repair_bucket_time parse_day timestamp_day timestamp_bucket cutoff entry time).day
        ≡ true
      → let repair =
          repair_retained_history_gaps parse_day timestamp_day timestamp_bucket cutoff entries
            clients time in
        let client = client_of clients name in
        (entry' : Entry) × (lookup repair.0 name ≡ some entry')
        × (entry'.incoming ≡ entry.incoming)
        × (entry'.outgoing ≡ entry.outgoing)
        × (history_totals parse_day entry'.history (some cutoff) ≡ asked_totals client entry)
        × ((if is_retained client then entry else entry') ≡ entry)
        × (retained_history_gap parse_day timestamp_day timestamp_bucket cutoff name entry' client
            ≡ none)
  unfolding repair_retained_history_gaps
  repair-filled entries clients time name entry d h counted =
      let client = client_of clients name in
      let (same_in, same_out) =
        totals-fill_gap time
          (retained_history_gap parse_day timestamp_day timestamp_bucket cutoff name entry client)
          entry in
      (
        repaired_if time client name entry,
        fill_each-name time clients name entry entries entries d h h,
        same_in,
        same_out,
        history_totals-repaired_if time client name entry counted,
        repaired_if-kept time client name entry,
        repaired-no_gap time client name entry counted,
      )
