-- ===== src/Clients/Access/Extended.antt =====
-- An extension of the access period (clients/access.py).
use xray_vps_manager.Base.{
  sym, refl, ◌∙◌, ℕ, suc, ◌+◌, ◌≤◌, ◌<◌, ◌≡◌, arith, String, false, Option, some, leb, ◌==◌,
  Option-cases, inl, inr,
}
use xray_vps_manager.Clients.Access.{
  Access, Moment, deadline, base_date, extended_expires_at, extend_entry_expiry, access_expired,
}

-- `day_start` is the instant of a day's midnight. A moment is before the midnight after its day, and
-- the midnights are in the order of the days.
module _ (parse_datetime : String → Option Moment) (midnight : ℕ → String) (day_start : ℕ → ℕ)
    (written : (d : ℕ)
      → parse_datetime (midnight d) ≡ some (record { instant = day_start d; date = d }))
    (filled : (d : ℕ) → (midnight d == "") ≡ false)
    (ordered : (d e : ℕ) → d ≤ e → day_start d ≤ day_start e)
    (within_day : (text : String) (m : Moment)
      → parse_datetime text ≡ some m
      → m.instant < day_start (suc m.date)) where
  deadline-extended :
      (entry entry' : Access) (today n : ℕ)
      → extend_entry_expiry parse_datetime midnight today entry n ≡ some entry'
      → deadline parse_datetime midnight entry'
        ≡ some (record {
          instant = day_start (base_date parse_datetime midnight today entry + n);
          date = base_date parse_datetime midnight today entry + n;
        })
  unfolding extend_entry_expiry extended_expires_at
  deadline-extended entry entry' today n h =
      let d = base_date parse_datetime midnight today entry + n in
      ground (arith, written d, filled d)

  -- An extension gives access until the midnight of the day that it counts, from today or from the
  -- day of the old deadline, whichever is later.
  pub extend_entry_expiry-until :
      (entry entry' : Access) (today n now : ℕ)
      → extend_entry_expiry parse_datetime midnight today entry n ≡ some entry'
      → access_expired parse_datetime midnight entry' now
        ≡ leb (day_start (base_date parse_datetime midnight today entry + n)) now
  unfolding access_expired
  extend_entry_expiry-until entry entry' today n now h =
      rw (deadline-extended entry entry' today n h, access_expired) refl

  deadline-within :
      (entry : Access) (m : Moment)
      → deadline parse_datetime midnight entry ≡ some m
      → m.instant < day_start (suc m.date)
  deadline-within entry m h = elim (Option-cases entry.expires_at) [
    | inl e ↦ absurd (ground (arith, e))
    | inr (text, e) ↦ within_day text m (ground (arith, e))
  ]

  expired-deadline :
      (entry : Access) (m : Moment) (now : ℕ)
      → deadline parse_datetime midnight entry ≡ some m
      → access_expired parse_datetime midnight entry now ≡ leb m.instant now
  unfolding access_expired
  expired-deadline entry m now h = rw (h, access_expired) refl

  extended-positive :
      (entry entry' : Access) (today n : ℕ) (m : Moment)
      → extend_entry_expiry parse_datetime midnight today entry n ≡ some entry'
      → deadline parse_datetime midnight entry ≡ some m
      → (1 ≤ n) × (m.date ≤ base_date parse_datetime midnight today entry)
  unfolding extend_entry_expiry
  extended-positive entry entry' today n m h k = (ground arith, rw (k, base_date) (ground arith))

  -- An extension of a limited period never takes access away.
  pub extend_entry_expiry-keeps :
      (entry entry' : Access) (today n now : ℕ) (m : Moment)
      → extend_entry_expiry parse_datetime midnight today entry n ≡ some entry'
      → deadline parse_datetime midnight entry ≡ some m
      → access_expired parse_datetime midnight entry now ≡ false
      → access_expired parse_datetime midnight entry' now ≡ false
  unfolding access_expired
  extend_entry_expiry-keeps entry entry' today n now m h k l =
      let base = base_date parse_datetime midnight today entry in
      let (positive, later_day) = extended-positive entry entry' today n m h k in
      let before : leb m.instant now ≡ false = sym (expired-deadline entry m now k) ∙ l in
      extend_entry_expiry-until entry entry' today n now h
      ∙ ground (
        arith,
        before,
        deadline-within entry m k,
        ordered (suc m.date) (base + n) (omega (arith, positive, later_day)),
      )
