-- ===== src/Clients/Access.antt =====
-- xray_vps_manager/clients/access.py: the period for which a client has access.
pub mod Extended
pub mod Bounds
use Prim.Native.Char.{Char, code}
use xray_vps_manager.Base.{
  ℕ, suc, ◌+◌, ◌-◌, ◌*◌, String, Bool, true, false, not, ◌&&◌, ◌||◌, Option, none, some, List, [],
  ◌∷◌, if◌then◌else◌, nat_eq, leb, ltb, contains, get_or, ◌==◌,
}
use xray_vps_manager.Json.{strip, lstrip}

-- The fields of a client's entry that say how long it has access.
pub record Access : Type 0 where
  pub expires_at : Option String
  pub access_days : Option ℕ
  pub expired_at : Option String

-- An instant, and the number of its day in the manager's time zone.
pub record Moment : Type 0 where
  pub instant : ℕ
  pub date : ℕ

-- What the parsers of days answer.
pub data Days : Type 0 where
  unlimited refused : Days
  days : ℕ → Days

abbrev pub is_digit : Char → Bool
is_digit c = leb b'0' (code c) && leb (code c) b'9'

unfoldable pub all_digits : String → Bool
all_digits String.[] = true
all_digits (String.◌∷◌ c s) = is_digit c && all_digits s

-- `int(text, 10)` of digits; the first argument is the number read so far.
unfoldable pub decimal : ℕ → String → ℕ
decimal n String.[] = n
decimal n (String.◌∷◌ c s) = decimal (n * 10 + (code c - b'0')) s

abbrev pub unlimited_words : List String
unlimited_words =
    "" ∷ "0" ∷ "none" ∷ "never" ∷ "no" ∷ "unlimited" ∷ "forever" ∷ "бессрочно" ∷ "без срока" ∷ []

abbrev pub is_plus : Char → Bool
is_plus c = nat_eq (code c) b'+'

abbrev pub is_number : String → Bool
is_number raw = not (raw == "") && all_digits raw

-- `lower` is Python's `str.lower`.
module _ (lower : String → String) where
  unfoldable pub parse_access_days : String → Days
  unfolding all_digits decimal
  parse_access_days value =
      let raw = lower (strip value) in
      let n = decimal 0 raw in
      if contains unlimited_words raw
      then unlimited
      else if not (is_number raw)
      then refused
      else if ltb n 1
      then unlimited
      else if ltb 36500 n
      then refused
      else days n

  unfoldable pub parse_extend_days : String → Days
  unfolding all_digits decimal
  parse_extend_days value =
      let raw = lstrip is_plus (lower (strip value)) in
      let n = decimal 0 raw in
      if not (is_number raw)
      then refused
      else if ltb n 1
      then refused
      else if ltb 36500 n
      then refused
      else days n

-- `parse_datetime` reads a moment off a text (`datetime.fromisoformat`); `midnight` writes the start
-- of a day in the manager's zone (`datetime.combine(day, time.min).isoformat`).
module _ (parse_datetime : String → Option Moment) (midnight : ℕ → String) where
  -- `expires_at_from_days`, from today; the empty text is unlimited access.
  unfoldable pub expires_at_from_days : ℕ → Option ℕ → Option String
  expires_at_from_days today none = none
  expires_at_from_days today (some n) = some (midnight (today + n))

  unfoldable pub set_entry_expiry : ℕ → Option ℕ → Access → Access
  set_entry_expiry today n entry = elim (expires_at_from_days today n) [
    | some text ↦ record { expires_at = some text; access_days = n; expired_at = none }
    | none ↦ record { expires_at = none; access_days = none; expired_at = none }
  ]

  -- `parse_datetime(entry.get("expiresAt", ""))`
  abbrev pub deadline : Access → Option Moment
  deadline entry = elim entry.expires_at [
    | none ↦ none
    | some text ↦ if text == "" then none else parse_datetime text
  ]

  abbrev pub later : ℕ → ℕ → ℕ
  later a b = if ltb a b then b else a

  abbrev pub base_date : ℕ → Access → ℕ
  base_date today entry = elim (deadline entry) [ none ↦ today | some m ↦ later m.date today ]

  unfoldable pub extended_expires_at : ℕ → Access → ℕ → String
  extended_expires_at today entry n = midnight (base_date today entry + n)

  -- `none` is the ValueError.
  unfoldable pub extend_entry_expiry : ℕ → Access → ℕ → Option Access
  extend_entry_expiry today entry n =
      let previous = get_or entry.access_days 0 in
      if ltb n 1
      then none
      else some (record {
        expires_at = some (extended_expires_at today entry n);
        access_days = some (if ltb 0 previous then previous + n else n);
        expired_at = none;
      })

  unfoldable pub access_expired : Access → ℕ → Bool
  access_expired entry now = elim (deadline entry) [ none ↦ false | some m ↦ leb m.instant now ]
