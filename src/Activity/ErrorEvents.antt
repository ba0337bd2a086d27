-- ===== src/Activity/ErrorEvents.antt =====
-- xray_vps_manager/db/repositories/activity.py: the table of the events of the error log.
use Prim.Native.Nat.{Ordering}
use Prim.Native.String.{compare}
use xray_vps_manager.Base.{
  ℕ, ◌+◌, ◌≡◌, refl, arith, String, ◌<>◌, List, [], ◌∷◌, ◌++◌, if◌then◌else◌, length, ◌==◌,
}
use xray_vps_manager.Json.{strip}

-- An event, as `parse_xray_error_line` gives it.
pub record Item : Type 0 where
  pub event_time : String
  pub level : String
  pub source : String
  pub component : String
  pub message : String
  pub raw_line : String

-- A row of `xray_error_events`, without its number and `extra_json`.
pub record Row : Type 0 where
  pub dedupe_key : String
  pub event_time : String
  pub level : String
  pub source : String
  pub component : String
  pub message : String
  pub event_count : ℕ
  pub first_seen_at : String
  pub last_seen_at : String
  pub raw_line : String

abbrev or_text : String → String → String
or_text a b = if a == "" then b else a

-- `CASE WHEN new > old THEN new ELSE old END`
abbrev later_text : String → String → String
later_text new old = elim (compare old new) [ Ordering.lt ↦ new | _ ↦ old ]

-- The row that the INSERT would add.
abbrev pub new_row : (String → String) → (String → String) → Item → Row
new_row lower digest item =
    let level = or_text (lower (strip (or_text item.level "error"))) "error" in
    let source = or_text (strip (or_text item.source "xray-error-log")) "xray-error-log" in
    let component = strip item.component in
    let message = strip item.message in
    record {
      dedupe_key = digest (level <> ("|" <> (source <> ("|" <> (component <> ("|" <> message))))));
      event_time = item.event_time;
      level = level;
      source = source;
      component = component;
      message = message;
      event_count = 1;
      first_seen_at = item.event_time;
      last_seen_at = item.event_time;
      raw_line = or_text item.raw_line message;
    }

-- The DO UPDATE of the row with the same key.
abbrev pub joined_row : Row → Row → Row
joined_row old new = record new {
  event_count = old.event_count + new.event_count;
  event_time = later_text new.event_time old.event_time;
  first_seen_at = old.first_seen_at;
  last_seen_at = later_text new.last_seen_at old.last_seen_at;
}

unfoldable pub upsert_row : List Row → Row → List Row
upsert_row [] new = new ∷ []
upsert_row (old ∷ rows) new =
    let rest = upsert_row rows new in
    if old.dedupe_key == new.dedupe_key then joined_row old new ∷ rows else old ∷ rest

unfoldable pub upsert_xray_error_event :
    (String → String) → (String → String) → List Row → Item → List Row
unfolding upsert_row
upsert_xray_error_event lower digest rows item = upsert_row rows (new_row lower digest item)

-- One call for each event.
abbrev pub upsert_each : (String → String) → (String → String) → List Row → List Item → List Row
upsert_each lower digest rows [] = rows
upsert_each lower digest rows (item ∷ items) =
    upsert_each lower digest (upsert_xray_error_event lower digest rows item) items

-- The events that the rows stand for.
abbrev pub total_count : List Row → ℕ
total_count [] = 0
total_count (r ∷ rows) = r.event_count + total_count rows

total_count-upsert_row :
    (rows : List Row) (new : Row)
    → total_count (upsert_row rows new) ≡ new.event_count + total_count rows
unfolding upsert_row
total_count-upsert_row [] new = refl
total_count-upsert_row (old ∷ rows) new = ground (arith, total_count-upsert_row rows new)

module _ (lower digest : String → String) where
  total_count-upsert :
      (rows : List Row) (item : Item)
      → total_count (upsert_xray_error_event lower digest rows item) ≡ 1 + total_count rows
  unfolding upsert_xray_error_event
  total_count-upsert rows item = total_count-upsert_row rows (new_row lower digest item)

  pub upsert_each-append :
      (rows : List Row) (xs ys : List Item)
      → upsert_each lower digest rows (xs ++ ys)
        ≡ upsert_each lower digest (upsert_each lower digest rows xs) ys
  upsert_each-append rows [] ys = refl
  upsert_each-append rows (x ∷ xs) ys =
      upsert_each-append (upsert_xray_error_event lower digest rows x) xs ys

  -- Every event counts once.
  pub total_count-upsert_each :
      (rows : List Row) (items : List Item)
      → total_count (upsert_each lower digest rows items) ≡ length items + total_count rows
  total_count-upsert_each rows [] = omega arith
  total_count-upsert_each rows (item ∷ items) = omega (
    arith,
    total_count-upsert_each (upsert_xray_error_event lower digest rows item) items,
    total_count-upsert rows item,
  )
