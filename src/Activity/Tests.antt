-- ===== src/Activity/Tests.antt =====
-- The readers of protobuf fields and of the error log at small inputs.
use xray_vps_manager.Base.{
  length, arith, nat_eq, ◌++◌, Option, if◌then◌else◌, true, ℕ, ◌≡◌, ◌≢◌, refl, none, some, List, [],
  ◌∷◌, map, ok, String,
}
use xray_vps_manager.Activity.ErrorEvents.{Item, upsert_each, total_count}
use xray_vps_manager.Activity.ErrorLog.{sync_error_log, store_data, read_from, parsed}
use xray_vps_manager.Activity.ErrorLog.Bytes.{whole}
use xray_vps_manager.Activity.ErrorLog.Whole.{
  Action, append, rotate, sync, failed, World, start, step, steps, allowed, all_allowed,
  sync_error_log-whole,
}
use xray_vps_manager.Activity.Protobuf.{number, parse_proto_fields, iter_geoip_entries}
use xray_vps_manager.Activity.Protobuf.Read.{
  Written, varint, delimited, fixed32, message, meaning, parse_proto_fields-message,
}
use xray_vps_manager.Activity.Protobuf.Ends.{parse_proto_fields-ends}

abbrev three_fields : List Written
three_fields =
    record { key = 8 ∷ []; body = varint (0x96 ∷ 0x01 ∷ []) }
    ∷ record { key = 18 ∷ []; body = delimited (3 ∷ []) (1 ∷ 2 ∷ 3 ∷ []) }
    ∷ record { key = 0x9d ∷ 0x06 ∷ []; body = fixed32 (9 ∷ 9 ∷ 9 ∷ 9 ∷ []) }
    ∷ []

parse_proto_fields-message_example :
    parse_proto_fields (message three_fields) ≡ some (ok (map meaning three_fields))
parse_proto_fields-message_example = parse_proto_fields-message three_fields refl

parse_proto_fields-ends_example : parse_proto_fields (0x0f ∷ []) ≢ none
parse_proto_fields-ends_example = parse_proto_fields-ends (0x0f ∷ [])

read_number :
    parse_proto_fields (8 ∷ 0x96 ∷ 0x01 ∷ [])
    ≡ some (ok (record { field_number = 1; wire_type = 0; value = number 150 } ∷ []))
unfolding parse_proto_fields
read_number = refl

-- One entry with the country `RU`, as the bytes of its name.
abbrev decode : List ℕ → String
decode [] = ""
decode (b ∷ bs) = "RU"

read_country : iter_geoip_entries decode (10 ∷ 4 ∷ 10 ∷ 2 ∷ 82 ∷ 85 ∷ []) ≡ some (ok ("RU" ∷ []))
unfolding iter_geoip_entries
read_country = refl

-- A text for each end of a line.
abbrev lines : List ℕ → List String
lines [] = []
lines (b ∷ bs) = let rest = lines bs in if nat_eq b 10 then "line" ∷ rest else rest

lines-append : (xs ys : List ℕ) → whole xs ≡ true → lines (xs ++ ys) ≡ lines xs ++ lines ys
lines-append [] ys h = refl
lines-append (x ∷ []) ys h = ground arith
lines-append (x ∷ y ∷ xs) ys h = ground (arith, lines-append (y ∷ xs) ys h)

abbrev parse : String → Option Item
parse line = some (record {
  event_time = "2026-01-01T00:00:00Z";
  level = "warning";
  source = "xray-error-log";
  component = "app";
  message = line;
  raw_line = line;
})

abbrev plain : String → String
plain s = s

-- Two lines, a failure, a run, a new file, a line, a run, and a last line.
abbrev actions : List Action
actions =
    append (65 ∷ 10 ∷ 66 ∷ 10 ∷ [])
    ∷ failed true true none
    ∷ sync []
    ∷ rotate 8
    ∷ append (67 ∷ [])
    ∷ sync (10 ∷ [])
    ∷ []

actions_allowed : all_allowed plain plain lines parse (start 7) actions ≡ true
unfolding sync_error_log store_data read_from
actions_allowed = refl

last_allowed :
    allowed (steps plain plain lines parse (start 7) actions) (sync (68 ∷ 10 ∷ [])) ≡ true
unfolding sync_error_log store_data read_from
last_allowed = refl

abbrev last_world : World
last_world =
    step plain plain lines parse (steps plain plain lines parse (start 7) actions)
      (sync (68 ∷ 10 ∷ []))

sync_error_log-whole_example :
    (last_world.db.rows ≡ upsert_each plain plain [] (parsed parse (lines last_world.written)))
    × (total_count last_world.db.rows ≡ length (parsed parse (lines last_world.written)))
sync_error_log-whole_example =
    sync_error_log-whole plain plain lines parse lines-append 7 actions (68 ∷ 10 ∷ [])
      actions_allowed last_allowed
