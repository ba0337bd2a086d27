-- ===== src/Activity/Protobuf.antt =====
-- xray_vps_manager/activity/parser.py: the reader of protobuf fields, and of the countries in a
-- geoip.dat file.
pub mod Ends
pub mod Read
use Prim.Native.Nat.{◌/◌, ◌%◌, ◌^◌}
use xray_vps_manager.Base.{
  ℕ, zero, suc, ◌+◌, ◌*◌, String, Bool, true, false, not, ◌&&◌, Option, none, some, List, [], ◌∷◌,
  if◌then◌else◌, nat_eq, ltb, length, take, drop, Result, ok, err, ◌>>=◌, ◌==◌,
}
use xray_vps_manager.Base.Sort.{sorted_set}

-- The two ValueErrors.
pub data Fault : Type 0 where
  truncated : Fault
  unsupported : ℕ → Fault

pub data Value : Type 0 where
  number : ℕ → Value
  bytes : List ℕ → Value

pub record Field : Type 0 where
  pub field_number : ℕ
  pub wire_type : ℕ
  pub value : Value

-- `read_varint`, from the bytes at the index on; it returns those behind the number too. `value` is
-- below `2 ** shift`, so that `|=` adds, and a byte below 0x80 has not the bit 0x80.
unfoldable pub read_varint : ℕ → ℕ → List ℕ → Result Fault (ℕ × List ℕ)
read_varint shift value [] = err truncated
read_varint shift value (byte ∷ data') =
    let next = value + byte % 128 * 2 ^ shift in
    let more = read_varint (shift + 7) next data' in if ltb byte 128 then ok (next, data') else more

-- What follows a key of a wire type: the value, and the bytes behind it. A slice past the end is
-- shorter.
unfoldable pub read_value : ℕ → List ℕ → Result Fault (Value × List ℕ)
unfolding read_varint
read_value wire_type data' =
    if nat_eq wire_type 0
    then (do (n, rest) ← read_varint 0 0 data'; ok (number n, rest))
    else if nat_eq wire_type 1
    then ok (bytes (take 8 data'), drop 8 data')
    else if nat_eq wire_type 2
    then (do (n, rest) ← read_varint 0 0 data'; ok (bytes (take n rest), drop n rest))
    else if nat_eq wire_type 5
    then ok (bytes (take 4 data'), drop 4 data')
    else err (unsupported wire_type)

-- The loop with fuel; `none` is that the fuel has run out.
unfoldable pub fields_from : ℕ → List ℕ → Option (Result Fault (List Field))
unfolding read_value
fields_from fuel [] = some (ok [])
fields_from zero (byte ∷ data') = none
fields_from (suc fuel) (byte ∷ data') = elim (read_varint 0 0 (byte ∷ data')) [
  | err fault ↦ some (err fault)
  | ok (key, rest) ↦ elim (read_value (key % 8) rest) [
    | err fault ↦ some (err fault)
    | ok (v, rest') ↦ elim (fields_from fuel rest') [
      | none ↦ none
      | some (err fault) ↦ some (err fault)
      | some (ok fields) ↦
          let first : Field = record { field_number = key / 8; wire_type = key % 8; value = v } in
          some (ok (first ∷ fields))
    ]
  ]
]

-- Each round reads a byte at least.
unfoldable pub parse_proto_fields : List ℕ → Option (Result Fault (List Field))
unfolding fields_from
parse_proto_fields data' = fields_from (length data') data'

-- The bytes of the fields with number 1 and wire type 2.
unfoldable pub blobs : List Field → List (List ℕ)
blobs [] = []
blobs (f ∷ fs) =
    let rest = blobs fs in
    let first : List (List ℕ) = elim f.value [ number n ↦ rest | bytes bs ↦ bs ∷ rest ] in
    if nat_eq f.field_number 1 && nat_eq f.wire_type 2 then first else rest

abbrev last_or : List ℕ → List (List ℕ) → List ℕ
last_or bs [] = bs
last_or bs (cs ∷ css) = last_or cs css

-- `decode` is `bytes.decode("utf-8", errors="ignore").upper()`.
module _ (decode : List ℕ → String) where
  -- The country of one entry: that of the last field with a country.
  unfoldable pub country_code : List Field → String
  unfolding blobs
  country_code fields = elim (blobs fields) [ [] ↦ "" | bs ∷ rest ↦ decode (last_or bs rest) ]

  unfoldable pub codes_of : List (List ℕ) → Option (Result Fault (List String))
  unfolding country_code parse_proto_fields
  codes_of [] = some (ok [])
  codes_of (blob ∷ rest) = elim (parse_proto_fields blob) [
    | none ↦ none
    | some (err fault) ↦ some (err fault)
    | some (ok fields) ↦ elim (codes_of rest) [
      | none ↦ none
      | some (err fault) ↦ some (err fault)
      | some (ok codes) ↦
          let code = country_code fields in some (ok (if code == "" then codes else code ∷ codes))
    ]
  ]

  -- The list of all that `iter_geoip_entries` yields for the bytes of a file.
  unfoldable pub iter_geoip_entries : List ℕ → Option (Result Fault (List String))
  unfolding codes_of blobs parse_proto_fields
  iter_geoip_entries data' = elim (parse_proto_fields data') [
    | none ↦ none
    | some (err fault) ↦ some (err fault)
    | some (ok fields) ↦ codes_of (blobs fields)
  ]

  -- `available_geoip_codes`; `none` is a missing file, and a fault gives no code at all.
  unfoldable pub available_geoip_codes : Option (List ℕ) → List String
  unfolding iter_geoip_entries
  available_geoip_codes none = []
  available_geoip_codes (some data') = elim (iter_geoip_entries data') [
    | some (ok codes) ↦ sorted_set codes
    | some (err fault) ↦ []
    | none ↦ []
  ]
