-- ===== src/Activity/Protobuf/Read.antt =====
-- Fields that are written as protobuf says are read back.
use xray_vps_manager.Base.{
  ◌∙◌, ap, ℕ, zero, suc, ◌+◌, ◌*◌, ◌≤◌, ◌≡◌, refl, arith, Bool, true, false, not, ◌&&◌, some, List,
  [], ◌∷◌, ◌++◌, map, nat_eq, ltb, length, length-append, take, drop, all, Result, ok,
}
use xray_vps_manager.Activity.Protobuf.{
  Fault, Value, number, bytes, Field, read_varint, read_value, fields_from, parse_proto_fields,
}
use Prim.Native.Nat.{◌/◌, ◌%◌, ◌^◌}
use native.Mathlib.Numerals.{towards_suc}
use mathlib.Core.List.{append_assoc}

-- The number that groups of seven bits stand for, the lowest first.
abbrev pub value_of : List ℕ → ℕ
value_of [] = 0
value_of (b ∷ bs) = b % 128 + 128 * value_of bs

-- All bytes but the last one say that another one follows.
abbrev pub is_varint : List ℕ → Bool
is_varint [] = false
is_varint (b ∷ []) = ltb b 128
is_varint (b ∷ c ∷ bs) = not (ltb b 128) && is_varint (c ∷ bs)

-- What follows the key of a field.
pub data Body : Type 0 where
  varint fixed64 fixed32 : List ℕ → Body
  delimited : List ℕ → List ℕ → Body

pub record Written : Type 0 where
  pub key : List ℕ
  pub body : Body

abbrev pub body_bytes : Body → List ℕ
body_bytes (varint bs) = bs
body_bytes (fixed64 bs) = bs
body_bytes (fixed32 bs) = bs
body_bytes (delimited len bs) = len ++ bs

abbrev pub wire_of : Body → ℕ
wire_of (varint bs) = 0
wire_of (fixed64 bs) = 1
wire_of (delimited len bs) = 2
wire_of (fixed32 bs) = 5

abbrev pub value_in : Body → Value
value_in (varint bs) = number (value_of bs)
value_in (fixed64 bs) = bytes bs
value_in (fixed32 bs) = bytes bs
value_in (delimited len bs) = bytes bs

abbrev pub body_fits : Body → Bool
body_fits (varint bs) = is_varint bs
body_fits (fixed64 bs) = nat_eq (length bs) 8
body_fits (fixed32 bs) = nat_eq (length bs) 4
body_fits (delimited len bs) = is_varint len && nat_eq (value_of len) (length bs)

-- A field as the format asks for it, and what it means.
abbrev pub fits : Written → Bool
fits w = is_varint w.key && (nat_eq (value_of w.key % 8) (wire_of w.body) && body_fits w.body)

abbrev pub meaning : Written → Field
meaning w = record {
  field_number = value_of w.key / 8;
  wire_type = wire_of w.body;
  value = value_in w.body;
}

abbrev pub message : List Written → List ℕ
message [] = []
message (w ∷ ws) = w.key ++ (body_bytes w.body ++ message ws)

seven_more : (s : ℕ) → 2 ^ (s + 7) ≡ 128 * 2 ^ s
seven_more s = simp towards_suc (omega arith)

shifted : (v b x s : ℕ) → v + b * 2 ^ s + x * 2 ^ (s + 7) ≡ v + (b + 128 * x) * 2 ^ s
shifted v b x s = rw (seven_more s) (omega arith)

read_varint-append :
    (s v : ℕ) (bs rest : List ℕ)
    → is_varint bs ≡ true
    → read_varint s v (bs ++ rest) ≡ ok (v + value_of bs * 2 ^ s, rest)
unfolding read_varint
read_varint-append s v [] rest h = absurd (cc)
read_varint-append s v (b ∷ []) rest h =
    let last : ltb b 128 ≡ true = h in rw last (ap (λ (n : ℕ). ok (n, rest)) (omega arith))
read_varint-append s v (b ∷ c ∷ bs) rest h =
    let more : ltb b 128 ≡ false = ground arith in
    let tail : is_varint (c ∷ bs) ≡ true = ground arith in
    let next = v + b % 128 * 2 ^ s in
    rw more (read_varint-append (s + 7) next (c ∷ bs) rest tail)
    ∙ ap (λ (n : ℕ). ok (n, rest)) (shifted v (b % 128) (value_of (c ∷ bs)) s)

take-length : (bs rest : List ℕ) → take (length bs) (bs ++ rest) ≡ bs
take-length [] rest = refl
take-length (b ∷ bs) rest = ground (arith, take-length bs rest)

drop-length : (bs rest : List ℕ) → drop (length bs) (bs ++ rest) ≡ rest
drop-length [] rest = refl
drop-length (b ∷ bs) rest = drop-length bs rest

by_length :
    (n : ℕ) (bs rest : List ℕ)
    → length bs ≡ n
    → ◌≡◌ {A = Result Fault (Value × List ℕ)}
        (ok (bytes (take n (bs ++ rest)), drop n (bs ++ rest)))
        (ok (bytes bs, rest))
by_length n bs rest h = rw (← h) (rw (take-length bs rest, drop-length bs rest))

read_value-append :
    (body : Body) (rest : List ℕ)
    → body_fits body ≡ true
    → read_value (wire_of body) (body_bytes body ++ rest) ≡ ok (value_in body, rest)
unfolding read_value
read_value-append (varint bs) rest h =
    rw (read_varint-append 0 0 bs rest h) (ap (λ (n : ℕ). ok (number n, rest)) (omega arith))
read_value-append (fixed64 bs) rest h = by_length 8 bs rest (ground arith)
read_value-append (fixed32 bs) rest h = by_length 4 bs rest (ground arith)
read_value-append (delimited len bs) rest h =
    let size : 0 + value_of len * 2 ^ 0 ≡ length bs = ground arith in
    let written : is_varint len ≡ true = ground arith in
    rw (append_assoc, read_varint-append 0 0 len (bs ++ rest) written, size)
      (by_length (length bs) bs rest refl)

key_read :
    (bs rest : List ℕ) → is_varint bs ≡ true → read_varint 0 0 (bs ++ rest) ≡ ok (value_of bs, rest)
key_read bs rest h = read_varint-append 0 0 bs rest h ∙ ap (λ (n : ℕ). ok (n, rest)) (omega arith)

not_empty : (bs : List ℕ) → is_varint bs ≡ true → 1 ≤ length bs
not_empty [] h = absurd (cc)
not_empty (b ∷ cs) h = omega arith

fields_from-step :
    (fuel : ℕ) (bs after : List ℕ) (v : Value) (rest : List ℕ) (fs : List Field)
    → is_varint bs ≡ true
    → read_value (value_of bs % 8) after ≡ ok (v, rest)
    → fields_from fuel rest ≡ some (ok fs)
    → fields_from (suc fuel) (bs ++ after)
      ≡ some (
          ok (
            record { field_number = value_of bs / 8; wire_type = value_of bs % 8; value = v } ∷ fs))
unfolding fields_from
fields_from-step fuel [] after v rest fs h k l = absurd (cc)
fields_from-step fuel (b ∷ cs) after v rest fs h k l = ground (arith, key_read (b ∷ cs) after h)

fields_from-message :
    (fuel : ℕ) (ws : List Written)
    → all fits ws ≡ true
    → length (message ws) ≤ fuel
    → fields_from fuel (message ws) ≡ some (ok (map meaning ws))
unfolding fields_from
fields_from-message zero [] h l = refl
fields_from-message (suc fuel) [] h l = refl
fields_from-message zero (w ∷ ws) h l =
    let written : is_varint w.key ≡ true = ground arith in
    absurd (
      omega
        (arith, length-append {0} w.key (body_bytes w.body ++ message ws), not_empty w.key written))
fields_from-message (suc fuel) (w ∷ ws) h l =
    let written : is_varint w.key ≡ true = ground arith in
    let body : body_fits w.body ≡ true = ground arith in
    let after = body_bytes w.body ++ message ws in
    let wire : value_of w.key % 8 ≡ wire_of w.body = ground arith in
    let value : read_value (value_of w.key % 8) after ≡ ok (value_in w.body, message ws) =
      rw wire (read_value-append w.body (message ws) body) in
    let rest : fields_from fuel (message ws) ≡ some (ok (map meaning ws)) =
      fields_from-message fuel ws (ground arith) (
        omega (
          arith,
          length-append {0} w.key after,
          length-append {0} (body_bytes w.body) (message ws),
          not_empty w.key written,
        )) in
    fields_from-step fuel w.key after (value_in w.body) (message ws) (map meaning ws) written value
      rest
    ∙ rw wire

-- A message whose fields are written in the format of protobuf is read completely, whatever its
-- numbers and bytes are: the fuel is enough, no error is raised, and the fields are those written,
-- in their order.
pub parse_proto_fields-message :
    (ws : List Written)
    → all fits ws ≡ true
    → parse_proto_fields (message ws) ≡ some (ok (map meaning ws))
unfolding parse_proto_fields
parse_proto_fields-message ws h = fields_from-message (length (message ws)) ws h (omega arith)
