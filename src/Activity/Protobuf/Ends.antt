-- ===== src/Activity/Protobuf/Ends.antt =====
-- The reader of fields ends on all bytes.
use xray_vps_manager.Base.{
  ap, ℕ, zero, suc, ◌+◌, ◌*◌, ◌≤◌, ◌<◌, ◌≡◌, ◌≢◌, refl, arith, none, List, [], ◌∷◌, nat_eq, length,
  take, drop, Result, ok, err, ◌>>=◌, Bool-cases, inl, inr,
}
use xray_vps_manager.Activity.Protobuf.{
  Fault, Value, number, bytes, read_varint, read_value, fields_from, parse_proto_fields,
}
use Prim.Native.Nat.{◌%◌, ◌^◌}

read_varint-shorter :
    (s v : ℕ) (bs : List ℕ) (n : ℕ) (rest : List ℕ)
    → read_varint s v bs ≡ ok (n, rest)
    → length rest < length bs
unfolding read_varint
read_varint-shorter s v [] n rest h = absurd (cc)
read_varint-shorter s v (b ∷ bs) n rest h =
    ground (arith, read_varint-shorter (s + 7) (v + b % 128 * 2 ^ s) bs n rest)

length-drop_le : (n : ℕ) (bs : List ℕ) → length (drop n bs) ≤ length bs
length-drop_le zero bs = omega arith
length-drop_le (suc n) [] = omega arith
length-drop_le (suc n) (b ∷ bs) = omega (arith, length-drop_le n bs)

varint_value :
    (bs : List ℕ) (f : ℕ × List ℕ → Value × List ℕ) (v : Value) (rest : List ℕ)
    → ((n : ℕ) (cs : List ℕ) → length (f (n, cs)).1 ≤ length cs)
    → (read_varint 0 0 bs >>= λ x. ok (f x)) ≡ ok (v, rest)
    → length rest ≤ length bs
varint_value bs f v rest small h = go (read_varint 0 0 bs) refl h
  where
    go :
        (r : Result Fault (ℕ × List ℕ))
        → read_varint 0 0 bs ≡ r
        → (r >>= λ x. ok (f x)) ≡ ok (v, rest)
        → length rest ≤ length bs
    go (ok (n, cs)) e k =
        let same : (f (n, cs)).1 ≡ rest = cc in
        omega (arith, read_varint-shorter 0 0 bs n cs e, small n cs, ap length same)
    go (err fault) e k = absurd (cc)

read_value-shorter :
    (wire : ℕ) (bs : List ℕ) (v : Value) (rest : List ℕ)
    → read_value wire bs ≡ ok (v, rest)
    → length rest ≤ length bs
unfolding read_value
read_value-shorter wire bs v rest h = elim (Bool-cases (nat_eq wire 0)) [
  | inl e ↦ varint_value bs (λ x. (number x.0, x.1)) v rest (λ n cs. omega arith) (rw e at h)
  | inr e0 ↦ elim (Bool-cases (nat_eq wire 2)) [
    | inl e2 ↦
        let two : wire ≡ 2 = ground arith in
        varint_value bs (λ x. (bytes (take x.0 x.1), drop x.0 x.1)) v rest
          (λ n cs. length-drop_le n cs) (rw two at h)
    | inr e2 ↦ ground (arith, length-drop_le 8 bs, length-drop_le 4 bs)
  ]
]

fields_from-ends : (fuel : ℕ) (bs : List ℕ) → length bs ≤ fuel → fields_from fuel bs ≢ none
unfolding fields_from
fields_from-ends zero [] l = λ e. cc
fields_from-ends (suc fuel) [] l = λ e. cc
fields_from-ends zero (b ∷ bs) l = absurd (omega arith)
fields_from-ends (suc fuel) (b ∷ bs) l =
    with_key (read_varint 0 0 (b ∷ bs)) refl (fields_from-ends fuel)
  where
    with_value :
        (key : ℕ) (rest : List ℕ) (r : Result Fault (Value × List ℕ))
        → read_varint 0 0 (b ∷ bs) ≡ ok (key, rest)
        → read_value (key % 8) rest ≡ r
        → ((cs : List ℕ) → length cs ≤ fuel → fields_from fuel cs ≢ none)
        → fields_from (suc fuel) (b ∷ bs) ≢ none
    with_value key rest (err fault) e k ih = λ n. ground arith
    with_value key rest (ok (v, rest')) e k ih =
        let small : length rest' ≤ fuel = omega (
          arith,
          read_varint-shorter 0 0 (b ∷ bs) key rest e,
          read_value-shorter (key % 8) rest v rest' k,
        ) in
        let more = ih rest' small in λ n. ground arith

    with_key :
        (r : Result Fault (ℕ × List ℕ))
        → read_varint 0 0 (b ∷ bs) ≡ r
        → ((cs : List ℕ) → length cs ≤ fuel → fields_from fuel cs ≢ none)
        → fields_from (suc fuel) (b ∷ bs) ≢ none
    with_key (err fault) e ih = λ n. ground arith
    with_key (ok (key, rest)) e ih = with_value key rest (read_value (key % 8) rest) e refl ih

-- The reader of protobuf fields returns on all bytes: it gives the fields or one of its two errors.
pub parse_proto_fields-ends : (bs : List ℕ) → parse_proto_fields bs ≢ none
unfolding parse_proto_fields
parse_proto_fields-ends bs = fields_from-ends (length bs) bs (omega arith)
