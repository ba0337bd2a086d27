-- ===== src/Clients/Access/Bounds.antt =====
-- The numbers of days that the parsers accept (clients/access.py).
use xray_vps_manager.Base.{
  ℕ, String, Bool, true, false, ◌&&◌, ◌≡◌, refl, arith, leb, ltb, nat_eq, contains, if◌then◌else◌,
  &&-right, Bool-cases, inl, inr,
}
use xray_vps_manager.Json.{strip, lstrip}
use xray_vps_manager.Clients.Access.{
  Days, unlimited, refused, days, is_plus, is_number, all_digits, decimal, unlimited_words,
  parse_access_days, parse_extend_days,
}

-- If a parser gives a number of days, it is from 1 to 36500.
abbrev pub in_bounds : Days → Bool
in_bounds unlimited = true
in_bounds refused = true
in_bounds (days n) = leb 1 n && leb n 36500

-- If the first parser gives a number of days, the second one gives the same.
abbrev pub read_alike : Days → Days → Bool
read_alike (days n) (days m) = nat_eq n m
read_alike (days n) unlimited = false
read_alike (days n) refused = false
read_alike unlimited d = true
read_alike refused d = true

lstrip-digits : (s : String) → all_digits s ≡ true → lstrip is_plus s ≡ s
unfolding lstrip all_digits
lstrip-digits String.[] h = refl
lstrip-digits (String.◌∷◌ c s) h = let no_plus : is_plus c ≡ false = ground arith in rw no_plus

-- The tests of a number; `low` is what a number below 1 stands for.
abbrev limited : Days → ℕ → Days
limited low n = if ltb n 1 then low else if ltb 36500 n then refused else days n

limited-in_bounds : (low : Days) (n : ℕ) → in_bounds low ≡ true → in_bounds (limited low n) ≡ true
limited-in_bounds low n h = elim (Bool-cases (ltb n 1)) [
  | inl e ↦ rw e h
  | inr e ↦ rw e (elim (Bool-cases (ltb 36500 n)) [ inl f ↦ rw f | inr f ↦ rw f (ground arith) ])
]

limited-read_alike : (n : ℕ) → read_alike (limited unlimited n) (limited refused n) ≡ true
limited-read_alike n = elim (Bool-cases (ltb n 1)) [
  | inl e ↦ rw e
  | inr e ↦ rw e (elim (Bool-cases (ltb 36500 n)) [ inl f ↦ rw f | inr f ↦ rw f (ground arith) ])
]

module _ (lower : String → String) (value : String) where
  abbrev raw : String
  raw = lower (strip value)

  access-in_bounds : in_bounds (parse_access_days lower value) ≡ true
  unfolding parse_access_days
  access-in_bounds = elim (Bool-cases (contains unlimited_words raw)) [
    | inl w ↦ rw w
    | inr w ↦ rw w (elim (Bool-cases (is_number raw)) [
      | inl d ↦ rw d (limited-in_bounds unlimited (decimal 0 raw) refl)
      | inr d ↦ rw d
    ])
  ]

  extend-in_bounds : in_bounds (parse_extend_days lower value) ≡ true
  unfolding parse_extend_days
  extend-in_bounds = elim (Bool-cases (is_number (lstrip is_plus raw))) [
    | inl d ↦ rw d (limited-in_bounds refused (decimal 0 (lstrip is_plus raw)) refl)
    | inr d ↦ rw d
  ]

  extend-digits :
      is_number raw ≡ true → parse_extend_days lower value ≡ limited refused (decimal 0 raw)
  unfolding parse_extend_days
  extend-digits d =
      let digits : all_digits raw ≡ true = &&-right _ _ d in rw (lstrip-digits raw digits, d)

  access-read_alike :
      read_alike (parse_access_days lower value) (parse_extend_days lower value) ≡ true
  unfolding parse_access_days
  access-read_alike = elim (Bool-cases (contains unlimited_words raw)) [
    | inl w ↦ rw w
    | inr w ↦ rw w (elim (Bool-cases (is_number raw)) [
      | inl d ↦ rw (d, extend-digits d) (limited-read_alike (decimal 0 raw))
      | inr d ↦ rw d
    ])
  ]

  -- On any text each of the two parsers gives a number of days only from 1 to 36500, and where the
  -- parser of access periods gives a number, the parser of extensions gives the same one.
  pub parse_days-bounds :
      (in_bounds (parse_access_days lower value) ≡ true)
      × (in_bounds (parse_extend_days lower value) ≡ true)
      × (read_alike (parse_access_days lower value) (parse_extend_days lower value) ≡ true)
  parse_days-bounds = (access-in_bounds, extend-in_bounds, access-read_alike)
