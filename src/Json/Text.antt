-- ===== src/Json/Text.antt =====
-- The methods of `str` that the program uses on names and tags.
use Prim.Native.Nat.{ℕ}
use Prim.Native.Char.{Char, code}
use xray_vps_manager.Base.{
  String, ◌<>◌, Bool, true, false, ◌||◌, ◌&&◌, [], ◌∷◌, leb, nat_eq, any, ◌==◌, if◌then◌else◌, zero,
  suc,
}

-- `str.isspace` of one character, by its code point.
unfoldable pub is_space : Char → Bool
is_space c =
    let n = code c in
    leb 9 n && leb n 13
    || (leb 28 n && leb n 32
        || (leb 0x2000 n && leb n 0x200a
            || any (nat_eq n)
                (0x85 ∷ 0xa0 ∷ 0x1680 ∷ 0x2028 ∷ 0x2029 ∷ 0x202f ∷ 0x205f ∷ 0x3000 ∷ [])))

unfoldable pub lstrip : (Char → Bool) → String → String
lstrip drops String.[] = ""
lstrip drops (String.◌∷◌ c s) =
    let rest = lstrip drops s in if drops c then rest else String.◌∷◌ c s

unfoldable pub rstrip : (Char → Bool) → String → String
rstrip drops String.[] = ""
rstrip drops (String.◌∷◌ c s) =
    let rest = rstrip drops s in if drops c && rest == "" then "" else String.◌∷◌ c rest

-- `text.strip()`
unfoldable pub strip : String → String
unfolding lstrip rstrip is_space
strip s = rstrip is_space (lstrip is_space s)

unfoldable pub is_ascii_alnum : Char → Bool
is_ascii_alnum c =
    let n = code c in
    leb b'0' n && leb n b'9' || (leb b'A' n && leb n b'Z' || leb b'a' n && leb n b'z')

-- `re.sub(r"[^...]+", "", text)`: the characters of the class.
unfoldable pub keep_chars : (Char → Bool) → String → String
keep_chars p String.[] = ""
keep_chars p (String.◌∷◌ c s) = let rest = keep_chars p s in if p c then String.◌∷◌ c rest else rest

-- `re.sub(r"[^...]+", "_", text)`: each run outside the class is one underscore. The flag says
-- whether the run before this place has its underscore already.
unfoldable pub squeeze_chars : (Char → Bool) → Bool → String → String
squeeze_chars p in_run String.[] = ""
squeeze_chars p in_run (String.◌∷◌ c s) =
    let kept = squeeze_chars p false s in
    let rest = squeeze_chars p true s in
    if p c then String.◌∷◌ c kept else if in_run then rest else "_" <> rest

-- `text[:n]`
unfoldable pub prefix : ℕ → String → String
prefix zero s = ""
prefix (suc n) String.[] = ""
prefix (suc n) (String.◌∷◌ c s) = String.◌∷◌ c (prefix n s)
