-- ===== src/Base/Prefix.antt =====
-- Texts that begin with a given text.
use Prim.Native.Nat.{ℕ}
use Prim.Native.Char.{code}
use Prim.Native.String.{String}
use Prim.Native.String.append
use mathlib.Core.Path.{◌≡◌, sym, ap, ◌∙◌}
use mathlib.Core.Logic.{inl, inr}
use xray_vps_manager.Base.Tests.{Bool-cases}
use mathlib.Core.Bool.{true, false}
use native.Mathlib.Omega.{arith}
use text.Mathlib.Text.{◌==◌, starts_with}
use text.Mathlib.TextEquality.{starts_with_iff}

abbrev pub head_code : String → ℕ
head_code String.[] = 0
head_code (String.◌∷◌ c s) = code c

-- A text begins with the first character of each of its beginnings.
pub head_code-prefix :
    (s t : String) → starts_with s t ≡ true → (t == "") ≡ false → head_code s ≡ head_code t
head_code-prefix s String.[] h k = ground arith
head_code-prefix s (String.◌∷◌ c t) h k =
    let (u, p) = (starts_with_iff s (String.◌∷◌ c t)).0 h in
    ap head_code (sym p) ∙ ap head_code (append.cons c t u)

-- No text has two beginnings whose first characters differ.
pub prefix_clash :
    (s t u : String)
    → starts_with s t ≡ true
    → (t == "") ≡ false
    → (u == "") ≡ false
    → (head_code t ≡ head_code u → ⊥)
    → starts_with s u ≡ false
prefix_clash s t u h k l differ = elim (Bool-cases (starts_with s u)) [
  | inl e ↦ absurd (differ (sym (head_code-prefix s t h k) ∙ head_code-prefix s u e l))
  | inr e ↦ e
]
