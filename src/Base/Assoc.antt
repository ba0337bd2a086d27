-- ===== src/Base/Assoc.antt =====
-- A `dict` with values of any type, in insertion order.
use mathlib.Core.Bool.{Bool, true, false, not, ◌&&◌}
use Prim.Native.String.{String}
use mathlib.Core.Path.{◌≡◌, refl}
use mathlib.Core.Option.{Option, none, some}
use mathlib.Core.List.{List, [], ◌∷◌}
use native.Mathlib.Omega.{arith}
use text.Mathlib.Text.{◌==◌}
use text.Mathlib.TextEquality.{eq_iff}
use xray_vps_manager.Base.Tests.{if◌then◌else◌, is_some}

module _ {ℓ} {V : Type ℓ} where
  unfoldable pub lookup : List (String × V) → String → Option V
  lookup [] k = none
  lookup ((j, v) ∷ d) k = if j == k then some v else lookup d k

  unfoldable pub insert : List (String × V) → String → V → List (String × V)
  insert [] k v = (k, v) ∷ []
  insert ((j, w) ∷ d) k v = let rest = insert d k v in if j == k then (j, v) ∷ d else (j, w) ∷ rest

  pub lookup-insert :
      (d : List (String × V)) (k : String) (v : V) (j : String)
      → lookup (insert d k v) j ≡ (if k == j then some v else lookup d j)
  unfolding lookup insert
  lookup-insert [] k v j = refl
  lookup-insert ((i, w) ∷ d) k v j =
      ground (arith, lookup-insert d k v j, eq_iff i k, eq_iff i j, eq_iff k j)

  pub lookup-insert_same :
      (d : List (String × V)) (k : String) (v : V) → lookup (insert d k v) k ≡ some v
  lookup-insert_same d k v = ground (arith, lookup-insert d k v k, eq_iff k k)

  pub lookup-insert_other :
      (d : List (String × V)) (k : String) (v : V) (j : String)
      → (k == j) ≡ false
      → lookup (insert d k v) j ≡ lookup d j
  lookup-insert_other d k v j h = ground (arith, lookup-insert d k v j)

  -- No key occurs twice, as in every `dict`.
  abbrev pub distinct_keys : List (String × V) → Bool
  distinct_keys [] = true
  distinct_keys ((k, v) ∷ d) = not (is_some (lookup d k)) && distinct_keys d
