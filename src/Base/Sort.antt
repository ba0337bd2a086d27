-- ===== src/Base/Sort.antt =====
-- `sorted(set(texts))`: texts in the order of their code points, each once.
use Prim.Native.Nat.{Ordering}
use Prim.Native.String.{compare, String}
use mathlib.Core.Path.{◌≡◌, refl, ◌∙◌}
use mathlib.Core.List.{List, [], ◌∷◌}
use mathlib.Core.Bool.{◌||◌}
use native.Mathlib.Omega.{arith}
use text.Mathlib.Text.{◌==◌}
use text.Mathlib.TextEquality.{eq_iff, path_by_compare}
use xray_vps_manager.Base.Lists.{contains}

pub insert_sorted : String → List String → List String
insert_sorted s [] = s ∷ []
insert_sorted s (t ∷ ts) =
    let rest = insert_sorted s ts in
    elim (compare s t) [ Ordering.lt ↦ s ∷ t ∷ ts | Ordering.eq ↦ t ∷ ts | Ordering.gt ↦ t ∷ rest ]

unfoldable pub sorted_set : List String → List String
unfolding insert_sorted
sorted_set [] = []
sorted_set (s ∷ ss) = insert_sorted s (sorted_set ss)

contains-insert_sorted :
    (s x : String) (ts : List String) → contains (insert_sorted s ts) x ≡ (s == x || contains ts x)
unfolding insert_sorted
contains-insert_sorted s x [] = refl
contains-insert_sorted s x (t ∷ ts) =
    ground (arith, contains-insert_sorted s x ts, path_by_compare s t, eq_iff s x, eq_iff t x)

-- Sorting loses and adds no text.
pub contains-sorted_set :
    (x : String) (ss : List String) → contains (sorted_set ss) x ≡ contains ss x
unfolding sorted_set
contains-sorted_set x [] = refl
contains-sorted_set x (s ∷ ss) =
    contains-insert_sorted s x (sorted_set ss) ∙ rw (contains-sorted_set x ss)
