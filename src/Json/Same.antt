-- ===== src/Json/Same.antt =====
-- The comparison of two documents by their `repr`, which keeps the order of keys.
use xray_vps_manager.Base.{Bool, true, false, List, [], ◌∷◌, ◌&&◌, not, ◌==◌}
use xray_vps_manager.Json.Data.{
  Json, null, bool, num, str, arr, obj, Items, nil, cons, Fields, end, field, Object,
}

abbrev same_bool : Bool → Bool → Bool
same_bool true b = b
same_bool false b = not b

unfoldable mutual
  pub same : Json → Json → Bool
  same null null = true
  same (bool a) (bool b) = same_bool a b
  same (num a) (num b) = a == b
  same (str a) (str b) = a == b
  same (arr a) (arr b) = same_items a b
  same (obj a) (obj b) = same_fields a b
  same _ _ = false

  pub same_items : Items → Items → Bool
  same_items nil nil = true
  same_items (cons a as') (cons b bs) = same a b && same_items as' bs
  same_items _ _ = false

  pub same_fields : Fields → Fields → Bool
  same_fields end end = true
  same_fields (field k a as') (field j b bs) = k == j && (same a b && same_fields as' bs)
  same_fields _ _ = false

unfoldable pub same_object : Object → Object → Bool
unfolding same
same_object [] [] = true
same_object ((k, a) ∷ d) ((j, b) ∷ e) = k == j && (same a b && same_object d e)
same_object _ _ = false

unfoldable pub same_objects : List Object → List Object → Bool
unfolding same_object
same_objects [] [] = true
same_objects (a ∷ as') (b ∷ bs) = same_object a b && same_objects as' bs
same_objects _ _ = false
