-- ===== src/Json/Dict.antt =====
-- Python's `dict` operations on objects.
use xray_vps_manager.Base.{
  String, Bool, false, ◌≡◌, refl, [], ◌∷◌, ◌||◌, arith, ◌==◌, eq_iff, if◌then◌else◌,
}
use xray_vps_manager.Json.Data.{Json, Object, null}

-- `d.get(k)`: `None` where the key is missing.
unfoldable pub get : Object → String → Json
get [] k = null
get ((j, v) ∷ d) k = if j == k then v else get d k

-- `k in d`
unfoldable pub has_key : Object → String → Bool
has_key [] k = false
has_key ((j, v) ∷ d) k = j == k || has_key d k

-- `d[k] = v`: an existing key keeps its place.
unfoldable pub put : Object → String → Json → Object
put [] k v = (k, v) ∷ []
put ((j, w) ∷ d) k v = let rest = put d k v in if j == k then (j, v) ∷ d else (j, w) ∷ rest

-- `d.pop(k, None)`
unfoldable pub remove : Object → String → Object
remove [] k = []
remove ((j, w) ∷ d) k = let rest = remove d k in if j == k then rest else (j, w) ∷ rest

pub get-put :
    (d : Object) (k : String) (v : Json) (j : String)
    → get (put d k v) j ≡ (if k == j then v else get d j)
unfolding get put
get-put [] k v j = refl
get-put ((i, w) ∷ d) k v j = ground (arith, get-put d k v j, eq_iff i k, eq_iff i j, eq_iff k j)

pub has_key-put :
    (d : Object) (k : String) (v : Json) (j : String)
    → has_key (put d k v) j ≡ (k == j || has_key d j)
unfolding has_key put
has_key-put [] k v j = refl
has_key-put ((i, w) ∷ d) k v j =
    ground (arith, has_key-put d k v j, eq_iff i k, eq_iff i j, eq_iff k j)

pub get-remove :
    (d : Object) (k j : String) → get (remove d k) j ≡ (if k == j then null else get d j)
unfolding get remove
get-remove [] k j = ground arith
get-remove ((i, w) ∷ d) k j = ground (arith, get-remove d k j, eq_iff i k, eq_iff i j, eq_iff k j)

pub has_key-remove :
    (d : Object) (k j : String) → has_key (remove d k) j ≡ (if k == j then false else has_key d j)
unfolding has_key remove
has_key-remove [] k j = ground arith
has_key-remove ((i, w) ∷ d) k j =
    ground (arith, has_key-remove d k j, eq_iff i k, eq_iff i j, eq_iff k j)
