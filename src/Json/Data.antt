-- ===== src/Json/Data.antt =====
-- JSON values, and what Python's `str`, truth test and `isinstance` say of them.
use xray_vps_manager.Base.{
  ◌≡◌, refl, ap, eq_iff, arith, String, ◌<>◌, Bool, true, false, not, ◌||◌, List, [], ◌∷◌, map,
  ◌==◌, if◌then◌else◌,
}

-- A number is kept as the text that Python prints for it.
mutual
  pub data Json : Type 0 where
    null : Json
    bool : Bool → Json
    num : String → Json
    str : String → Json
    arr : Items → Json
    obj : Fields → Json

  pub data Items : Type 0 where
    nil : Items
    cons : Json → Items → Items

  pub data Fields : Type 0 where
    end : Fields
    field : String → Json → Fields → Fields

abbrev pub elements : Items → List Json
elements nil = []
elements (cons x xs) = x ∷ elements xs

abbrev pub array : List Json → Items
array [] = nil
array (x ∷ xs) = cons x (array xs)

-- A list of texts as a JSON value.
abbrev pub texts : List String → Json
texts ss = arr (array (map str ss))

-- A `dict`: its entries in the order in which they were inserted.
abbrev pub Object : Type 0
Object = List (String × Json)

abbrev pub members : Fields → Object
members end = []
members (field k v rest) = (k, v) ∷ members rest

abbrev pub dict : Object → Fields
dict [] = end
dict ((k, v) ∷ d) = field k v (dict d)

-- The truth of a value, as in `value or ""`.
abbrev pub truthy : Json → Bool
truthy null = false
truthy (bool b) = b
truthy (num s) = not (s == "0" || (s == "0.0" || s == "-0.0"))
truthy (str s) = not (s == "")
truthy (arr nil) = false
truthy (arr (cons _ _)) = true
truthy (obj end) = false
truthy (obj (field _ _ _)) = true

mutual
  -- `repr(value)`, which is `str(value)` of all but texts. Texts are quoted with no escapes.
  pub repr : Json → String
  repr null = "None"
  repr (bool true) = "True"
  repr (bool false) = "False"
  repr (num s) = s
  repr (str s) = "'" <> (s <> "'")
  repr (arr xs) = "[" <> (repr_items xs <> "]")
  repr (obj fs) = "{" <> (repr_fields fs <> "}")

  pub repr_items : Items → String
  repr_items nil = ""
  repr_items (cons x nil) = repr x
  repr_items (cons x xs) = repr x <> (", " <> repr_items xs)

  pub repr_fields : Fields → String
  repr_fields end = ""
  repr_fields (field k v end) = "'" <> (k <> ("': " <> repr v))
  repr_fields (field k v fs) = "'" <> (k <> ("': " <> (repr v <> (", " <> repr_fields fs))))

-- `str(value)`
abbrev pub py_str : Json → String
py_str (str s) = s
py_str v = repr v

-- `str(value or "")`
abbrev pub text_or_empty : Json → String
text_or_empty v = if truthy v then py_str v else ""

-- `value == "literal"`
abbrev pub is_text : String → Json → Bool
is_text s (str t) = t == s
is_text s _ = false

pub is_text_sound : (s : String) (v : Json) → is_text s v ≡ true → v ≡ str s
is_text_sound s null h = cc
is_text_sound s (bool b) h = cc
is_text_sound s (num n) h = cc
is_text_sound s (str t) h = ap str ((eq_iff t s).0 h)
is_text_sound s (arr xs) h = cc
is_text_sound s (obj fs) h = cc

pub text_or_empty-str : (s : String) → text_or_empty (str s) ≡ s
text_or_empty-str s = ground (arith, eq_iff s "")

pub members-dict : (d : Object) → members (dict d) ≡ d
members-dict [] = refl
members-dict ((k, v) ∷ d) = ap (λ r. (k, v) ∷ r) (members-dict d)
