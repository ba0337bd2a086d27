-- ===== src/Clients/Email.antt =====
-- xray_vps_manager/clients/models.py: the email of a client carries its name and metadata.
pub mod RoundTrip
use Prim.Native.Char.{Char, code}
use xray_vps_manager.Base.{
  ℕ, String, ◌<>◌, Bool, true, false, not, ◌&&◌, ◌||◌, List, [], ◌∷◌, ◌++◌, if◌then◌else◌, nat_eq,
  get_or, ◌==◌,
}
use xray_vps_manager.Base.Assoc.{lookup, insert}

abbrev pub is_bar : Char → Bool
is_bar c = nat_eq (code c) b'|'

abbrev pub is_equals : Char → Bool
is_equals c = nat_eq (code c) b'='

abbrev pub add_first : Char → List String → List String
add_first c [] = String.◌∷◌ c "" ∷ []
add_first c (part ∷ parts) = String.◌∷◌ c part ∷ parts

-- `text.split(sep)` at the characters of one kind
unfoldable pub split_at : (Char → Bool) → String → List String
split_at sep String.[] = "" ∷ []
split_at sep (String.◌∷◌ c s) =
    let rest = split_at sep s in if sep c then "" ∷ rest else add_first c rest

-- `text.partition("=")`: what is before, whether there is one, what is after.
unfoldable pub partition : String → String × Bool × String
partition String.[] = ("", false, "")
partition (String.◌∷◌ c s) =
    let (before, found, after) = partition s in
    if is_equals c then ("", true, s) else (String.◌∷◌ c before, found, after)

abbrev pub Metadata : Type 0
Metadata = List (String × String)

-- One turn of the loop over the parts.
unfoldable pub add_part : String → Metadata → Metadata
add_part part metadata =
    let (key, found, value) = partition part in
    if found && not (key == "") then insert metadata key value else metadata

abbrev pub add_parts : List String → Metadata → Metadata
add_parts [] metadata = metadata
add_parts (part ∷ parts) metadata = add_parts parts (add_part part metadata)

unfoldable pub email_metadata : String → String × Metadata
email_metadata email = elim (split_at is_bar email) [
  | [] ↦ ("", [])
  | name ∷ parts ↦ (name, add_parts parts [])
]

unfoldable pub split_email : String → String × String
split_email email =
    let (name, metadata) = email_metadata email in (name, get_or (lookup metadata "created") "")

abbrev pub joined : String → List String → String
joined first [] = first
joined first (part ∷ parts) = first <> ("|" <> joined part parts)

abbrev pub created_part : String → List String
created_part created = if created == "" then [] else ("created" <> ("=" <> created)) ∷ []

abbrev pub connection_part : String → List String
connection_part tag = if tag == "" then [] else ("connection" <> ("=" <> tag)) ∷ []

unfoldable pub email_for_client : String → String → String → String
email_for_client name created tag = joined name (created_part created ++ connection_part tag)
