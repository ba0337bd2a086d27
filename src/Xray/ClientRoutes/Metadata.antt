-- ===== src/Xray/ClientRoutes/Metadata.antt =====
-- The route records of the database and the clients' choices (client_routes.py).
use Prim.Native.Nat.{ℕ}
use Prim.Native.Char.{code}
use Prim.Native.String.{count}
use xray_vps_manager.Base.{
  String, Bool, true, false, not, ◌&&◌, ◌||◌, Option, none, some, List, [], ◌∷◌, ◌==◌, starts_with,
  if◌then◌else◌, get_or, contains, any, nat_eq, ltb,
}
use xray_vps_manager.Base.Assoc.{lookup, insert}
use xray_vps_manager.Json.{
  Json, str, Object, get, put, has_key, text_or_empty, truthy, is_text, strip, same_object,
}
use xray_vps_manager.Xray.Config.{Config, routing_rules}
use xray_vps_manager.Xray.Cascade.{active_cascade_tag, cascade_tags}
use xray_vps_manager.Xray.ClientRoutes.{selected_route_tag}

-- The two sections of the database snapshot that the routes use.
pub record RouteDb : Type 0 where
  pub clients : List (String × Object)
  pub cascade_routes : List (String × Object)

-- `cascade_name_from_tag(tag)` of a text: what follows the prefix.
unfoldable pub drop_chars : ℕ → String → String
drop_chars ℕ.zero s = s
drop_chars (ℕ.suc n) String.[] = ""
drop_chars (ℕ.suc n) (String.◌∷◌ c s) = drop_chars n s

unfoldable pub cascade_name_from_tag : String → String
unfolding drop_chars
cascade_name_from_tag tag = if starts_with tag "cascade-" then drop_chars 8 tag else ""

abbrev pub or_text : String → String → String
or_text a b = if a == "" then b else a

unfoldable pub route_label : Object → String → String
unfolding cascade_name_from_tag
route_label record' tag =
    let country = strip (text_or_empty (get record' "country")) in
    let label = strip (text_or_empty (get record' "label")) in
    if not (country == "")
    then country
    else if not (label == "")
    then label
    else if not (tag == "")
    then or_text (cascade_name_from_tag tag) tag
    else "-"

has_control : String → Bool
has_control String.[] = false
has_control (String.◌∷◌ c s) = any (nat_eq (code c)) (13 ∷ 10 ∷ 9 ∷ []) || has_control s

-- `none` is the ValueError. The argument is the text of the value, empty for `None`.
unfoldable pub normalize_country : String → Option String
unfolding has_control
normalize_country value =
    let country = strip value in
    if has_control country then none else if ltb 64 (count country) then none else some country

-- `if not record.get(key): record[key] = value`
abbrev pub fill : String → Json → Object → Object
fill key value r = if truthy (get r key) then r else put r key value

-- The record of one cascade after the loop's body, without the time of the update.
unfoldable pub filled_record : String → String → String → Object → Object
unfolding cascade_name_from_tag
filled_record active stamp tag existing =
    let tagged =
      if is_text tag (get existing "tag") then existing else put existing "tag" (str tag) in
    let labelled = fill "label" (str (or_text (cascade_name_from_tag tag) tag)) tagged in
    let placed = fill "country" (str (if tag == active then "Германия" else "США")) labelled in
    fill "created" (str stamp) placed

-- `changed_record`
abbrev pub is_incomplete : String → Object → Bool
is_incomplete tag r =
    not (is_text tag (get r "tag"))
    || (not (truthy (get r "label"))
        || (not (truthy (get r "country")) || not (truthy (get r "created"))))

unfoldable pub next_record : String → String → String → Object → Object
next_record active stamp tag existing =
    let r = filled_record active stamp tag existing in
    if is_incomplete tag existing then put r "updated" (str stamp) else r

-- The loop over the tags of the configured cascades.
unfoldable pub sync_records :
    String → String → List String → List (String × Object) → List (String × Object) × Bool
unfolding next_record
sync_records active stamp [] routes = (routes, false)
sync_records active stamp (tag ∷ tags) routes =
    let found = lookup routes tag in
    let r = next_record active stamp tag (get_or found []) in
    let differs : Bool = elim found [ none ↦ true | some old ↦ not (same_object old r) ] in
    let (routes', changed) =
      sync_records active stamp tags (if differs then insert routes tag r else routes) in
    (routes', differs || changed)

-- The configuration is filled by `active_cascade_tag`.
unfoldable pub sync_route_metadata_from_config : String → Config → RouteDb → Config × RouteDb × Bool
sync_route_metadata_from_config stamp c db =
    let (routes, changed) =
      sync_records (active_cascade_tag c) stamp (cascade_tags c) db.cascade_routes in
    (routing_rules c, record db { cascade_routes = routes }, changed)

-- The client's choice is a configured cascade.
abbrev pub has_choice : List String → Object → Bool
has_choice configured entry =
    not (selected_route_tag entry == "") && contains configured (selected_route_tag entry)

unfoldable pub assign_clients :
    String → List String → List (String × Object) → List (String × Object) × Bool
assign_clients active configured [] = ([], false)
assign_clients active configured ((name, entry) ∷ rest) =
    let (rest', changed) = assign_clients active configured rest in
    if has_choice configured entry
    then ((name, entry) ∷ rest', changed)
    else ((name, put entry "selectedCascadeTag" (str active)) ∷ rest', true)

unfoldable pub assign_default_client_routes : Config → RouteDb → RouteDb × Bool
unfolding assign_clients
assign_default_client_routes c db =
    let active = active_cascade_tag c in
    let (clients, changed) = assign_clients active (cascade_tags c) db.clients in
    if active == "" then (db, false) else (record db { clients = clients }, changed)

unfoldable pub sync_routes_from_config : String → Config → RouteDb → Config × RouteDb × Bool
unfolding sync_route_metadata_from_config assign_default_client_routes
sync_routes_from_config stamp c db =
    let (c', db', changed) = sync_route_metadata_from_config stamp c db in
    let (db'', assigned) = assign_default_client_routes c' db' in (c', db'', assigned || changed)

-- `none` is the ValueError of `normalize_country`.
unfoldable pub upsert_route_country : String → RouteDb → String → String → String → Option RouteDb
unfolding normalize_country cascade_name_from_tag
upsert_route_country stamp db tag country label =
    let existing = get_or (lookup db.cascade_routes tag) [] in
    let old = get existing "label" in
    let label' =
      if not (label == "")
      then str label
      else if truthy old
      then old
      else str (or_text (cascade_name_from_tag tag) tag) in
    elim (normalize_country country) [
      | none ↦ none
      | some normal ↦
          let named =
            put (put (put existing "tag" (str tag)) "country" (str normal)) "label" label' in
          let dated = if has_key named "created" then named else put named "created" (str stamp) in
          some (record db {
            cascade_routes = insert db.cascade_routes tag (put dated "updated" (str stamp));
          })
    ]

unfoldable pub selected_route_label : RouteDb → Object → String
unfolding route_label
selected_route_label db entry =
    let tag = selected_route_tag entry in
    if tag == "" then "не выбрана" else route_label (get_or (lookup db.cascade_routes tag) []) tag
