-- ===== src/Xray/ClientRoutes.antt =====
-- xray_vps_manager/xray/client_routes.py: the rule and the balancer of each client.
pub mod Metadata
pub mod Place
pub mod Undone
pub mod Clean
pub mod All
pub mod Assigned
pub mod Remove
use Prim.Native.Char.{Char, code}
use xray_vps_manager.Base.{
  ℕ, String, ◌<>◌, Bool, true, false, not, ◌&&◌, ◌||◌, Option, none, some, List, [], ◌∷◌, ◌++◌, map,
  ◌==◌, starts_with, if◌then◌else◌, get_or, contains, filter, any, length, insert_before, is_some,
  nat_eq, ltb, leb,
}
use xray_vps_manager.Json.{
  Json, str, arr, elements, obj, members, texts, Object, py_str, text_or_empty, is_text, get, put,
  remove, strip, rstrip, lstrip, keep_chars, squeeze_chars, is_ascii_alnum, prefix, same,
  same_object, same_objects,
}
use xray_vps_manager.Xray.Config.{
  Api, Routing, Config, routing_of, rules_of, balancers_of, routing_rules, routing_balancers,
  set_rules, set_balancers, tag_is, balancer_tag_text,
}
use xray_vps_manager.Xray.Cascade.{
  active_cascade_tag, cascade_outbound, cascade_tags, is_catchall_rule,
}

abbrev pub client_balancer_prefix : String
client_balancer_prefix = "client-route-"

is_name_char : Char → Bool
is_name_char c = is_ascii_alnum c || any (nat_eq (code c)) (b'_' ∷ b'-' ∷ [])

abbrev is_underscore : Char → Bool
is_underscore c = nat_eq (code c) b'_'

-- `is_client_balancer_tag(tag)`
unfoldable pub is_client_balancer_tag : Json → Bool
is_client_balancer_tag tag = starts_with (text_or_empty tag) client_balancer_prefix

-- `is_client_balancer_tag(rule.get("balancerTag"))`, and the same of a balancer's own tag.
unfoldable pub is_client_rule : Object → Bool
unfolding is_client_balancer_tag
is_client_rule rule = is_client_balancer_tag (get rule "balancerTag")

unfoldable pub is_client_balancer : Object → Bool
unfolding is_client_balancer_tag
is_client_balancer balancer = is_client_balancer_tag (get balancer "tag")

unfoldable pub selected_route_tag : Object → String
selected_route_tag entry = strip (text_or_empty (get entry "selectedCascadeTag"))

pub remove_existing_client_rule : Config → String → Config
remove_existing_client_rule c tag =
    set_rules (routing_rules c) (filter (λ r. not (is_text tag (get r "balancerTag"))) (rules_of c))

-- The fields that `upsert_balancer` writes to the balancer that it found or made.
abbrev pub select_only : String → Object → Object
select_only selected b =
    remove (remove (put b "selector" (texts (selected ∷ []))) "fallbackTag") "strategy"

unfoldable pub upsert_balancer_list : String → String → List Object → List Object
upsert_balancer_list tag selected [] = select_only selected (("tag", str tag) ∷ []) ∷ []
upsert_balancer_list tag selected (b ∷ bs) =
    let rest = upsert_balancer_list tag selected bs in
    if tag_is tag b then select_only selected b ∷ bs else b ∷ rest

unfoldable pub upsert_balancer : Config → String → String → Config
upsert_balancer c tag selected =
    set_balancers (routing_balancers c) (upsert_balancer_list tag selected (balancers_of c))

-- `client_routes_allowed`; its call of `routing_rules` is made by the callers below.
unfoldable pub client_routes_allowed : Config → Bool
client_routes_allowed c = not (active_cascade_tag c == "")

pub client_route_rule_count : Config → ℕ
client_route_rule_count c = length (filter is_client_rule (rules_of c))

abbrev pub without_balancer_tag : String → List Object → List Object
without_balancer_tag tag = filter (λ r. not (is_text tag (get r "balancerTag")))

abbrev pub without_tag : String → List Object → List Object
without_tag tag = filter (λ b. not (tag_is tag b))

unfoldable pub remove_client_route_config : Config → String → Config × Bool
remove_client_route_config c tag =
    let rules = without_balancer_tag tag (rules_of c) in
    let balancers = without_tag tag (balancers_of c) in
    (
      set_balancers (set_rules (routing_balancers (routing_rules c)) rules) balancers,
      not (nat_eq (length rules) (length (rules_of c)))
          || not (nat_eq (length balancers) (length (balancers_of c))),
    )

abbrev pub client_rule : List String → String → Object
client_rule emails tag =
    ("type", str "field") ∷ ("user", texts emails) ∷ ("balancerTag", str tag) ∷ []

unfoldable pub insert_client_rule_before_catchall : Config → List String → String → Config
insert_client_rule_before_catchall c emails tag =
    set_rules (routing_rules c)
      (insert_before is_catchall_rule (client_rule emails tag) (rules_of c))

abbrev pub empty_api : Api
empty_api = record { tag = Json.null; services = none }

-- `ensure_routing_service`
unfoldable pub ensure_routing_service : Config → Config × Bool
ensure_routing_service c =
    let api = get_or c.api empty_api in
    let services = get_or api.services [] in
    if contains services "RoutingService"
    then (record c { api = some (record api { services = some services }) }, false)
    else (
      record c {
        api = some (record api { services = some (services ++ ("RoutingService" ∷ [])) });
      },
      true,
    )

abbrev same_texts : List String → List String → Bool
same_texts [] [] = true
same_texts (a ∷ xs) (b ∷ ys) = a == b && same_texts xs ys
same_texts _ _ = false

abbrev same_option : {A : Type 0} → (A → A → Bool) → Option A → Option A → Bool
same_option f none none = true
same_option f (some a) (some b) = f a b
same_option f _ _ = false

same_api : Api → Api → Bool
same_api a b = same a.tag b.tag && same_option same_texts a.services b.services

same_routing : Routing → Routing → Bool
same_routing a b =
    same_option same a.domain_strategy b.domain_strategy
    && (same_option same_objects a.rules b.rules
        && same_option same_objects a.balancers b.balancers)

-- `repr(config.get("routing", {}))` against the same text of another time; a missing section reads
-- as an empty one. The second test adds the section `api`.
unfoldable pub routing_same : Config → Config → Bool
unfolding same_routing
routing_same c d = same_routing (routing_of c) (routing_of d)

unfoldable pub api_and_routing_same : Config → Config → Bool
unfolding same_api routing_same
api_and_routing_same c d =
    same_api (get_or c.api empty_api) (get_or d.api empty_api) && routing_same c d

-- What `ensure_client_route_config` returns: the configuration, the client's entry, the flag.
pub record Ensured : Type 0 where
  pub config : Config
  pub entry : Object
  pub changed : Bool

-- `selected_tag or selected_route_tag(entry) or active_cascade_tag(config)`
unfoldable pub chosen_tag : Config → Object → String → String
chosen_tag c entry selected_tag =
    if not (selected_tag == "")
    then selected_tag
    else if not (selected_route_tag entry == "")
    then selected_route_tag entry
    else active_cascade_tag c

-- The four edits for a client whose route is allowed.
unfoldable pub write_client_route : Config → List String → String → String → Config
unfolding remove_existing_client_rule
write_client_route c emails tag selected =
    insert_client_rule_before_catchall
      (upsert_balancer (remove_existing_client_rule (ensure_routing_service c).0 tag) tag selected)
      emails tag

-- `lower` is Python's `str.lower`; `emails` is `client_emails(name, entry)`.
module _ (lower : String → String) (emails : String → Object → List String) where
  unfoldable pub client_balancer_tag : String → Object → String
  unfolding is_name_char
  client_balancer_tag name entry =
      let uuid = keep_chars is_ascii_alnum (text_or_empty (get entry "id")) in
      let stripped =
        rstrip is_underscore (lstrip is_underscore (squeeze_chars is_name_char false name)) in
      let safe_name = if stripped == "" then "client" else stripped in
      if not (uuid == "")
      then client_balancer_prefix <> lower (prefix 24 uuid)
      else prefix 63 (client_balancer_prefix <> safe_name)

  unfoldable pub ensure_client_route_config : Config → String → Object → String → Ensured
  ensure_client_route_config c₀ name entry selected_tag =
      let c = routing_rules c₀ in
      let tag = client_balancer_tag name entry in
      let selected = chosen_tag c entry selected_tag in
      let c' = write_client_route c (emails name entry) tag selected in
      let (removed, gone) = remove_client_route_config c tag in
      if not (client_routes_allowed c)
      then record { config = removed; entry = entry; changed = gone }
      else if not (not (selected == "") && is_some (cascade_outbound c selected))
      then record { config = c; entry = entry; changed = false }
      else record {
        config = c';
        entry = put entry "selectedCascadeTag" (str selected);
        changed = not (api_and_routing_same c c');
      }
