-- ===== src/Xray/ClientRoutes/Remove.antt =====
-- The removal of client routes (xray_vps_manager/xray/client_routes.py).
use xray_vps_manager.Base.{
  String, Bool, true, false, not, ◌&&◌, List, [], ◌∷◌, map, if◌then◌else◌, contains, filter,
}
use xray_vps_manager.Json.{
  arr, elements, obj, members, texts, Object, py_str, text_or_empty, get, put,
}
use xray_vps_manager.Xray.Config.{
  Config, rules_of, balancers_of, routing_rules, routing_balancers, set_rules, set_balancers,
  balancer_tag_text,
}
use xray_vps_manager.Xray.Cascade.{cascade_tags}
use xray_vps_manager.Xray.ClientRoutes.{is_client_balancer, is_client_rule, routing_same}

-- The rule or balancer is a client's and its tag is not among the expected ones.
abbrev pub is_stale_rule : List String → Object → Bool
is_stale_rule expected r = is_client_rule r && not (contains expected (balancer_tag_text r))

abbrev pub is_stale_balancer : List String → Object → Bool
is_stale_balancer expected b =
    is_client_balancer b && not (contains expected (text_or_empty (get b "tag")))

unfoldable pub remove_stale_client_route_config : Config → List String → Config × Bool
remove_stale_client_route_config c expected =
    let c₁ = routing_rules c in
    let c₂ = set_rules c₁ (filter (λ r. not (is_stale_rule expected r)) (rules_of c)) in
    let c' =
      set_balancers (routing_balancers c₂)
        (filter (λ b. not (is_stale_balancer expected b)) (balancers_of c)) in
    (c', not (routing_same c c'))

unfoldable pub remove_all_client_route_config : Config → Config × Bool
remove_all_client_route_config c =
    let c₁ = routing_rules c in
    let c₂ = set_rules c₁ (filter (λ r. not (is_client_rule r)) (rules_of c)) in
    let c' =
      set_balancers (routing_balancers c₂)
        (filter (λ b. not (is_client_balancer b)) (balancers_of c)) in
    (c', not (routing_same c c'))

-- `[str(item) for item in (balancer.get("selector") or [])]`. Of a text Python takes the
-- characters, and no cascade has a tag of one character.
unfoldable pub selector_items : Object → List String
selector_items b = elim (get b "selector") [
  | arr xs ↦ map py_str (elements xs)
  | obj fs ↦ map (λ (k, _). k) (members fs)
  | _ ↦ []
]

abbrev pub available_selector : List String → Object → List String
available_selector configured b = filter (contains configured) (selector_items b)

abbrev pub is_empty : List String → Bool
is_empty [] = true
is_empty (_ ∷ _) = false

-- The loop over the balancers: what is kept, and the tags of the client balancers that are kept.
unfoldable pub keep_available : List String → List Object → List Object × List String
keep_available configured [] = ([], [])
keep_available configured (b ∷ bs) =
    let (kept, tags) = keep_available configured bs in
    let selector = available_selector configured b in
    if not (is_client_balancer b)
    then (b ∷ kept, tags)
    else if is_empty selector
    then (kept, tags)
    else (put b "selector" (texts selector) ∷ kept, text_or_empty (get b "tag") ∷ tags)

unfoldable pub remove_unavailable_client_route_config : Config → Config × Bool
remove_unavailable_client_route_config c =
    let (kept, tags) = keep_available (cascade_tags c) (balancers_of c) in
    let c₁ = set_balancers (routing_balancers c) kept in
    let c' = set_rules (routing_rules c₁) (filter (λ r. not (is_stale_rule tags r)) (rules_of c)) in
    (c', not (routing_same c c'))
