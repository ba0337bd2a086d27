-- ===== src/Xray/Tests/Routes.antt =====
-- Cascades, client routes and bypass routes at the sample configuration.
use xray_vps_manager.Base.{
  ◌==◌, not, ◌≡◌, refl, String, some, List, [], ◌∷◌, true, false, filter, find, precedes, all, any,
  length,
}
use xray_vps_manager.Xray.ClientRoutes.Metadata.{RouteDb, assign_default_client_routes}
use xray_vps_manager.Xray.ClientRoutes.Assigned.{chooses, assign_default_client_routes-chooses}
use xray_vps_manager.Json.{is_ascii_alnum, has_key, strip, str, texts, Object, get}
use xray_vps_manager.Xray.Config.{
  Config, rules_of, balancers_of, outbounds_of, tag_is, routing_rules,
}
use xray_vps_manager.Xray.Cascade.{
  cascade_outbound, cascade_outbounds, is_cascade_tag, current_catchall_tag, active_cascade_tag,
  is_managed_catchall_rule, catchall_route, ensure_direct_first, activate_cascade_route,
  is_catchall_rule, cascade_tags, last_catchall,
}
use xray_vps_manager.Xray.Cascade.Direct.{head_has_tag, others, ensure_direct_first_lem}
use xray_vps_manager.Xray.Cascade.Active.{unmanaged, activate_cascade_route_lem}
use xray_vps_manager.Xray.ClientRoutes.{
  without_balancer_tag, without_tag, client_rule, client_balancer_tag, client_routes_allowed,
  chosen_tag, selected_route_tag, ensure_client_route_config, remove_client_route_config,
}
use xray_vps_manager.Xray.ClientRoutes.Remove.{remove_unavailable_client_route_config}
use xray_vps_manager.Xray.ClientRoutes.Place.{targets_balancer, ensure_client_route_config_allowed}
use xray_vps_manager.Xray.ClientRoutes.Undone.{
  remove_client_route_config-ensure_client_route_config,
}
use xray_vps_manager.Xray.ClientRoutes.Clean.{
  not_client_rule, not_client_balancer, selects_configured, has_balancer,
  remove_unavailable_client_route_config_lem,
}
use xray_vps_manager.Xray.Bypass.{
  normalize_region_code, bypass_outbound, bypass_outbounds, is_bypass_tag, geoip_warning_tag,
  clone_outbound_with_tag, is_private_block_rule,
}
use xray_vps_manager.Xray.Bypass.Route.{apply_bypass_route, domain_strategy_of}
use xray_vps_manager.Xray.Bypass.Warning.{warns, bypasses}
use xray_vps_manager.Xray.Bypass.Applied.{apply_bypass_route_lem}
use xray_vps_manager.Xray.Tests.Samples.{germany, bypass, sample, alice}

ensure_direct_first_lem_example :
    let c' = (ensure_direct_first sample).0 in
    (head_has_tag "direct" (outbounds_of c') ≡ true)
    × (others "direct" (outbounds_of c') ≡ others "direct" (outbounds_of sample))
    × (ensure_direct_first c' ≡ (c', false))
ensure_direct_first_lem_example = ensure_direct_first_lem sample

cascade_found : cascade_outbound sample "cascade-de" ≡ some germany
unfolding cascade_outbound cascade_outbounds is_cascade_tag get
cascade_found = refl

activate_cascade_route_lem_example :
    (c' : Config) × (activate_cascade_route sample "cascade-de" ≡ some c')
    × (current_catchall_tag c' ≡ "cascade-de")
    × (active_cascade_tag c' ≡ "cascade-de")
    × (filter unmanaged (rules_of c') ≡ filter unmanaged (rules_of sample))
    × (filter is_managed_catchall_rule (rules_of c') ≡ catchall_route "cascade-de" ∷ [])
activate_cascade_route_lem_example =
    activate_cascade_route_lem sample "cascade-de" germany cascade_found

-- Lowering of the texts that the examples meet, and their emails.
abbrev lower : String → String
lower s = s

abbrev emails : String → Object → List String
emails name entry = name ∷ []

allowed : client_routes_allowed (routing_rules sample) ≡ true
unfolding client_routes_allowed active_cascade_tag current_catchall_tag last_catchall
    is_catchall_rule cascade_outbound cascade_outbounds is_cascade_tag get has_key routing_rules
allowed = refl

chosen : chosen_tag (routing_rules sample) alice "" ≡ "cascade-de"
unfolding chosen_tag selected_route_tag strip get
chosen = refl

abbrev alice_tag : String
alice_tag = client_balancer_tag lower emails "alice" alice

cascade_chosen : cascade_outbound (routing_rules sample) "cascade-de" ≡ some germany
unfolding cascade_outbound cascade_outbounds is_cascade_tag get routing_rules
cascade_chosen = refl

-- The first of them, at `alice` and the sample.
ensure_client_route_config_allowed_example :
    let d = routing_rules sample in
    let result = ensure_client_route_config lower emails sample "alice" alice "cascade-de" in
    let c' = result.config in
    (precedes (targets_balancer alice_tag) is_catchall_rule (rules_of c') ≡ true)
    × (filter (targets_balancer alice_tag) (rules_of c')
        ≡ client_rule (emails "alice" alice) alice_tag ∷ [])
    × (without_balancer_tag alice_tag (rules_of c')
        ≡ without_balancer_tag alice_tag (rules_of sample))
    × ((b : Object) × (find (tag_is alice_tag) (balancers_of c') ≡ some b)
        × (get b "selector" ≡ texts (chosen_tag d alice "cascade-de" ∷ [])))
    × (without_tag alice_tag (balancers_of c') ≡ without_tag alice_tag (balancers_of sample))
    × (get result.entry "selectedCascadeTag" ≡ str (chosen_tag d alice "cascade-de"))
ensure_client_route_config_allowed_example =
    ensure_client_route_config_allowed lower emails sample "alice" alice "cascade-de" germany
      allowed (unfold chosen_tag in refl) (unfold chosen_tag in cascade_chosen)

-- The route that is written for `alice` is removed again.
remove_client_route_config-ensure_client_route_config_example :
    let result = ensure_client_route_config lower emails sample "alice" alice "cascade-de" in
    let c' = (remove_client_route_config result.config alice_tag).0 in
    (rules_of c' ≡ rules_of (remove_client_route_config sample alice_tag).0)
    × (balancers_of c' ≡ balancers_of (remove_client_route_config sample alice_tag).0)
    × (remove_client_route_config c' alice_tag ≡ (c', false))
remove_client_route_config-ensure_client_route_config_example =
    remove_client_route_config-ensure_client_route_config lower emails sample "alice" alice
      "cascade-de"

remove_unavailable_client_route_config_lem_example :
    let c' = (remove_unavailable_client_route_config sample).0 in
    (all (selects_configured (cascade_tags sample)) (balancers_of c') ≡ true)
    × (all (has_balancer (balancers_of c')) (rules_of c') ≡ true)
    × (filter not_client_rule (rules_of c') ≡ filter not_client_rule (rules_of sample))
    × (filter not_client_balancer (balancers_of c')
        ≡ filter not_client_balancer (balancers_of sample))
remove_unavailable_client_route_config_lem_example =
    remove_unavailable_client_route_config_lem sample

accepted : normalize_region_code lower "RU" ≡ some "RU"
unfolding normalize_region_code is_ascii_alnum strip
accepted = refl

bypass_found : bypass_outbound sample "bypass-home" ≡ some bypass
unfolding bypass_outbound bypass_outbounds is_bypass_tag get
bypass_found = refl

apply_bypass_route_lem_example :
    (c' : Config) × (apply_bypass_route lower lower sample "bypass-home" "RU" ≡ some c')
    × (head_has_tag "direct" (outbounds_of c') ≡ true)
    × (filter (tag_is (geoip_warning_tag "RU")) (outbounds_of c')
        ≡ clone_outbound_with_tag bypass (geoip_warning_tag "RU") ∷ [])
    × (length (filter (warns lower "RU") (rules_of c')) ≡ 1)
    × (all (λ r. not (bypasses lower "RU" r)) (rules_of c') ≡ true)
    × (any is_private_block_rule (rules_of c') ≡ true)
    × (domain_strategy_of c' ≡ str "IPOnDemand")
apply_bypass_route_lem_example =
    apply_bypass_route_lem lower lower sample "bypass-home" "RU" "RU" bypass refl accepted
      bypass_found

active : (active_cascade_tag sample == "") ≡ false
unfolding active_cascade_tag current_catchall_tag last_catchall is_catchall_rule cascade_outbound
    cascade_outbounds is_cascade_tag get has_key
active = refl

active_stripped : strip (active_cascade_tag sample) ≡ active_cascade_tag sample
unfolding strip active_cascade_tag current_catchall_tag last_catchall is_catchall_rule
    cascade_outbound cascade_outbounds is_cascade_tag get has_key
active_stripped = refl

-- One client has chosen a cascade that is gone, the other one has chosen none.
abbrev route_db : RouteDb
route_db = record {
  clients = ("alice", ("selectedCascadeTag", str "cascade-us") ∷ []) ∷ ("bob", []) ∷ [];
  cascade_routes = [];
}

assign_default_client_routes-chooses_example :
    all (chooses (cascade_tags sample)) (assign_default_client_routes sample route_db).0.clients
    ≡ true
assign_default_client_routes-chooses_example =
    assign_default_client_routes-chooses sample route_db active active_stripped
