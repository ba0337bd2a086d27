-- ===== src/Xray/ClientRoutes/Place.antt =====
-- Where `ensure_client_route_config` puts a client's rule, and what its balancer selects.
use xray_vps_manager.Base.{
  ◌≡◌, ◌∙◌, ap, Bool-cases, inl, inr, filter-insert_new, filter-insert_before, filter_idem, String,
  Bool, true, false, not, List, [], ◌∷◌, arith, filter, precedes, precedes-insert_before, ◌==◌,
  eq_iff, find, some,
}
use xray_vps_manager.Json.{str, Object, get, put, texts, get-put, get-remove, is_text}
use xray_vps_manager.Xray.Config.{
  Config, rules_of, balancers_of, tag_is, routing_rules, routing_balancers,
}
use xray_vps_manager.Xray.Cascade.{is_catchall_rule, cascade_outbound}
use xray_vps_manager.Xray.ClientRoutes.{
  client_rule, insert_client_rule_before_catchall, upsert_balancer, upsert_balancer_list,
  api_and_routing_same, write_client_route, chosen_tag, client_balancer_tag,
  ensure_client_route_config, client_routes_allowed, ensure_routing_service, select_only,
  without_tag, without_balancer_tag,
}

abbrev pub targets_balancer : String → Object → Bool
targets_balancer tag r = is_text tag (get r "balancerTag")

balancer_tag-client_rule :
    (emails : List String) (tag : String) → targets_balancer tag (client_rule emails tag) ≡ true
unfolding get
balancer_tag-client_rule emails tag = ground (arith, eq_iff tag tag)

tag-select_only :
    (selected : String) (b : Object) → get (select_only selected b) "tag" ≡ get b "tag"
tag-select_only selected b = simp (get-remove, get-put)

selector-select_only :
    (selected : String) (b : Object)
    → get (select_only selected b) "selector" ≡ texts (selected ∷ [])
selector-select_only selected b = simp (get-remove, get-put)

tag_is-select_only :
    (tag selected : String) (b : Object) → tag_is tag (select_only selected b) ≡ tag_is tag b
tag_is-select_only tag selected b = ap (is_text tag) (tag-select_only selected b)

new-tag : (tag : String) → tag_is tag (("tag", str tag) ∷ []) ≡ true
unfolding get
new-tag tag = ground (arith, eq_iff tag tag)

find-upsert :
    (tag selected : String) (bs : List Object)
    → (b : Object) × (find (tag_is tag) (upsert_balancer_list tag selected bs) ≡ some b)
      × (get b "selector" ≡ texts (selected ∷ []))
unfolding upsert_balancer_list
find-upsert tag selected [] =
    let b : Object = ("tag", str tag) ∷ [] in
    (
      select_only selected b,
      rw (tag_is-select_only tag selected b ∙ new-tag tag),
      selector-select_only selected b,
    )
find-upsert tag selected (b ∷ bs) = elim (Bool-cases (tag_is tag b)) [
  | inl e ↦ (
    select_only selected b,
    rw e (rw (tag_is-select_only tag selected b ∙ e)),
    selector-select_only selected b,
  )
  | inr e ↦ let (x, p, q) = find-upsert tag selected bs in (x, rw e (rw e p), q)
]

others-upsert :
    (tag selected : String) (bs : List Object)
    → without_tag tag (upsert_balancer_list tag selected bs) ≡ without_tag tag bs
unfolding upsert_balancer_list
others-upsert tag selected [] =
    rw (tag_is-select_only tag selected (("tag", str tag) ∷ []) ∙ new-tag tag)
others-upsert tag selected (b ∷ bs) =
    ground (arith, others-upsert tag selected bs, tag_is-select_only tag selected b)

routing-ensure_routing_service : (c : Config) → (ensure_routing_service c).0.routing ≡ c.routing
unfolding ensure_routing_service
routing-ensure_routing_service c = ground arith

-- After the four edits for a client the rule for its balancer stands before the first catch-all, is
-- the only rule for this balancer, and names the client's emails; the rules for other targets are
-- the same in the same order; the balancer selects the chosen cascade alone, and the balancers with
-- other tags are the same in the same order.
pub write_client_route_lem :
    (c : Config) (emails : List String) (tag selected : String)
    → let c' = write_client_route c emails tag selected in
      (precedes (targets_balancer tag) is_catchall_rule (rules_of c') ≡ true)
      × (filter (targets_balancer tag) (rules_of c') ≡ client_rule emails tag ∷ [])
      × (without_balancer_tag tag (rules_of c') ≡ without_balancer_tag tag (rules_of c))
      × ((b : Object) × (find (tag_is tag) (balancers_of c') ≡ some b)
          × (get b "selector" ≡ texts (selected ∷ [])))
      × (without_tag tag (balancers_of c') ≡ without_tag tag (balancers_of c))
unfolding write_client_route insert_client_rule_before_catchall upsert_balancer routing_rules
    routing_balancers
write_client_route_lem c emails tag selected =
    let ours = balancer_tag-client_rule emails tag in
    let rule = client_rule emails tag in
    let rules = rules_of c in
    rw (routing-ensure_routing_service c) (
      precedes-insert_before (targets_balancer tag) is_catchall_rule rule
          (without_balancer_tag tag rules) ours,
      filter-insert_new (targets_balancer tag) is_catchall_rule rule rules ours,
      filter-insert_before (λ r. not (targets_balancer tag r)) is_catchall_rule rule
            (without_balancer_tag tag rules) (ap not ours)
          ∙ filter_idem (λ r. not (targets_balancer tag r)) rules,
      find-upsert tag selected (balancers_of c),
      others-upsert tag selected (balancers_of c),
    )

module _ (lower : String → String) (emails : String → Object → List String) where
  ensured_allowed :
      (c : Config) (name : String) (entry : Object) (selected_tag : String) (outbound : Object)
      → let d = routing_rules c in
        let chosen = chosen_tag d entry selected_tag in
        let tag = client_balancer_tag lower emails name entry in
        let c' = write_client_route d (emails name entry) tag chosen in
        client_routes_allowed d ≡ true
        → (chosen == "") ≡ false
        → cascade_outbound d chosen ≡ some outbound
        → ensure_client_route_config lower emails c name entry selected_tag ≡ record {
          config = c';
          entry = put entry "selectedCascadeTag" (str chosen);
          changed = not (api_and_routing_same d c');
        }
  unfolding ensure_client_route_config
  ensured_allowed c name entry selected_tag outbound allowed named found =
      rw (allowed, named, found)

  -- If client routes are allowed and the chosen cascade is configured, `ensure_client_route_config`
  -- leaves one rule for the client's balancer, before the first catch-all and over the client's
  -- emails; the rules for other targets are the same in the same order; the balancer selects the
  -- chosen cascade alone, the balancers with other tags are the same in the same order; and the
  -- entry records the chosen cascade.
  pub ensure_client_route_config_allowed :
      (c : Config) (name : String) (entry : Object) (selected_tag : String) (outbound : Object)
      → let d = routing_rules c in
        let chosen = chosen_tag d entry selected_tag in
        let tag = client_balancer_tag lower emails name entry in
        let result = ensure_client_route_config lower emails c name entry selected_tag in
        let c' = result.config in
        client_routes_allowed d ≡ true
        → (chosen == "") ≡ false
        → cascade_outbound d chosen ≡ some outbound
        → (precedes (targets_balancer tag) is_catchall_rule (rules_of c') ≡ true)
          × (filter (targets_balancer tag) (rules_of c') ≡ client_rule (emails name entry) tag ∷ [])
          × (without_balancer_tag tag (rules_of c') ≡ without_balancer_tag tag (rules_of c))
          × ((b : Object) × (find (tag_is tag) (balancers_of c') ≡ some b)
              × (get b "selector" ≡ texts (chosen ∷ [])))
          × (without_tag tag (balancers_of c') ≡ without_tag tag (balancers_of c))
          × (get result.entry "selectedCascadeTag" ≡ str chosen)
  unfolding routing_rules
  ensure_client_route_config_allowed c name entry selected_tag outbound allowed named found =
      let d = routing_rules c in
      let chosen = chosen_tag d entry selected_tag in
      let (a, b, e, f, g) =
        write_client_route_lem d (emails name entry) (client_balancer_tag lower emails name entry)
          chosen in
      rw (ensured_allowed c name entry selected_tag outbound allowed named found)
        (a, b, e, f, g, get-put entry "selectedCascadeTag" (str chosen) "selectedCascadeTag")
