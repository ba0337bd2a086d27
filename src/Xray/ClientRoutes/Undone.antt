-- ===== src/Xray/ClientRoutes/Undone.antt =====
-- What `ensure_client_route_config` does to the rules and balancers is undone by the removal.
use xray_vps_manager.Base.{
  true, length, nat_eq, false, ℕ, ◌≡◌, refl, ◌∙◌, String, Bool, not, ◌&&◌, List, arith, filter_idem,
  is_some, Bool-cases, inl, inr, ◌==◌,
}
use xray_vps_manager.Json.{Object}
use xray_vps_manager.Xray.Config.{
  Config, rules_of, balancers_of, tag_is, routing_rules, routing_balancers,
}
use xray_vps_manager.Xray.Cascade.{cascade_outbound}
use xray_vps_manager.Xray.ClientRoutes.{
  Ensured, without_tag, without_balancer_tag, chosen_tag, client_balancer_tag,
  client_routes_allowed, remove_client_route_config, write_client_route, ensure_client_route_config,
}
use xray_vps_manager.Xray.ClientRoutes.Place.{targets_balancer, write_client_route_lem}

removed_rules :
    (c : Config) (tag : String)
    → rules_of (remove_client_route_config c tag).0 ≡ without_balancer_tag tag (rules_of c)
unfolding remove_client_route_config routing_rules routing_balancers
removed_rules c tag = refl

removed_balancers :
    (c : Config) (tag : String)
    → balancers_of (remove_client_route_config c tag).0 ≡ without_tag tag (balancers_of c)
unfolding remove_client_route_config routing_rules routing_balancers
removed_balancers c tag = refl

nat_eq_refl : (n : ℕ) → nat_eq n n ≡ true
nat_eq_refl n = ground arith

-- A removal after a removal changes nothing and reports no change.
remove_client_route_config_idem :
    (c : Config) (tag : String)
    → let c' = (remove_client_route_config c tag).0 in
      remove_client_route_config c' tag ≡ (c', false)
unfolding remove_client_route_config routing_rules routing_balancers
remove_client_route_config_idem c tag =
    rw
      (
        filter_idem (λ r. not (targets_balancer tag r)) (rules_of c),
        filter_idem (λ b. not (tag_is tag b)) (balancers_of c),
        nat_eq_refl (length (without_balancer_tag tag (rules_of c))),
        nat_eq_refl (length (without_tag tag (balancers_of c))),
      )
      refl

module _ (lower : String → String) (emails : String → Object → List String) (c : Config)
    (name : String) (entry : Object) (selected_tag : String) where
  abbrev before : Config
  before = routing_rules c

  abbrev chosen : String
  chosen = chosen_tag before entry selected_tag

  abbrev tag : String
  tag = client_balancer_tag lower emails name entry

  abbrev result : Ensured
  result = ensure_client_route_config lower emails c name entry selected_tag

  abbrev is_found : Bool
  is_found = not (chosen == "") && is_some (cascade_outbound before chosen)

  -- The rules and balancers that are not the client's are the same after each branch.
  abbrev Others : Config → Type 0
  Others c' =
      (without_balancer_tag tag (rules_of c') ≡ without_balancer_tag tag (rules_of c))
      × (without_tag tag (balancers_of c') ≡ without_tag tag (balancers_of c))

  Others-remove : Others (remove_client_route_config before tag).0
  unfolding remove_client_route_config routing_rules routing_balancers
  Others-remove = (
    filter_idem (λ r. not (targets_balancer tag r)) (rules_of c),
    filter_idem (λ b. not (tag_is tag b)) (balancers_of c),
  )

  Others-write : Others (write_client_route before (emails name entry) tag chosen)
  unfolding routing_rules
  Others-write =
      let (p, q, rules, b, balancers) =
        write_client_route_lem before (emails name entry) tag chosen in
      (rules, balancers)

  Others-same : Others before
  unfolding routing_rules
  Others-same = (refl, refl)

  Others-ensure : Others result.config
  unfolding ensure_client_route_config
  Others-ensure = elim (Bool-cases (client_routes_allowed before)) [
    | inr refused ↦ rw refused Others-remove
    | inl allowed ↦ elim (Bool-cases is_found) [
      | inl found ↦ rw (allowed, found) Others-write
      | inr unknown ↦ rw (allowed, unknown) Others-same
    ]
  ]

  -- Whatever `ensure_client_route_config` does for a client, in each of its branches, a removal of the
  -- client's route afterwards leaves the same rules and the same balancers, in the same order, as the
  -- removal would have left before. A second removal then leaves the configuration as it is and
  -- reports no change.
  pub remove_client_route_config-ensure_client_route_config :
      let (c', changed) = remove_client_route_config result.config tag in
      (rules_of c' ≡ rules_of (remove_client_route_config c tag).0)
      × (balancers_of c' ≡ balancers_of (remove_client_route_config c tag).0)
      × (remove_client_route_config c' tag ≡ (c', false))
  remove_client_route_config-ensure_client_route_config = (
    removed_rules result.config tag ∙ Others-ensure.0 ∙ rw (removed_rules c tag),
    removed_balancers result.config tag ∙ Others-ensure.1 ∙ rw (removed_balancers c tag),
    remove_client_route_config_idem result.config tag,
  )
