-- ===== src/Xray/Bypass/Route.antt =====
-- The bypass route of a country, set and taken back, and the domain strategy that it needs
-- (xray_vps_manager/xray/bypass.py). `lower` and `upper` are Python's `str.lower` and `str.upper`.
use xray_vps_manager.Base.{
  String, Bool, true, false, not, ◌&&◌, ◌||◌, Option, none, some, ◌==◌, starts_with, if◌then◌else◌,
  get_or, any,
}
use xray_vps_manager.Json.{Json, str, Object, text_or_empty, is_text}
use xray_vps_manager.Xray.Config.{Config, rules_of, routing_of, routing_rules, outbound_tag}
use xray_vps_manager.Xray.Cascade.{ensure_direct_first}
use xray_vps_manager.Xray.Bypass.{
  bypass_outbound, ensure_geoip_warning_outbound, ensure_geoip_warning_rule,
  ensure_private_block_rule, is_bypass_tag, is_geoip_warning_tag, normalize_region_code,
  remove_direct_bypass_region_rules, remove_geoip_warning_route, remove_tagged_outbounds,
  rule_values,
}

abbrev pub set_domain_strategy : Config → String → Config
set_domain_strategy c value = record c {
  routing = some (record (routing_of c) { domain_strategy = some (str value) });
}

-- The text of the strategy, as in `str(routing.get("domainStrategy") or "")`.
abbrev pub domain_strategy_of : Config → Json
domain_strategy_of c = get_or (routing_of c).domain_strategy Json.null

module _ (lower upper : String → String) where
  -- `none` is a ValueError: the code is malformed or no bypass outbound has the tag.
  unfoldable pub apply_bypass_route : Config → String → String → Option Config
  apply_bypass_route c tag region_code = elim (normalize_region_code upper region_code) [
    | none ↦ none
    | some region ↦ elim (bypass_outbound c tag) [
      | none ↦ none
      | some source ↦
          let c₁ = ensure_private_block_rule (ensure_direct_first c).0 in
          let c₂ = (remove_direct_bypass_region_rules lower c₁ region).0 in
          let c₃ = ensure_geoip_warning_outbound c₂ region source in
          some (set_domain_strategy (ensure_geoip_warning_rule lower c₃ region) "IPOnDemand")
    ]
  ]

  abbrev is_geoip_dependent_rule : Object → Bool
  is_geoip_dependent_rule rule =
      is_geoip_warning_tag (outbound_tag rule)
      || is_bypass_tag (outbound_tag rule)
        && any (λ v. starts_with (lower v) "geoip:") (rule_values rule "ip")

  unfoldable pub has_geoip_dependent_rules : Config → Bool
  has_geoip_dependent_rules c = any is_geoip_dependent_rule (rules_of c)

  -- `previous` is the value that the environment holds for the earlier strategy, empty if there is
  -- none. The results are the configuration, what the environment holds then, and the flag.
  unfoldable pub restore_geoip_domain_strategy_if_unused : Config → String → Config × String × Bool
  restore_geoip_domain_strategy_if_unused c₀ previous =
      let c = routing_rules c₀ in
      if has_geoip_dependent_rules c
      then (c, previous, false)
      else if not (previous == "")
      then (set_domain_strategy c previous, "", true)
      else if is_text "IPOnDemand" (domain_strategy_of c)
      then (set_domain_strategy c "IPIfNonMatch", "", true)
      else (c, "", false)

  unfoldable pub ensure_geoip_domain_strategy : Config → String → Config × String
  ensure_geoip_domain_strategy c previous =
      let current = text_or_empty (domain_strategy_of c) in
      (
        set_domain_strategy c "IPOnDemand",
        if previous == "" && not (current == "IPOnDemand") then current else previous,
      )

  -- `none` is the ValueError of `normalize_region_code`.
  unfoldable pub disable_bypass_route :
      Config → String → String → Bool → String → Option (Config × String)
  disable_bypass_route c tag region_code remove_outbound previous =
      elim (normalize_region_code upper region_code) [
        | none ↦ none
        | some region ↦
            let c₁ = (remove_geoip_warning_route lower c region).0 in
            let c₂ = (remove_direct_bypass_region_rules lower c₁ region).0 in
            let c₃ = if remove_outbound then (remove_tagged_outbounds c₂ tag).0 else c₂ in
            let (c', env, _) =
              restore_geoip_domain_strategy_if_unused (ensure_direct_first c₃).0 previous in
            some (c', env)
      ]
