-- ===== src/Xray/Bypass/Applied.antt =====
-- `apply_bypass_route` of bypass.py, as a whole.
use xray_vps_manager.Xray.Cascade
use xray_vps_manager.Xray.Bypass.{
  rule_values, bypass_outbound, normalize_region_code, geoip_rule_value, geoip_warning_tag,
  clone_outbound_with_tag, ensure_private_block_rule, remove_direct_bypass_region_rules,
  ensure_geoip_warning_outbound, remove_tagged_outbounds, ensure_geoip_warning_rule,
  insert_before_client_or_catchall, is_private_block_rule, private_block_rule, is_api_rule,
}
use xray_vps_manager.Xray.Bypass.Route.{apply_bypass_route, set_domain_strategy, domain_strategy_of}
use xray_vps_manager.Base.{
  ◌≡◌, refl, ◌∙◌, ap, String, true, not, ◌∷◌, [], arith, filter, all, any, some, length,
  filter_full, all-filter, any-insert_before,
}
use xray_vps_manager.Json.{Object, str, get}
use xray_vps_manager.Xray.Config.{Config, outbounds_of, rules_of, routing_rules, tag_is}
use xray_vps_manager.Xray.Cascade.{ensure_direct_first}
use xray_vps_manager.Xray.Cascade.Direct.{head_has_tag, ensure_direct_first_lem}
use xray_vps_manager.Xray.Bypass.Outbounds.{warned-only, warned-direct}
use xray_vps_manager.Xray.Bypass.Warning.{
  warns, bypasses, warned_rules-one, warned_rules-bypasses, warned_rules-private,
  private-not_bypasses, any-filter,
}

rules-remove_direct :
    (lower : String → String) (c : Config) (region : String)
    → rules_of (remove_direct_bypass_region_rules lower c region).0
      ≡ filter (λ r. not (bypasses lower region r)) (rules_of c)
unfolding remove_direct_bypass_region_rules routing_rules
rules-remove_direct lower c region =
    ground (arith, filter_full (λ r. not (bypasses lower region r)) (rules_of c))

outbounds-remove_direct :
    (lower : String → String) (c : Config) (region : String)
    → outbounds_of (remove_direct_bypass_region_rules lower c region).0 ≡ outbounds_of c
unfolding remove_direct_bypass_region_rules routing_rules
outbounds-remove_direct lower c region = ground arith

rules-ensure_geoip_warning_outbound :
    (c : Config) (region : String) (source : Object)
    → rules_of (ensure_geoip_warning_outbound c region source) ≡ rules_of c
unfolding ensure_geoip_warning_outbound remove_tagged_outbounds
rules-ensure_geoip_warning_outbound c region source = ground arith

outbounds-ensure_geoip_warning_rule :
    (lower : String → String) (c : Config) (region : String)
    → outbounds_of (ensure_geoip_warning_rule lower c region) ≡ outbounds_of c
unfolding ensure_geoip_warning_rule insert_before_client_or_catchall routing_rules
outbounds-ensure_geoip_warning_rule lower c region = ground arith

outbounds-ensure_private_block_rule :
    (c : Config) → outbounds_of (ensure_private_block_rule c) ≡ outbounds_of c
unfolding ensure_private_block_rule routing_rules
outbounds-ensure_private_block_rule c = ground arith

private_block_rule-private : is_private_block_rule private_block_rule ≡ true
unfolding get rule_values Cascade.rule_values
private_block_rule-private = refl

has_private-ensure :
    (c : Config) → any is_private_block_rule (rules_of (ensure_private_block_rule c)) ≡ true
unfolding ensure_private_block_rule routing_rules
has_private-ensure c = ground (
  arith,
  private_block_rule-private,
  any-insert_before is_private_block_rule (λ r. not (is_api_rule r)) private_block_rule
      (rules_of c),
)

-- The bypass route that `apply_bypass_route` writes, for a code that is accepted as `region`.
module _ (lower upper : String → String) (c : Config) (tag region_code region : String)
    (source : Object) where
  abbrev base : Config
  base = ensure_private_block_rule (ensure_direct_first c).0

  abbrev cleaned : Config
  cleaned = (remove_direct_bypass_region_rules lower base region).0

  abbrev with_outbound : Config
  with_outbound = ensure_geoip_warning_outbound cleaned region source

  abbrev routed : Config
  routed = ensure_geoip_warning_rule lower with_outbound region

  outbounds-cleaned : outbounds_of cleaned ≡ outbounds_of (ensure_direct_first c).0
  outbounds-cleaned =
      outbounds-remove_direct lower base region
      ∙ outbounds-ensure_private_block_rule (ensure_direct_first c).0

  cleaned-direct : head_has_tag "direct" (outbounds_of cleaned) ≡ true
  cleaned-direct = rw outbounds-cleaned (ensure_direct_first_lem c).0

  cleaned-bypasses : all (λ r. not (bypasses lower region r)) (rules_of with_outbound) ≡ true
  cleaned-bypasses =
      rw
        (
          rules-ensure_geoip_warning_outbound cleaned region source,
          rules-remove_direct lower base region,
        )
        (all-filter (λ r. not (bypasses lower region r)) (rules_of base))

  cleaned-private : any is_private_block_rule (rules_of with_outbound) ≡ true
  cleaned-private =
      rw
        (
          rules-ensure_geoip_warning_outbound cleaned region source,
          rules-remove_direct lower base region,
        )
        (any-filter is_private_block_rule (λ r. not (bypasses lower region r)) (rules_of base)
          (λ r h. ap not (private-not_bypasses lower region r h))
          (has_private-ensure (ensure_direct_first c).0))

  outbounds-routed : outbounds_of routed ≡ outbounds_of with_outbound
  outbounds-routed = outbounds-ensure_geoip_warning_rule lower with_outbound region

  -- If the code is accepted and a bypass outbound has the tag, then `apply_bypass_route` returns;
  -- the first outbound of the result is direct; the copy of the bypass outbound is the only outbound
  -- with the region's warning tag; exactly one rule warns of the region; no rule of the region goes
  -- to a bypass outbound; a rule blocks private addresses; and the domain strategy is IPOnDemand.
  -- It is assumed that lowering leaves the value of the region's rule alone.
  pub apply_bypass_route_lem :
      lower (geoip_rule_value lower region) ≡ geoip_rule_value lower region
      → normalize_region_code upper region_code ≡ some region
      → bypass_outbound c tag ≡ some source
      → (c' : Config) × (apply_bypass_route lower upper c tag region_code ≡ some c')
        × (head_has_tag "direct" (outbounds_of c') ≡ true)
        × (filter (tag_is (geoip_warning_tag region)) (outbounds_of c')
            ≡ clone_outbound_with_tag source (geoip_warning_tag region) ∷ [])
        × (length (filter (warns lower region) (rules_of c')) ≡ 1)
        × (all (λ r. not (bypasses lower region r)) (rules_of c') ≡ true)
        × (any is_private_block_rule (rules_of c') ≡ true)
        × (domain_strategy_of c' ≡ str "IPOnDemand")
  unfolding apply_bypass_route
  apply_bypass_route_lem low code found = (
    set_domain_strategy routed "IPOnDemand",
    rw (code, found, apply_bypass_route),
    rw outbounds-routed (warned-direct cleaned region source cleaned-direct),
    rw outbounds-routed (warned-only cleaned region source),
    warned_rules-one lower region with_outbound low,
    warned_rules-bypasses lower region with_outbound cleaned-bypasses,
    warned_rules-private lower region with_outbound cleaned-private,
    refl,
  )
