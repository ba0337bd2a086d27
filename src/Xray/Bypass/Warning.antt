-- ===== src/Xray/Bypass/Warning.antt =====
-- The rules after `apply_bypass_route` (bypass.py).
use xray_vps_manager.Base.Prefix.{prefix_clash}
use xray_vps_manager.Base.{
  filter-insert_only, all-not-any, &&-right, &&-left, any-insert_before, filter_none, ◌≡◌, refl,
  ◌∙◌, ap, String, Bool, true, false, not, ◌||◌, List, [], ◌∷◌, arith, filter, eq_iff, Bool-cases,
  inl, inr, all, any, insert_before, all-insert_before, if◌then◌else◌, ◌==◌, length,
}
use xray_vps_manager.Xray.Bypass.{
  insert_before_client_or_catchall, ensure_geoip_warning_rule, geoip_rule_value, is_later_rule,
  rule_values, is_bypass_tag, geoip_warning_tag, rule_targets_region,
  is_geoip_warning_rule_for_region, is_direct_bypass_region_rule, keep_first_warning,
  is_private_block_rule, warning_rule,
}
use xray_vps_manager.Json.{
  is_text_sound, Json, Object, get, put, get-put, str, is_text, text_or_empty-str,
}
use xray_vps_manager.Xray.Cascade
use xray_vps_manager.Xray.Bypass.Outbounds.{text-not_warning}
use text.Mathlib.TextPositions.{starts_with-append}
use xray_vps_manager.Xray.Config.{Config, rules_of, routing_rules, outbound_tag}

warning-not_bypass : (region : String) → is_bypass_tag (str (geoip_warning_tag region)) ≡ false
unfolding is_bypass_tag
warning-not_bypass region = rw (text_or_empty-str (geoip_warning_tag region)) (
    prefix_clash (geoip_warning_tag region) "geoip-warning-" "bypass-"
      (starts_with-append "geoip-warning-" region) refl refl (omega arith))

rule_values-put_tag :
    (r : Object) (v : Json) (key : String)
    → ("outboundTag" == key) ≡ false
    → rule_values (put r "outboundTag" v) key ≡ rule_values r key
unfolding rule_values Cascade.rule_values
rule_values-put_tag r v key h = ground (arith, get-put r "outboundTag" v key)

module _ (lower : String → String) (region : String) where
  abbrev pub warns : Object → Bool
  warns = is_geoip_warning_rule_for_region lower region

  abbrev pub bypasses : Object → Bool
  bypasses = is_direct_bypass_region_rule lower region

  -- A rule that is retargeted to the warning still warns, and bypasses nothing.
  warns-put :
      (r : Object)
      → warns r ≡ true
      → warns (put r "outboundTag" (str (geoip_warning_tag region))) ≡ true
  unfolding is_geoip_warning_rule_for_region rule_targets_region
  warns-put r h =
      let v = str (geoip_warning_tag region) in
      ground (
        arith,
        rule_values-put_tag r v "ip" refl,
        get-put r "outboundTag" v "outboundTag",
        eq_iff (geoip_warning_tag region) (geoip_warning_tag region),
      )

  bypasses-put :
      (r : Object) → bypasses (put r "outboundTag" (str (geoip_warning_tag region))) ≡ false
  unfolding is_direct_bypass_region_rule
  bypasses-put r =
      let v = str (geoip_warning_tag region) in
      ground (arith, get-put r "outboundTag" v "outboundTag", warning-not_bypass region)

  keep_first-found :
      (found : Bool) (rules : List Object)
      → (keep_first_warning lower region found rules).1 ≡ (found || any warns rules)
  unfolding keep_first_warning
  keep_first-found found [] = ground arith
  keep_first-found found (r ∷ rules) = ground (arith, keep_first-found (found || warns r) rules)

  keep_first-later :
      (rules : List Object)
      → all (λ r. not (warns r)) (keep_first_warning lower region true rules).0 ≡ true
  unfolding keep_first_warning
  keep_first-later [] = refl
  keep_first-later (r ∷ rules) = ground (arith, keep_first-later rules)

  keep_first-count :
      (rules : List Object)
      → length (filter warns (keep_first_warning lower region false rules).0)
        ≡ (if any warns rules then 1 else 0)
  unfolding keep_first_warning
  keep_first-count [] = refl
  keep_first-count (r ∷ rules) =
      let v = str (geoip_warning_tag region) in
      ground (
        arith,
        keep_first-count rules,
        keep_first-later rules,
        warns-put r,
        filter_none warns (keep_first_warning lower region true rules).0,
      )

  keep_first_none :
      (rules : List Object)
      → all (λ r. not (warns r)) rules ≡ true
      → (keep_first_warning lower region false rules).0 ≡ rules
  unfolding keep_first_warning
  keep_first_none [] h = refl
  keep_first_none (r ∷ rules) h = ground (arith, keep_first_none rules)

  -- A test that no warning passes, before or after it is retargeted, is kept for the other rules.
  keep_first-any :
      (p : Object → Bool) (found : Bool) (rules : List Object)
      → ((r : Object) → p r ≡ true → warns r ≡ false)
      → any p rules ≡ true
      → any p (keep_first_warning lower region found rules).0 ≡ true
  unfolding keep_first_warning
  keep_first-any p found [] apart h = h
  keep_first-any p found (r ∷ rules) apart h =
      ground (arith, keep_first-any p (found || warns r) rules apart, apart r)

  keep_first-bypasses :
      (found : Bool) (rules : List Object)
      → all (λ r. not (bypasses r)) rules ≡ true
      → all (λ r. not (bypasses r)) (keep_first_warning lower region found rules).0 ≡ true
  unfolding keep_first_warning
  keep_first-bypasses found [] h = refl
  keep_first-bypasses found (r ∷ rules) h =
      ground (arith, keep_first-bypasses (found || warns r) rules, bypasses-put r)

  warning_rule-bypasses : bypasses (warning_rule lower region) ≡ false
  unfolding is_direct_bypass_region_rule get
  warning_rule-bypasses = rw (warning-not_bypass region)

  -- The rule that is added warns, if lowering leaves the rule's value alone.
  warning_rule-warns :
      lower (geoip_rule_value lower region) ≡ geoip_rule_value lower region
      → warns (warning_rule lower region) ≡ true
  unfolding is_geoip_warning_rule_for_region rule_targets_region rule_values Cascade.rule_values get
  warning_rule-warns h = ground (
    arith,
    h,
    eq_iff (geoip_warning_tag region) (geoip_warning_tag region),
    eq_iff (geoip_rule_value lower region) (geoip_rule_value lower region),
  )

private-blocked : (r : Object) → is_private_block_rule r ≡ true → outbound_tag r ≡ str "blocked"
private-blocked r h =
    is_text_sound "blocked" (outbound_tag r)
      (&&-left _ _ (&&-right (is_text "field" (get r "type")) _ h))

pub private-not_bypasses :
    (lower : String → String) (region : String) (r : Object)
    → is_private_block_rule r ≡ true
    → bypasses lower region r ≡ false
unfolding is_direct_bypass_region_rule is_bypass_tag
private-not_bypasses lower region r h = rw (private-blocked r h)

private-not_warns :
    (lower : String → String) (region : String) (r : Object)
    → is_private_block_rule r ≡ true
    → warns lower region r ≡ false
unfolding is_geoip_warning_rule_for_region
private-not_warns lower region r h =
    rw (private-blocked r h, text-not_warning "blocked" region refl)

pub any-filter :
    (p q : Object → Bool) (rules : List Object)
    → ((r : Object) → p r ≡ true → q r ≡ true)
    → any p rules ≡ true
    → any p (filter q rules) ≡ true
any-filter p q [] sub h = h
any-filter p q (r ∷ rules) sub h = ground (arith, any-filter p q rules sub, sub r)

-- The rules after `ensure_geoip_warning_rule`.
module _ (lower : String → String) (region : String) (c : Config) where
  abbrev kept : List Object
  kept = (keep_first_warning lower region false (rules_of c)).0

  abbrev warned_rules : List Object
  warned_rules = rules_of (ensure_geoip_warning_rule lower c region)

  warned_rules-value : warned_rules ≡ (
      if any (warns lower region) (rules_of c)
      then kept
      else insert_before is_later_rule (warning_rule lower region) kept)
  unfolding ensure_geoip_warning_rule insert_before_client_or_catchall routing_rules
  warned_rules-value = ground (arith, keep_first-found lower region false (rules_of c))

  pub warned_rules-one :
      lower (geoip_rule_value lower region) ≡ geoip_rule_value lower region
      → length (filter (warns lower region) warned_rules) ≡ 1
  warned_rules-one h = elim (Bool-cases (any (warns lower region) (rules_of c))) [
    | inl e ↦ rw (warned_rules-value, e) (keep_first-count lower region (rules_of c) ∙ rw e)
    | inr e ↦
        let free = all-not-any (warns lower region) (rules_of c) ∙ ap not e in
        rw (warned_rules-value, e, keep_first_none lower region (rules_of c) free)
          (ap length (
            filter-insert_only (warns lower region) is_later_rule (warning_rule lower region)
              (rules_of c) (warning_rule-warns lower region h) free))
  ]

  pub warned_rules-bypasses :
      all (λ r. not (bypasses lower region r)) (rules_of c) ≡ true
      → all (λ r. not (bypasses lower region r)) warned_rules ≡ true
  warned_rules-bypasses h = rw warned_rules-value (
      ground (
        arith,
        keep_first-bypasses lower region false (rules_of c) h,
        warning_rule-bypasses lower region,
        all-insert_before (λ r. not (bypasses lower region r)) is_later_rule
            (warning_rule lower region) kept,
      ))

  pub warned_rules-private :
      any is_private_block_rule (rules_of c) ≡ true → any is_private_block_rule warned_rules ≡ true
  warned_rules-private h = rw warned_rules-value (
      ground (
        arith,
        keep_first-any lower region is_private_block_rule false (rules_of c)
            (private-not_warns lower region) h,
        any-insert_before is_private_block_rule is_later_rule (warning_rule lower region) kept,
      ))
