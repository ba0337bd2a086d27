-- ===== src/Xray/Blocklist/Order.antt =====
-- `sync_blocklist_rules`: where the active values are blocked.
use xray_vps_manager.Base.{
  ◌≡◌, refl, ◌∙◌, ap, String, Bool, true, false, ◌&&◌, List, [], ◌∷◌, ◌++◌, map, arith, contains,
  any, precedes, precedes-insert_before, precedes-insert_other, get_or, any-append, Option,
  Bool-cases, inl, inr,
}
use xray_vps_manager.Base.Sort.{sorted_set, contains-sorted_set}
use xray_vps_manager.Json.{str, py_str, elements, array, Object, get}
use xray_vps_manager.Xray.Config.{Config, rules_of, outbounds_of, routing_rules, tag_is}
use xray_vps_manager.Xray.Cascade.{is_managed_catchall_rule, ensure_blocked_outbound, blackhole}
use xray_vps_manager.Xray.ClientRoutes.{is_client_rule}
use xray_vps_manager.Xray.Blocklist.{
  Item, is_empty, rule_values, is_blocked_rule, is_geoip_warning_rule, is_later_rule,
  insert_before_geoip_or_catchall, blocked_rule, block_values, block_outbound, sync_blocklist_rules,
  domain_values, ip_values, split_rule_values, remove_values_from_blocked_rules,
}

-- The rule blocks the value under the key.
abbrev pub blocks : String → String → Object → Bool
blocks key value rule = is_blocked_rule rule && contains (rule_values rule key) value

pub texts-elements : (ss : List String) → map py_str (elements (array (map str ss))) ≡ ss
texts-elements [] = refl
texts-elements (s ∷ ss) = ap (λ t. s ∷ t) (texts-elements ss)

blocks-domain_rule :
    (values : List String) (v : String)
    → contains values v ≡ true
    → blocks "domain" v (blocked_rule "domain" values) ≡ true
unfolding rule_values get
blocks-domain_rule values v h = rw (texts-elements values) h

blocks-ip_rule :
    (values : List String) (v : String)
    → contains values v ≡ true
    → blocks "ip" v (blocked_rule "ip" values) ≡ true
unfolding rule_values get
blocks-ip_rule values v h = rw (texts-elements values) h

domain_rule-not_later :
    (values : List String) → is_later_rule (blocked_rule "domain" values) ≡ false
unfolding is_later_rule is_geoip_warning_rule is_client_rule is_managed_catchall_rule get
domain_rule-not_later values = refl

ip_rule-not_later : (values : List String) → is_later_rule (blocked_rule "ip" values) ≡ false
unfolding is_later_rule is_geoip_warning_rule is_client_rule is_managed_catchall_rule get
ip_rule-not_later values = refl

pub not-empty_of_contains :
    (values : List String) (v : String) → contains values v ≡ true → is_empty values ≡ false
not-empty_of_contains [] v h = ground arith
not-empty_of_contains (w ∷ values) v h = refl

-- Blocking addresses keeps what stands before the later rules.
block_ips-keeps :
    (q : Object → Bool) (values : List String) (c : Config)
    → precedes q is_later_rule (rules_of c) ≡ true
    → precedes q is_later_rule (rules_of (block_values "ip" values c)) ≡ true
unfolding insert_before_geoip_or_catchall routing_rules
block_ips-keeps q [] c h = h
block_ips-keeps q (v ∷ vs) c h =
    precedes-insert_other q is_later_rule is_later_rule (blocked_rule "ip" (v ∷ vs)) (rules_of c)
      (ip_rule-not_later (v ∷ vs)) h

block_domains-puts :
    (values : List String) (v : String) (c : Config)
    → contains values v ≡ true
    → precedes (blocks "domain" v) is_later_rule (rules_of (block_values "domain" values c)) ≡ true
unfolding insert_before_geoip_or_catchall routing_rules
block_domains-puts [] v c h = ground arith
block_domains-puts (w ∷ ws) v c h =
    precedes-insert_before (blocks "domain" v) is_later_rule (blocked_rule "domain" (w ∷ ws))
      (rules_of c) (blocks-domain_rule (w ∷ ws) v h)

block_ips-puts :
    (values : List String) (v : String) (c : Config)
    → contains values v ≡ true
    → precedes (blocks "ip" v) is_later_rule (rules_of (block_values "ip" values c)) ≡ true
unfolding insert_before_geoip_or_catchall routing_rules
block_ips-puts [] v c h = ground arith
block_ips-puts (w ∷ ws) v c h =
    precedes-insert_before (blocks "ip" v) is_later_rule (blocked_rule "ip" (w ∷ ws)) (rules_of c)
      (blocks-ip_rule (w ∷ ws) v h)

outbounds-block_values :
    (key : String) (values : List String) (c : Config)
    → outbounds_of (block_values key values c) ≡ outbounds_of c
unfolding insert_before_geoip_or_catchall routing_rules
outbounds-block_values key [] c = refl
outbounds-block_values key (v ∷ vs) c = refl

has_blocked-ensure :
    (c : Config) → any (tag_is "blocked") (outbounds_of (ensure_blocked_outbound c)) ≡ true
unfolding ensure_blocked_outbound
has_blocked-ensure c = elim (Bool-cases (any (tag_is "blocked") (outbounds_of c))) [
  | inl e ↦ rw e e
  | inr e ↦
      rw e (
        any-append (tag_is "blocked") (outbounds_of c) (blackhole ∷ []) ∙ rw e (unfold get in refl))
]

module _ (lower : String → String) (c : Config) (active : List Item) (known : Option (List Item))
    (removed : List Item) where
  abbrev cleared : Config
  cleared = (remove_values_from_blocked_rules lower c (get_or known active ++ removed)).0

  abbrev domains : List String
  domains = sorted_set (domain_values lower active)

  abbrev ips : List String
  ips = sorted_set (ip_values lower active)

  abbrev with_outbound : Config
  with_outbound = block_outbound domains ips cleared

  abbrev with_domains : Config
  with_domains = block_values "domain" domains with_outbound

  outbounds-sync_blocklist_rules :
      outbounds_of (sync_blocklist_rules lower c active known removed).0
      ≡ outbounds_of with_outbound
  unfolding sync_blocklist_rules split_rule_values
  outbounds-sync_blocklist_rules =
      outbounds-block_values "ip" ips with_domains
      ∙ outbounds-block_values "domain" domains with_outbound

  -- Each active domain or mask is blocked by a rule that stands before every GeoIP warning, client
  -- route and managed catch-all, and the outbound `blocked` is there.
  pub sync_blocklist_rules-blocks_domain :
      (v : String)
      → let c' = (sync_blocklist_rules lower c active known removed).0 in
        contains (domain_values lower active) v ≡ true
        → (precedes (blocks "domain" v) is_later_rule (rules_of c') ≡ true)
          × (any (tag_is "blocked") (outbounds_of c') ≡ true)
  unfolding sync_blocklist_rules split_rule_values
  sync_blocklist_rules-blocks_domain v h =
      let listed = contains-sorted_set v (domain_values lower active) ∙ h in
      (
        block_ips-keeps (blocks "domain" v) ips with_domains
            (block_domains-puts domains v with_outbound listed),
        rw (outbounds-sync_blocklist_rules, not-empty_of_contains domains v listed)
            (has_blocked-ensure cleared),
      )

  -- Each active address or network is blocked by a rule that stands before every GeoIP warning,
  -- client route and managed catch-all, and the outbound `blocked` is there.
  pub sync_blocklist_rules-blocks_ip :
      (v : String)
      → let c' = (sync_blocklist_rules lower c active known removed).0 in
        contains (ip_values lower active) v ≡ true
        → (precedes (blocks "ip" v) is_later_rule (rules_of c') ≡ true)
          × (any (tag_is "blocked") (outbounds_of c') ≡ true)
  unfolding sync_blocklist_rules split_rule_values
  sync_blocklist_rules-blocks_ip v h =
      let listed = contains-sorted_set v (ip_values lower active) ∙ h in
      (
        block_ips-puts ips v with_domains listed,
        rw outbounds-sync_blocklist_rules
            (ground (arith, not-empty_of_contains ips v listed, has_blocked-ensure cleared)),
      )
