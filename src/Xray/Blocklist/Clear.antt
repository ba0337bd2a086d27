-- ===== src/Xray/Blocklist/Clear.antt =====
-- `sync_blocklist_rules`: what no longer is blocked, and what is left alone.
use xray_vps_manager.Base.Sort.{contains-sorted_set, sorted_set}
use xray_vps_manager.Base.{
  ap, ◌≡◌, refl, ◌∙◌, String, Bool, true, false, not, ◌&&◌, List, [], ◌∷◌, arith, contains, all,
  filter, ◌==◌, Option, all-insert_before, filter-insert_before, get_or, ◌++◌,
}
use xray_vps_manager.Json.{Object, get}
use xray_vps_manager.Xray.Config.{Config, rules_of, routing_rules}
use xray_vps_manager.Xray.Blocklist.{
  Item, is_empty, rule_values, is_blocked_rule, domain_values, ip_values, split_rule_values,
  remove_values_from_blocked_rules, is_later_rule, block_values, block_outbound, blocked_rule,
  insert_before_geoip_or_catchall, sync_blocklist_rules,
}
use xray_vps_manager.Xray.Cascade.{ensure_blocked_outbound}
use xray_vps_manager.Xray.Blocklist.Order.{not-empty_of_contains, blocks, texts-elements}
use xray_vps_manager.Xray.Blocklist.Drop.{
  not_blocked, clear_rules-domain, clear_rules-ip, cleared_rules, removal-rules, removal-others,
}

blocked_rule-blocked :
    (key : String) (values : List String)
    → (key == "outboundTag") ≡ false
    → is_blocked_rule (blocked_rule key values) ≡ true
unfolding get
blocked_rule-blocked key values h = rw h

domain-ip_rule : (values : List String) → rule_values (blocked_rule "ip" values) "domain" ≡ []
unfolding rule_values get
domain-ip_rule values = refl

domain-domain_rule :
    (values : List String) → rule_values (blocked_rule "domain" values) "domain" ≡ values
unfolding rule_values get
domain-domain_rule values = texts-elements values

ip-domain_rule : (values : List String) → rule_values (blocked_rule "domain" values) "ip" ≡ []
unfolding rule_values get
ip-domain_rule values = refl

ip-ip_rule : (values : List String) → rule_values (blocked_rule "ip" values) "ip" ≡ values
unfolding rule_values get
ip-ip_rule values = texts-elements values

block_values-others :
    (key : String) (values : List String) (c : Config)
    → (key == "outboundTag") ≡ false
    → filter not_blocked (rules_of (block_values key values c)) ≡ filter not_blocked (rules_of c)
unfolding insert_before_geoip_or_catchall routing_rules
block_values-others key [] c h = refl
block_values-others key (v ∷ vs) c h =
    filter-insert_before not_blocked is_later_rule (blocked_rule key (v ∷ vs)) (rules_of c)
      (ap not (blocked_rule-blocked key (v ∷ vs) h))

-- Adding a rule that does not block the value keeps the value unblocked.
block_values-unblocked :
    (key : String) (values : List String) (c : Config) (p : Object → Bool)
    → p (blocked_rule key values) ≡ true
    → all p (rules_of c) ≡ true
    → all p (rules_of (block_values key values c)) ≡ true
unfolding insert_before_geoip_or_catchall routing_rules
block_values-unblocked key [] c p h k = k
block_values-unblocked key (v ∷ vs) c p h k =
    all-insert_before p is_later_rule (blocked_rule key (v ∷ vs)) (rules_of c) ∙ rw (h, k)

rules-block_outbound :
    (domains ips : List String) (c : Config) → rules_of (block_outbound domains ips c) ≡ rules_of c
unfolding ensure_blocked_outbound
rules-block_outbound domains ips c = ground arith

module _ (lower : String → String) (c : Config) (active : List Item) (known : Option (List Item))
    (removed : List Item) where
  abbrev pub dropped_items : List Item
  dropped_items = get_or known active ++ removed

  abbrev active_domains : List String
  active_domains = sorted_set (domain_values lower active)

  abbrev active_ips : List String
  active_ips = sorted_set (ip_values lower active)

  abbrev cleared : Config
  cleared = (remove_values_from_blocked_rules lower c dropped_items).0

  abbrev with_outbound : Config
  with_outbound = block_outbound active_domains active_ips cleared

  abbrev with_domains : Config
  with_domains = block_values "domain" active_domains with_outbound

  -- The rules with another target than `blocked` are the same in the same order.
  pub sync_blocklist_rules-others :
      filter not_blocked (rules_of (sync_blocklist_rules lower c active known removed).0)
      ≡ filter not_blocked (rules_of c)
  unfolding sync_blocklist_rules split_rule_values
  sync_blocklist_rules-others =
      block_values-others "ip" active_ips with_domains refl
      ∙ block_values-others "domain" active_domains with_outbound refl
      ∙ ap (filter not_blocked) (rules-block_outbound active_domains active_ips cleared)
      ∙ removal-others lower c dropped_items

  -- A domain value of a known or removed item that is no value of an active one is blocked by no
  -- rule, and the rules with another target are the same in the same order.
  pub sync_blocklist_rules-unblocks :
      (v : String)
      → contains (domain_values lower dropped_items) v ≡ true
      → contains (domain_values lower active) v ≡ false
      → let rules = rules_of (sync_blocklist_rules lower c active known removed).0 in
        (all (λ r. not (blocks "domain" v r)) rules ≡ true)
        × (filter not_blocked rules ≡ filter not_blocked (rules_of c))
  unfolding sync_blocklist_rules split_rule_values
  sync_blocklist_rules-unblocks v h k =
      let unblocked = λ (r : Object). not (blocks "domain" v r) in
      let gone = domain_values lower dropped_items in
      let listed = contains-sorted_set v gone ∙ h in
      let gone_rules : all unblocked (cleared_rules lower c dropped_items) ≡ true =
        clear_rules-domain (sorted_set gone) (sorted_set (ip_values lower dropped_items)) v
          (rules_of c) listed in
      let not_empty : (is_empty (sorted_set gone)
            && is_empty (sorted_set (ip_values lower dropped_items)))
          ≡ false =
        rw (not-empty_of_contains (sorted_set gone) v listed) in
      let start : all unblocked (rules_of with_outbound) ≡ true =
        rw
          (
            rules-block_outbound active_domains active_ips cleared,
            removal-rules lower c dropped_items not_empty,
          )
          gone_rules in
      let inactive = contains-sorted_set v (domain_values lower active) ∙ k in
      (
        block_values-unblocked "ip" active_ips with_domains unblocked
            (ground (arith, domain-ip_rule active_ips))
            (block_values-unblocked "domain" active_domains with_outbound unblocked
              (ground (arith, domain-domain_rule active_domains, inactive)) start),
        sync_blocklist_rules-others,
      )

  -- An address or network that is a value of a known or removed item, and no value of an active one,
  -- is blocked by no rule after `sync_blocklist_rules`.
  pub sync_blocklist_rules-unblocks_ip :
      (v : String)
      → contains (ip_values lower dropped_items) v ≡ true
      → contains (ip_values lower active) v ≡ false
      → all
          (λ r. not (blocks "ip" v r))
          (rules_of (sync_blocklist_rules lower c active known removed).0)
        ≡ true
  unfolding sync_blocklist_rules split_rule_values
  sync_blocklist_rules-unblocks_ip v h k =
      let unblocked = λ (r : Object). not (blocks "ip" v r) in
      let gone = ip_values lower dropped_items in
      let gone_domains = sorted_set (domain_values lower dropped_items) in
      let listed = contains-sorted_set v gone ∙ h in
      let gone_rules : all unblocked (cleared_rules lower c dropped_items) ≡ true =
        clear_rules-ip gone_domains (sorted_set gone) v (rules_of c) listed in
      let not_empty : (is_empty gone_domains && is_empty (sorted_set gone)) ≡ false =
        ground (arith, not-empty_of_contains (sorted_set gone) v listed) in
      let start : all unblocked (rules_of with_outbound) ≡ true =
        rw
          (
            rules-block_outbound active_domains active_ips cleared,
            removal-rules lower c dropped_items not_empty,
          )
          gone_rules in
      let inactive = contains-sorted_set v (ip_values lower active) ∙ k in
      block_values-unblocked "ip" active_ips with_domains unblocked
        (ground (arith, ip-ip_rule active_ips, inactive))
        (block_values-unblocked "domain" active_domains with_outbound unblocked
          (ground (arith, ip-domain_rule active_domains)) start)
