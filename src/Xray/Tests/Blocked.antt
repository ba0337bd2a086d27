-- ===== src/Xray/Tests/Blocked.antt =====
-- The block list at the sample configuration: one value is dropped and two are added.
use xray_vps_manager.Base.{
  ◌++◌, ◌≡◌, refl, true, false, not, String, none, List, [], ◌∷◌, any, all, filter, precedes,
  contains,
}
use xray_vps_manager.Json.{strip}
use xray_vps_manager.Xray.Config.{rules_of, outbounds_of, tag_is}
use xray_vps_manager.Xray.Blocklist.{
  Item, domain, cidr, domain_values, ip_values, domain_rule_value, ip_rule_value, is_later_rule,
  sync_blocklist_rules,
}
use xray_vps_manager.Xray.Blocklist.Order.{
  blocks, sync_blocklist_rules-blocks_domain, sync_blocklist_rules-blocks_ip,
}
use xray_vps_manager.Xray.Blocklist.Drop.{not_blocked}
use xray_vps_manager.Xray.Blocklist.Clear.{
  sync_blocklist_rules-unblocks, sync_blocklist_rules-unblocks_ip,
}
use xray_vps_manager.Xray.Tests.Samples.{sample}

abbrev lower : String → String
lower s = s

abbrev active : List Item
active =
    record { kind = domain; value = "new.example" }
    ∷ record { kind = cidr; value = "10.1.0.0/16" }
    ∷ []

abbrev removed : List Item
removed = record { kind = domain; value = "old.example" } ∷ []

new_domain : contains (domain_values lower active) "domain:new.example" ≡ true
unfolding domain_rule_value strip
new_domain = refl

new_ip : contains (ip_values lower active) "10.1.0.0/16" ≡ true
unfolding ip_rule_value strip
new_ip = refl

old_domain : contains (domain_values lower (active ++ removed)) "domain:old.example" ≡ true
unfolding domain_rule_value strip
old_domain = refl

old_inactive : contains (domain_values lower active) "domain:old.example" ≡ false
unfolding domain_rule_value strip
old_inactive = refl

sync_blocklist_rules-blocks_domain_example :
    let c' = (sync_blocklist_rules lower sample active none removed).0 in
    (precedes (blocks "domain" "domain:new.example") is_later_rule (rules_of c') ≡ true)
    × (any (tag_is "blocked") (outbounds_of c') ≡ true)
sync_blocklist_rules-blocks_domain_example =
    sync_blocklist_rules-blocks_domain lower sample active none removed "domain:new.example"
      new_domain

sync_blocklist_rules-blocks_ip_example :
    let c' = (sync_blocklist_rules lower sample active none removed).0 in
    (precedes (blocks "ip" "10.1.0.0/16") is_later_rule (rules_of c') ≡ true)
    × (any (tag_is "blocked") (outbounds_of c') ≡ true)
sync_blocklist_rules-blocks_ip_example =
    sync_blocklist_rules-blocks_ip lower sample active none removed "10.1.0.0/16" new_ip

sync_blocklist_rules-unblocks_example :
    let rules = rules_of (sync_blocklist_rules lower sample active none removed).0 in
    (all (λ r. not (blocks "domain" "domain:old.example" r)) rules ≡ true)
    × (filter not_blocked rules ≡ filter not_blocked (rules_of sample))
sync_blocklist_rules-unblocks_example =
    sync_blocklist_rules-unblocks lower sample active none removed "domain:old.example" old_domain
      old_inactive

-- The same run takes an address out of the list.
abbrev old_address : List Item
old_address = record { kind = cidr; value = "10.9.0.0/16" } ∷ []

old_ip : contains (ip_values lower (active ++ old_address)) "10.9.0.0/16" ≡ true
unfolding ip_rule_value strip
old_ip = refl

old_ip_inactive : contains (ip_values lower active) "10.9.0.0/16" ≡ false
unfolding ip_rule_value strip
old_ip_inactive = refl

sync_blocklist_rules-unblocks_ip_example :
    all
      (λ r. not (blocks "ip" "10.9.0.0/16" r))
      (rules_of (sync_blocklist_rules lower sample active none old_address).0)
    ≡ true
sync_blocklist_rules-unblocks_ip_example =
    sync_blocklist_rules-unblocks_ip lower sample active none old_address "10.9.0.0/16" old_ip
      old_ip_inactive
