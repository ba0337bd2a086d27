-- ===== src/Xray/Blocklist/Drop.antt =====
-- `remove_values_from_blocked_rules` of blocklist.py: what it drops and what it leaves.
use xray_vps_manager.Base.{
  ◌≡◌, refl, ◌∙◌, String, Bool, true, false, not, ◌&&◌, List, [], ◌∷◌, map, arith, contains, all,
  eq_iff, if◌then◌else◌, filter, ◌==◌,
}
use xray_vps_manager.Base.Sort.{sorted_set}
use xray_vps_manager.Json.{
  Json, str, arr, py_str, texts, elements, Object, get, put, remove, get-put, get-remove,
}
use xray_vps_manager.Xray.Config.{Config, rules_of, routing_rules, outbound_tag}
use xray_vps_manager.Xray.Blocklist.{
  Item, is_empty, rule_values, is_blocked_rule, drop_values, clear_rules, same_list, domain_values,
  ip_values, split_rule_values, remove_values_from_blocked_rules,
}
use xray_vps_manager.Xray.Blocklist.Order.{blocks, texts-elements}

abbrev pub not_blocked : Object → Bool
not_blocked rule = not (is_blocked_rule rule)

-- The texts of one value; `rule_values` reads them off the rule's key.
abbrev value_texts : Json → List String
value_texts (str s) = s ∷ []
value_texts (arr xs) = map py_str (elements xs)
value_texts _ = []

rule_values-value : (r : Object) (key : String) → rule_values r key ≡ value_texts (get r key)
unfolding rule_values
rule_values-value r key = ground arith

rule_values-put :
    (r : Object) (key : String) (ss : List String) (j : String)
    → rule_values (put r key (texts ss)) j ≡ (if key == j then ss else rule_values r j)
rule_values-put r key ss j = simp (rule_values-value, get-put) (ground (arith, texts-elements ss))

rule_values-remove :
    (r : Object) (key j : String)
    → rule_values (remove r key) j ≡ (if key == j then [] else rule_values r j)
rule_values-remove r key j = simp (rule_values-value, get-remove) (ground arith)

outbound_tag-put :
    (r : Object) (key : String) (v : Json)
    → (key == "outboundTag") ≡ false
    → outbound_tag (put r key v) ≡ outbound_tag r
outbound_tag-put r key v h = get-put r key v "outboundTag" ∙ rw h

outbound_tag-remove :
    (r : Object) (key : String)
    → (key == "outboundTag") ≡ false
    → outbound_tag (remove r key) ≡ outbound_tag r
outbound_tag-remove r key h = get-remove r key "outboundTag" ∙ rw h

filter-dropped :
    (dropped values : List String) (v : String)
    → contains dropped v ≡ true
    → contains (filter (λ w. not (contains dropped w)) values) v ≡ false
filter-dropped dropped [] v h = refl
filter-dropped dropped (w ∷ values) v h =
    ground (arith, filter-dropped dropped values v h, eq_iff w v)

same_list_sound : (xs ys : List String) → same_list xs ys ≡ true → xs ≡ ys
same_list_sound [] [] h = refl
same_list_sound [] (y ∷ ys) h = cc
same_list_sound (x ∷ xs) [] h = cc
same_list_sound (x ∷ xs) (y ∷ ys) h = ground (arith, same_list_sound xs ys, eq_iff x y)

module _ (key : String) (dropped : List String) (r : Object) where
  -- The dropped values are gone from the key.
  drop_values-gone :
      (v : String)
      → contains dropped v ≡ true
      → contains (rule_values (drop_values key dropped r).0 key) v ≡ false
  unfolding drop_values
  drop_values-gone v h =
      let values = rule_values r key in
      let kept = filter (λ w. not (contains dropped w)) values in
      ground (
        arith,
        filter-dropped dropped values v h,
        rule_values-put r key kept key,
        rule_values-remove r key key,
        eq_iff key key,
        same_list_sound kept values,
      )

  -- The other keys keep their values.
  drop_values-other :
      (j : String)
      → (key == j) ≡ false
      → rule_values (drop_values key dropped r).0 j ≡ rule_values r j
  unfolding drop_values
  drop_values-other j h =
      let kept = filter (λ w. not (contains dropped w)) (rule_values r key) in
      ground (arith, rule_values-put r key kept j, rule_values-remove r key j)

  drop_values-tag :
      (key == "outboundTag") ≡ false → outbound_tag (drop_values key dropped r).0 ≡ outbound_tag r
  unfolding drop_values
  drop_values-tag h =
      let kept = filter (λ w. not (contains dropped w)) (rule_values r key) in
      ground (arith, outbound_tag-put r key (texts kept) h, outbound_tag-remove r key h)

module _ (domains ips : List String) where
  -- A rule after both keys.
  abbrev updated : Object → Object
  updated r = (drop_values "ip" ips (drop_values "domain" domains r).0).0

  updated-tag : (r : Object) → outbound_tag (updated r) ≡ outbound_tag r
  updated-tag r =
      drop_values-tag "ip" ips (drop_values "domain" domains r).0 refl
      ∙ drop_values-tag "domain" domains r refl

  updated-domain :
      (r : Object) (v : String)
      → contains domains v ≡ true
      → contains (rule_values (updated r) "domain") v ≡ false
  updated-domain r v h =
      rw (drop_values-other "ip" ips (drop_values "domain" domains r).0 "domain" refl)
        (drop_values-gone "domain" domains r v h)

  updated-ip :
      (r : Object) (v : String)
      → contains ips v ≡ true
      → contains (rule_values (updated r) "ip") v ≡ false
  updated-ip r v h = drop_values-gone "ip" ips (drop_values "domain" domains r).0 v h

  pub clear_rules-domain :
      (v : String) (rules : List Object)
      → contains domains v ≡ true
      → all (λ r. not (blocks "domain" v r)) (clear_rules domains ips rules).0 ≡ true
  unfolding clear_rules
  clear_rules-domain v [] h = refl
  clear_rules-domain v (r ∷ rules) h =
      ground (arith, clear_rules-domain v rules h, updated-domain r v h)

  pub clear_rules-ip :
      (v : String) (rules : List Object)
      → contains ips v ≡ true
      → all (λ r. not (blocks "ip" v r)) (clear_rules domains ips rules).0 ≡ true
  unfolding clear_rules
  clear_rules-ip v [] h = refl
  clear_rules-ip v (r ∷ rules) h = ground (arith, clear_rules-ip v rules h, updated-ip r v h)

  clear_rules-others :
      (rules : List Object)
      → filter not_blocked (clear_rules domains ips rules).0 ≡ filter not_blocked rules
  unfolding clear_rules
  clear_rules-others [] = refl
  clear_rules-others (r ∷ rules) = ground (arith, clear_rules-others rules, updated-tag r)

drop_values-same :
    (key : String) (dropped : List String) (r : Object)
    → (drop_values key dropped r).1 ≡ false
    → (drop_values key dropped r).0 ≡ r
unfolding drop_values
drop_values-same key dropped r h = ground arith

module _ (domains ips : List String) where
  updated-same :
      (r : Object)
      → (drop_values "domain" domains r).1 ≡ false
      → (drop_values "ip" ips (drop_values "domain" domains r).0).1 ≡ false
      → updated domains ips r ≡ r
  updated-same r h k =
      drop_values-same "ip" ips (drop_values "domain" domains r).0 k
      ∙ drop_values-same "domain" domains r h

  clear_rules-same :
      (rules : List Object)
      → (clear_rules domains ips rules).1 ≡ false
      → (clear_rules domains ips rules).0 ≡ rules
  unfolding clear_rules
  clear_rules-same [] h = refl
  clear_rules-same (r ∷ rules) h = ground (arith, clear_rules-same rules, updated-same r)

module _ (lower : String → String) (c : Config) (items : List Item) where
  -- The rules that `remove_values_from_blocked_rules` leaves, unless both lists are empty.
  abbrev pub cleared_rules : List Object
  cleared_rules =
      (clear_rules (sorted_set (domain_values lower items)) (sorted_set (ip_values lower items))
        (rules_of c)).0

  pub removal-rules :
      (is_empty (sorted_set (domain_values lower items))
          && is_empty (sorted_set (ip_values lower items)))
        ≡ false
      → rules_of (remove_values_from_blocked_rules lower c items).0 ≡ cleared_rules
  unfolding remove_values_from_blocked_rules split_rule_values routing_rules
  removal-rules h = ground (
    arith,
    clear_rules-same (sorted_set (domain_values lower items)) (sorted_set (ip_values lower items))
        (rules_of c),
  )

  pub removal-others :
      filter not_blocked (rules_of (remove_values_from_blocked_rules lower c items).0)
      ≡ filter not_blocked (rules_of c)
  unfolding remove_values_from_blocked_rules split_rule_values routing_rules
  removal-others = ground (
    arith,
    clear_rules-others (sorted_set (domain_values lower items)) (sorted_set (ip_values lower items))
        (rules_of c),
  )
