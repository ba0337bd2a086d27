-- ===== src/Xray/Blocklist.antt =====
-- xray_vps_manager/xray/blocklist.py: the rules that block domains and addresses.
pub mod Order
pub mod Drop
pub mod Clear
use Prim.Native.Char.{Char, code}
use xray_vps_manager.Base.{
  ℕ, String, ◌<>◌, Bool, true, false, not, ◌&&◌, ◌||◌, Option, none, some, List, [], ◌∷◌, ◌++◌, map,
  ◌==◌, starts_with, if◌then◌else◌, get_or, contains, filter, any, insert_before, nat_eq,
}
use xray_vps_manager.Base.Sort.{sorted_set}
use xray_vps_manager.Json.{
  Json, str, arr, elements, texts, Object, py_str, text_or_empty, is_text, get, has_key, put,
  remove, strip, same_object, same_objects,
}
use xray_vps_manager.Xray.Config.{
  Config, rules_of, outbounds_of, routing_rules, set_rules, outbound_tag, balancer_tag_text,
}
use xray_vps_manager.Xray.Cascade.{is_managed_catchall_rule, ensure_blocked_outbound}
use xray_vps_manager.Xray.ClientRoutes.{is_client_rule, routing_same}

-- The kinds of an item that the program tells apart; `other` is any other value.
pub data Kind : Type 0 where
  domain mask ip cidr other : Kind

-- `value` is `str(item.get("value") or "")`.
pub record Item : Type 0 where
  pub kind : Kind
  pub value : String

-- The characters that `re.escape` puts a backslash before.
abbrev special_codes : List ℕ
special_codes =
    b'(' ∷ b')' ∷ b'[' ∷ b']' ∷ b'{' ∷ b'}' ∷ b'?' ∷ b'*' ∷ b'+' ∷ b'-' ∷ b'|' ∷ b'^' ∷ b'$' ∷ 92
    ∷ b'.' ∷ b'&' ∷ b'~' ∷ b'#' ∷ 32 ∷ 9 ∷ 10 ∷ 13 ∷ 11 ∷ 12 ∷ []

-- `re.escape` of one character, then `\*` to `.*` and `\?` to `.`.
pattern_char : Char → String
pattern_char c =
    if nat_eq (code c) b'*'
    then ".*"
    else if nat_eq (code c) b'?'
    then "."
    else if any (nat_eq (code c)) special_codes
    then "\\" <> String.◌∷◌ c ""
    else String.◌∷◌ c ""

pattern_text : String → String
pattern_text String.[] = ""
pattern_text (String.◌∷◌ c s) = pattern_char c <> pattern_text s

unfoldable pub wildcard_to_regexp : String → String
unfolding pattern_text pattern_char
wildcard_to_regexp value = "regexp:^" <> (pattern_text value <> "$")

-- `lower` is Python's `str.lower`.
module _ (lower : String → String) where
  unfoldable pub domain_rule_value : Item → String
  unfolding wildcard_to_regexp
  domain_rule_value item =
      let value = lower (strip item.value) in
      elim item.kind [ mask ↦ wildcard_to_regexp value | _ ↦ "domain:" <> value ]

  unfoldable pub ip_rule_value : Item → String
  ip_rule_value item = lower (strip item.value)

  -- The two sets of `split_rule_values`, before they are sorted.
  abbrev pub domain_values : List Item → List String
  domain_values [] = []
  domain_values (item ∷ items) =
      let rest = domain_values items in
      if strip item.value == "" then rest else elim item.kind [
        | domain ↦ domain_rule_value item ∷ rest
        | mask ↦ domain_rule_value item ∷ rest
        | _ ↦ rest
      ]

  abbrev pub ip_values : List Item → List String
  ip_values [] = []
  ip_values (item ∷ items) =
      let rest = ip_values items in
      if strip item.value == "" then rest else elim item.kind [
        | ip ↦ ip_rule_value item ∷ rest
        | cidr ↦ ip_rule_value item ∷ rest
        | _ ↦ rest
      ]

  unfoldable pub split_rule_values : List Item → List String × List String
  split_rule_values items = (sorted_set (domain_values items), sorted_set (ip_values items))

-- `rule_values` of blocklist.py: the texts of a value.
unfoldable pub rule_values : Object → String → List String
rule_values rule key = elim (get rule key) [
  | str s ↦ s ∷ []
  | arr xs ↦ map py_str (elements xs)
  | _ ↦ []
]

abbrev pub is_empty : List String → Bool
is_empty [] = true
is_empty (_ ∷ _) = false

abbrev pub field_condition_keys : List String
field_condition_keys =
    "domain" ∷ "ip" ∷ "protocol" ∷ "inboundTag" ∷ "port" ∷ "network" ∷ "source" ∷ "sourcePort"
    ∷ "user" ∷ "attrs" ∷ []

unfoldable pub rule_has_conditions : Object → Bool
rule_has_conditions rule =
    any (λ key. has_key rule key && not (is_empty (rule_values rule key))) field_condition_keys

abbrev same_list : List String → List String → Bool
same_list [] [] = true
same_list (a ∷ xs) (b ∷ ys) = a == b && same_list xs ys
same_list _ _ = false

-- One key of one blocked rule without the values to drop; the flag is `changed`.
unfoldable pub drop_values : String → List String → Object → Object × Bool
drop_values key dropped rule =
    let values = rule_values rule key in
    let kept = filter (λ v. not (contains dropped v)) values in
    if is_empty values
    then (rule, false)
    else if same_list kept values
    then (rule, false)
    else if is_empty kept
    then (remove rule key, true)
    else (put rule key (texts kept), true)

abbrev pub is_blocked_rule : Object → Bool
is_blocked_rule rule = is_text "blocked" (outbound_tag rule)

-- The loop over the rules.
unfoldable pub clear_rules : List String → List String → List Object → List Object × Bool
clear_rules domains ips [] = ([], false)
clear_rules domains ips (rule ∷ rules) =
    let (kept, changed) = clear_rules domains ips rules in
    let (no_domains, changed_domains) = drop_values "domain" domains rule in
    let (updated, changed_ips) = drop_values "ip" ips no_domains in
    if not (is_blocked_rule rule)
    then (rule ∷ kept, changed)
    else if not (rule_has_conditions updated)
    then (kept, true)
    else (updated ∷ kept, changed_domains || (changed_ips || changed))

unfoldable pub remove_values_from_blocked_rules :
    (String → String) → Config → List Item → Config × Bool
unfolding clear_rules drop_values
remove_values_from_blocked_rules lower c items =
    let (domains, ips) = split_rule_values lower items in
    let (kept, changed) = clear_rules domains ips (rules_of c) in
    if is_empty domains && is_empty ips
    then (c, false)
    else if changed
    then (set_rules (routing_rules c) kept, true)
    else (routing_rules c, false)

unfoldable pub is_geoip_warning_rule : Object → Bool
is_geoip_warning_rule rule = starts_with (text_or_empty (outbound_tag rule)) "geoip-warning-"

-- `is_client_route_rule` is `is_client_rule` of client_routes.py, spelled again.
unfoldable pub is_later_rule : Object → Bool
is_later_rule rule =
    is_geoip_warning_rule rule || (is_client_rule rule || is_managed_catchall_rule rule)

unfoldable pub insert_before_geoip_or_catchall : Config → Object → Config
insert_before_geoip_or_catchall c rule =
    set_rules (routing_rules c) (insert_before is_later_rule rule (rules_of c))

abbrev pub blocked_rule : String → List String → Object
blocked_rule key values =
    ("type", str "field") ∷ (key, texts values) ∷ ("outboundTag", str "blocked") ∷ []

-- `if values: insert_before_geoip_or_catchall(...)`
abbrev pub block_values : String → List String → Config → Config
block_values key values c =
    if is_empty values then c else insert_before_geoip_or_catchall c (blocked_rule key values)

abbrev pub block_outbound : List String → List String → Config → Config
block_outbound domains ips c =
    if is_empty domains && is_empty ips then c else ensure_blocked_outbound c

-- `known` is `none` where the argument is left out.
unfoldable pub sync_blocklist_rules :
    (String → String) → Config → List Item → Option (List Item) → List Item → Config × Bool
unfolding remove_values_from_blocked_rules insert_before_geoip_or_catchall
sync_blocklist_rules lower c active known removed =
    let cleared = (remove_values_from_blocked_rules lower c (get_or known active ++ removed)).0 in
    let (domains, ips) = split_rule_values lower active in
    let c' =
      block_values "ip" ips (block_values "domain" domains (block_outbound domains ips cleared)) in
    (c', not (same_objects (outbounds_of c) (outbounds_of c') && routing_same c c'))
