-- ===== src/Xray/Bypass.antt =====
-- xray_vps_manager/xray/bypass.py: the routes for the addresses of one country (GeoIP).
-- `lower` and `upper` are Python's `str.lower` and `str.upper`. A region is a code that
-- `normalize_region_code` has accepted; the functions that take one are given it in this form.
pub mod Outbounds
pub mod Warning
pub mod Applied
pub mod Route
use Prim.Native.Char.{Char, code}
use Prim.Native.String.{count}
use xray_vps_manager.Base.{
  ℕ, suc, String, ◌<>◌, Bool, true, false, not, ◌&&◌, ◌||◌, Option, none, some, List, [], ◌∷◌, ◌++◌,
  map, ◌==◌, starts_with, if◌then◌else◌, get_or, contains, filter, any, insert_before, nat_eq, find,
  leb, ltb, length, take, drop, is_some,
}
use xray_vps_manager.Json.{
  Json, str, arr, elements, texts, Object, py_str, text_or_empty, is_text, get, has_key, put,
  remove, strip, is_ascii_alnum,
}
use xray_vps_manager.Xray.Config.{
  Config, rules_of, outbounds_of, routing_of, routing_rules, set_rules, set_outbounds, outbound_tag,
  tag_is,
}
use xray_vps_manager.Xray.Cascade.{
  is_managed_catchall_rule, ensure_base_outbounds, ensure_direct_first,
}
use xray_vps_manager.Xray.Cascade
use xray_vps_manager.Xray.ClientRoutes.{is_client_rule}

unfoldable pub is_bypass_tag : Json → Bool
is_bypass_tag tag = starts_with (text_or_empty tag) "bypass-"

unfoldable pub is_geoip_warning_tag : Json → Bool
is_geoip_warning_tag tag = starts_with (text_or_empty tag) "geoip-warning-"

is_code_char : Char → Bool
is_code_char c = is_ascii_alnum c || any (nat_eq (code c)) (b'_' ∷ b'-' ∷ [])

all_chars : (Char → Bool) → String → Bool
all_chars p String.[] = true
all_chars p (String.◌∷◌ c s) = p c && all_chars p s

-- `none` is the ValueError.
unfoldable pub normalize_region_code : (String → String) → String → Option String
unfolding is_code_char all_chars
normalize_region_code upper value =
    let code' = upper (strip value) in
    if all_chars is_code_char code' && (leb 2 (count code') && leb (count code') 64)
    then some code'
    else none

abbrev pub geoip_rule_value : (String → String) → String → String
geoip_rule_value lower region = "geoip:" <> lower region

abbrev pub geoip_warning_tag : String → String
geoip_warning_tag region = "geoip-warning-" <> region

pub outbound_by_tag : Config → String → Option Object
outbound_by_tag c tag = find (tag_is tag) (outbounds_of c)

unfoldable pub bypass_outbounds : Config → List Object
bypass_outbounds c = filter (λ o. is_bypass_tag (get o "tag")) (outbounds_of c)

unfoldable pub bypass_outbound : Config → String → Option Object
unfolding bypass_outbounds
bypass_outbound c tag = find (tag_is tag) (bypass_outbounds c)

-- Where no outbound has the tag, the list is left as it is; `setdefault` has filled the section.
unfoldable pub remove_tagged_outbounds : Config → String → Config × Bool
remove_tagged_outbounds c tag =
    let outbounds = outbounds_of c in
    let kept = filter (λ o. not (tag_is tag o)) outbounds in
    if nat_eq (length kept) (length outbounds)
    then (set_outbounds c outbounds, false)
    else (set_outbounds c kept, true)

-- The place of the first outbound with the tag.
index_of_tag : String → List Object → Option ℕ
index_of_tag tag [] = none
index_of_tag tag (o ∷ os) =
    let rest = index_of_tag tag os in
    if tag_is tag o then some 0 else elim rest [ none ↦ none | some n ↦ some (suc n) ]

-- `items.insert(index, item)`
abbrev pub insert_at : ℕ → Object → List Object → List Object
insert_at n item items = take n items ++ (item ∷ drop n items)

-- One past the last bypass outbound, or the place 1; `index` is the place of the head.
after_last_bypass : ℕ → ℕ → List Object → ℕ
after_last_bypass index found [] = found
after_last_bypass index found (o ∷ os) =
    after_last_bypass (suc index) (if is_bypass_tag (get o "tag") then suc index else found) os

-- `none` is the ValueError: the tag is no bypass tag.
unfoldable pub upsert_bypass_outbound : Config → Object → Option Config
unfolding index_of_tag after_last_bypass
upsert_bypass_outbound c outbound =
    let tag = text_or_empty (get outbound "tag") in
    let base = ensure_base_outbounds c in
    let others = filter (λ o. not (tag_is tag o)) (outbounds_of base) in
    let place : ℕ = elim (index_of_tag tag (outbounds_of base)) [
      | some n ↦ if leb n (length others) then n else length others
      | none ↦ after_last_bypass 0 1 others
    ] in
    if is_bypass_tag (str tag)
    then some (set_outbounds base (insert_at place outbound others))
    else none

-- `rule_values` of bypass.py: the texts of `rule_values` of cascade.py.
unfoldable pub rule_values : Object → String → List String
unfolding Cascade.rule_values
rule_values rule key = map py_str (Cascade.rule_values rule key)

unfoldable pub is_api_rule : Object → Bool
is_api_rule rule =
    is_text "api" (outbound_tag rule) || contains (rule_values rule "inboundTag") "api"

abbrev pub is_private_block_rule : Object → Bool
is_private_block_rule rule =
    is_text "field" (get rule "type")
    && (is_text "blocked" (outbound_tag rule) && contains (rule_values rule "ip") "geoip:private")

abbrev pub private_block_rule : Object
private_block_rule =
    ("type", str "field")
    ∷ ("ip", texts ("geoip:private" ∷ []))
    ∷ ("outboundTag", str "blocked")
    ∷ []

-- The insertion skips the API rules at the head: it is before the first rule that is none.
unfoldable pub ensure_private_block_rule : Config → Config
ensure_private_block_rule c =
    let rules = rules_of c in
    if any is_private_block_rule rules
    then routing_rules c
    else set_rules (routing_rules c)
        (insert_before (λ r. not (is_api_rule r)) private_block_rule rules)

unfoldable pub is_later_rule : Object → Bool
is_later_rule rule = is_client_rule rule || is_managed_catchall_rule rule

unfoldable pub insert_before_client_or_catchall : Config → Object → Config
insert_before_client_or_catchall c rule =
    set_rules (routing_rules c) (insert_before is_later_rule rule (rules_of c))

module _ (lower : String → String) where
  unfoldable pub rule_targets_region : Object → String → Bool
  rule_targets_region rule region =
      contains (map lower (rule_values rule "ip")) (geoip_rule_value lower region)

  unfoldable pub is_geoip_warning_rule_for_region : String → Object → Bool
  is_geoip_warning_rule_for_region region rule =
      is_text (geoip_warning_tag region) (outbound_tag rule) && rule_targets_region rule region

  unfoldable pub is_direct_bypass_region_rule : String → Object → Bool
  is_direct_bypass_region_rule region rule =
      is_bypass_tag (outbound_tag rule) && rule_targets_region rule region

  unfoldable pub remove_direct_bypass_region_rules : Config → String → Config × Bool
  remove_direct_bypass_region_rules c region =
      let rules = rules_of c in
      let kept = filter (λ r. not (is_direct_bypass_region_rule region r)) rules in
      if nat_eq (length kept) (length rules)
      then (routing_rules c, false)
      else (set_rules (routing_rules c) kept, true)

  -- The loop keeps the first rule of the region's warning, written anew, and drops the later ones.
  -- The flag is `found`.
  unfoldable pub keep_first_warning : String → Bool → List Object → List Object × Bool
  keep_first_warning region found [] = ([], found)
  keep_first_warning region found (r ∷ rs) =
      let warns = is_geoip_warning_rule_for_region region r in
      let (kept, found') = keep_first_warning region (found || warns) rs in
      if not warns
      then (r ∷ kept, found')
      else if found
      then (kept, found')
      else (put r "outboundTag" (str (geoip_warning_tag region)) ∷ kept, found')

  abbrev pub warning_rule : String → Object
  warning_rule region =
      ("type", str "field")
      ∷ ("ip", texts (geoip_rule_value lower region ∷ []))
      ∷ ("outboundTag", str (geoip_warning_tag region))
      ∷ []

  unfoldable pub ensure_geoip_warning_rule : Config → String → Config
  ensure_geoip_warning_rule c region =
      let (kept, found) = keep_first_warning region false (rules_of c) in
      let c' = set_rules (routing_rules c) kept in
      if found then c' else insert_before_client_or_catchall c' (warning_rule region)

  unfoldable pub remove_geoip_warning_route : Config → String → Config × Bool
  remove_geoip_warning_route c region =
      let (c', removed) = remove_tagged_outbounds c (geoip_warning_tag region) in
      let rules = rules_of c in
      let kept = filter (λ r. not (is_geoip_warning_rule_for_region region r)) rules in
      if nat_eq (length kept) (length rules)
      then (routing_rules c', removed)
      else (set_rules (routing_rules c') kept, true)

-- `clone_outbound_with_tag`; values are not shared here, so the deep copy is the value itself.
abbrev pub clone_outbound_with_tag : Object → String → Object
clone_outbound_with_tag outbound tag = put outbound "tag" (str tag)

unfoldable pub ensure_geoip_warning_outbound : Config → String → Object → Config
ensure_geoip_warning_outbound c region source =
    let tag = geoip_warning_tag region in
    let c' = (remove_tagged_outbounds c tag).0 in
    set_outbounds c' (outbounds_of c' ++ (clone_outbound_with_tag source tag ∷ []))
