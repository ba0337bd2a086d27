-- ===== src/Xray/Cascade.antt =====
-- xray_vps_manager/xray/cascade.py: the named cascade outbounds and the catch-all route.
pub mod Direct
pub mod Active
use Prim.Native.String.{slice, len}
use xray_vps_manager.Base.{
  String, Bool, true, false, Option, none, some, List, [], ◌∷◌, ◌++◌, ◌||◌, ◌&&◌, not, ◌==◌, length,
  starts_with, if◌then◌else◌, get_or, contains, map, filter, any, find, take, drop, is_some, ltb, ℕ,
  suc,
}
use xray_vps_manager.Json.{
  Json, null, str, arr, elements, Object, truthy, py_str, text_or_empty, is_text, get, has_key, put,
}
use xray_vps_manager.Xray.Config.{
  Config, outbounds_of, rules_of, routing_rules, set_rules, set_outbounds, tag_is, outbound_tag,
}

abbrev pub cascade_tag_prefix : String
cascade_tag_prefix = "cascade-"

unfoldable pub is_cascade_tag : Json → Bool
is_cascade_tag tag = starts_with (text_or_empty tag) cascade_tag_prefix

-- `rule_values`: a text alone, a list, or nothing.
unfoldable pub rule_values : Object → String → List Json
rule_values rule key = elim (get rule key) [ str s ↦ str s ∷ [] | arr xs ↦ elements xs | _ ↦ [] ]

abbrev condition_keys : List String
condition_keys =
    "domain" ∷ "ip" ∷ "protocol" ∷ "inboundTag" ∷ "port" ∷ "source" ∷ "sourcePort" ∷ "attrs" ∷ []

-- `is_catchall_rule(rule)`, with no tag asked for
unfoldable pub is_catchall_rule : Object → Bool
is_catchall_rule rule =
    if not (is_text "field" (get rule "type"))
    then false
    else if not (is_text "tcp,udp" (get rule "network"))
    then false
    else not (any (has_key rule) condition_keys)

-- The first hit of the scan over `reversed(rules)` is the last catch-all.
unfoldable pub last_catchall : List Object → String → String
last_catchall [] found = found
last_catchall (rule ∷ rules) found =
    last_catchall rules (if is_catchall_rule rule then text_or_empty (outbound_tag rule) else found)

unfoldable pub current_catchall_tag : Config → String
unfolding last_catchall
current_catchall_tag c = last_catchall (rules_of c) ""

unfoldable pub cascade_outbounds : Config → List Object
cascade_outbounds c = filter (λ o. is_cascade_tag (get o "tag")) (outbounds_of c)

unfoldable pub cascade_tags : Config → List String
cascade_tags c =
    map (λ o. py_str (get o "tag")) (filter (λ o. truthy (get o "tag")) (cascade_outbounds c))

unfoldable pub cascade_outbound : Config → String → Option Object
cascade_outbound c tag = find (tag_is tag) (cascade_outbounds c)

pub first_cascade_tag : Config → String
first_cascade_tag c = elim (cascade_tags c) [ [] ↦ "" | tag ∷ _ ↦ tag ]

unfoldable pub active_cascade_tag : Config → String
active_cascade_tag c =
    let tag = current_catchall_tag c in
    if is_cascade_tag (str tag) && is_some (cascade_outbound c tag) then tag else ""

pub selected_cascade_tag : Config → String
selected_cascade_tag c =
    let active = active_cascade_tag c in if active == "" then first_cascade_tag c else active

-- The first outbound with the tag, and the outbounds without it.
pull : String → List Object → Option Object × List Object
pull tag [] = (none, [])
pull tag (o ∷ os) =
    let (found, rest) = pull tag os in if tag_is tag o then (some o, os) else (found, o ∷ rest)

abbrev pub freedom : Object
freedom = ("tag", str "direct") ∷ ("protocol", str "freedom") ∷ []

-- Whether the list changed is the second part.
direct_first : List Object → List Object × Bool
direct_first [] = (freedom ∷ [], true)
direct_first (o ∷ os) =
    if tag_is "direct" o
    then (o ∷ os, false)
    else let (found, rest) = pull "direct" os in (get_or found freedom ∷ o ∷ rest, true)

unfoldable pub ensure_direct_first : Config → Config × Bool
unfolding direct_first pull
ensure_direct_first c =
    let (outbounds, changed) = direct_first (outbounds_of c) in (set_outbounds c outbounds, changed)

abbrev pub blackhole : Object
blackhole = ("tag", str "blocked") ∷ ("protocol", str "blackhole") ∷ []

unfoldable pub ensure_blocked_outbound : Config → Config
ensure_blocked_outbound c =
    let outbounds = outbounds_of c in
    set_outbounds c
      (if any (tag_is "blocked") outbounds then outbounds else outbounds ++ (blackhole ∷ []))

pub ensure_base_outbounds : Config → Config
ensure_base_outbounds c = ensure_blocked_outbound (ensure_direct_first c).0

unfoldable pub is_managed_catchall_tag : Json → Bool
unfolding is_cascade_tag
is_managed_catchall_tag tag =
    contains ("direct" ∷ "warp-out" ∷ []) (text_or_empty tag) || is_cascade_tag tag

unfoldable pub is_managed_catchall_rule : Object → Bool
unfolding is_managed_catchall_tag is_catchall_rule
is_managed_catchall_rule rule = is_managed_catchall_tag (outbound_tag rule) && is_catchall_rule rule

pub remove_managed_catchall_routes : Config → Config × Bool
remove_managed_catchall_routes c =
    let rules = rules_of c in
    let kept = filter (λ rule. not (is_managed_catchall_rule rule)) rules in
    (set_rules (routing_rules c) kept, ltb (length kept) (length rules))

abbrev pub catchall_route : String → Object
catchall_route tag =
    ("type", str "field") ∷ ("network", str "tcp,udp") ∷ ("outboundTag", str tag) ∷ []

pub append_catchall_route : Config → String → Config
append_catchall_route c tag = set_rules (routing_rules c) (rules_of c ++ (catchall_route tag ∷ []))

-- `none` is the ValueError: the cascade outbound is not configured.
unfoldable pub activate_cascade_route : Config → String → Option Config
unfolding remove_managed_catchall_routes append_catchall_route
activate_cascade_route c tag = elim (cascade_outbound c tag) [
  | none ↦ none
  | some _ ↦ some (append_catchall_route (remove_managed_catchall_routes c).0 tag)
]

-- The place of the first cascade among all outbounds.
first_cascade_index : List Object → ℕ
first_cascade_index [] = 0
first_cascade_index (o ∷ os) =
    let n = first_cascade_index os in if is_cascade_tag (get o "tag") then 0 else suc n

pub move_cascade_to_front : Config → String → Config
unfolding first_cascade_index
move_cascade_to_front c tag =
    let outbounds = outbounds_of c in
    elim (filter (tag_is tag) outbounds) [
      | [] ↦ set_outbounds c outbounds
      | selected ∷ _ ↦
          let first = first_cascade_index outbounds in
          let rest = filter (λ o. not (tag_is tag o)) outbounds in
          set_outbounds c (
            if is_cascade_tag (str tag)
            then take first rest ++ (selected ∷ drop first rest)
            else outbounds)
    ]

-- Whether the rule is one that the Telegram proxy uses towards a cascade.
is_telegram_cascade_rule : Object → Bool
is_telegram_cascade_rule rule =
    any (is_text "telegram-bot-socks") (rule_values rule "inboundTag")
    && is_cascade_tag (outbound_tag rule)

retarget : String → Object → Object
retarget tag rule =
    if is_telegram_cascade_rule rule && not (is_text tag (outbound_tag rule))
    then put rule "outboundTag" (str tag)
    else rule

pub sync_telegram_cascade_rules : Config → String → Config × Bool
unfolding retarget is_telegram_cascade_rule
sync_telegram_cascade_rules c tag =
    let rules = rules_of c in
    (
      set_rules (routing_rules c) (map (retarget tag) rules),
      any (λ rule. is_telegram_cascade_rule rule && not (is_text tag (outbound_tag rule))) rules,
    )
