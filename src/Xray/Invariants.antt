-- ===== src/Xray/Invariants.antt =====
-- xray_vps_manager/xray/invariants.py: what a configuration must satisfy before it is applied. `false`
-- is the ConfigInvariantError. Where the code calls a method of a value that has another type, which
-- raises, the result is `false` too.
pub mod Accepted
use xray_vps_manager.Base.{
  ℕ, suc, String, Bool, true, false, not, ◌&&◌, ◌||◌, Option, none, some, List, [], ◌∷◌, map,
  filter, all, any, contains, length, leb, ltb, ◌==◌, starts_with, if◌then◌else◌,
}
use xray_vps_manager.Json.{
  Json, Items, null, str, arr, obj, nil, cons, elements, members, texts, Object, py_str, is_text,
  get, has_key, same, strip,
}
use xray_vps_manager.Xray.Config.{tag_is, outbound_tag}
use xray_vps_manager.Xray.Cascade.{is_catchall_rule, is_cascade_tag, rule_values}

abbrev add_object : Object → Option (List Object) → Option (List Object)
add_object o none = none
add_object o (some os) = some (o ∷ os)

-- `_objects(value, ...)`: `none` is its error.
abbrev pub objects : List Json → Option (List Object)
objects [] = some []
objects (obj fs ∷ xs) = add_object (members fs) (objects xs)
objects (_ ∷ xs) = none

abbrev pub objects_in : Json → Option (List Object)
objects_in v = elim v [ arr xs ↦ objects (elements xs) | _ ↦ none ]

-- `_objects(d.get(key, []), ...)`
abbrev pub objects_at : Object → String → Option (List Object)
objects_at d key = if has_key d key then objects_in (get d key) else some []

-- `d.get(key, {})`, which must be an object.
abbrev pub section_at : Object → String → Option Object
section_at d key =
    let given : Option Object = elim (get d key) [ obj fs ↦ some (members fs) | _ ↦ none ] in
    if has_key d key then given else some []

-- The tags of the objects that have one.
abbrev pub given_tags : List Object → List Json
given_tags [] = []
given_tags (o ∷ os) =
    let rest = given_tags os in
    elim (get o "tag") [
      | null ↦ rest
      | str s ↦ if s == "" then rest else str s ∷ rest
      | v ↦ v ∷ rest
    ]

-- `none` where a tag is no text or is blank.
abbrev text_tags : List Json → Option (List String)
text_tags [] = some []
text_tags (str s ∷ vs) =
    if strip s == "" then none else elim (text_tags vs) [ none ↦ none | some ss ↦ some (s ∷ ss) ]
text_tags (_ ∷ vs) = none

abbrev pub unique : List String → Bool
unique [] = true
unique (s ∷ ss) = not (contains ss s) && unique ss

-- `_tags(items, ...)`
abbrev pub tags_of : List Object → Option (List String)
tags_of items = elim (text_tags (given_tags items)) [
  | none ↦ none
  | some ss ↦ if unique ss then some ss else none
]

abbrev pub is_managed_catchall : Object → Bool
is_managed_catchall rule =
    is_catchall_rule rule
    && (is_text "direct" (outbound_tag rule)
        || (is_text "warp-out" (outbound_tag rule) || is_cascade_tag (outbound_tag rule)))

-- `isinstance(tag, str) and tag in tags`
abbrev pub names : List String → Json → Bool
names tags v = elim v [ str s ↦ contains tags s | _ ↦ false ]

abbrev pub list_names : List String → Json → Bool
list_names tags v = elim v [ arr xs ↦ all (names tags) (elements xs) | _ ↦ false ]

abbrev pub if_present : Object → String → Bool → Bool
if_present d key test = not (has_key d key) || test

abbrev begins_client : Json → Bool
begins_client v = elim v [ str s ↦ starts_with s "client-route-" | _ ↦ false ]

-- The references of one rule; `cascaded` says that the catch-all goes to a cascade.
abbrev pub rule_resolves : List String → List String → List String → String → Bool → Object → Bool
rule_resolves inbound_tags outbound_tags balancer_tags api_tag cascaded rule =
    if_present rule "inboundTag" (list_names inbound_tags (get rule "inboundTag"))
    && (if_present rule "outboundTag" (names (api_tag ∷ outbound_tags) (get rule "outboundTag"))
        && if_present rule "balancerTag" (
            names balancer_tags (get rule "balancerTag")
            && (not (begins_client (get rule "balancerTag")) || cascaded)))

-- `str(d.get(key, "")).startswith(prefix)`
abbrev text_begins : Object → String → String → Bool
text_begins d key prefix = has_key d key && starts_with (py_str (get d key)) prefix

abbrev selects_some : List String → Json → Bool
selects_some outbound_tags v = elim v [
  | arr nil ↦ false
  | arr (cons x xs) ↦ all (names outbound_tags) (x ∷ elements xs)
  | _ ↦ false
]

abbrev pub balancer_resolves : List String → Bool → Object → Bool
balancer_resolves outbound_tags cascaded balancer =
    not (text_begins balancer "tag" "client-route-")
    || selects_some outbound_tags (get balancer "selector") && cascaded

abbrev pub is_warning : Object → Bool
is_warning rule = text_begins rule "outboundTag" "geoip-warning-"

-- A rule that must stand before the warnings.
abbrev pub is_early_block : Object → Bool
is_early_block rule =
    is_text "blocked" (outbound_tag rule)
    && (any (is_text "bittorrent") (rule_values rule "protocol")
        || any (is_text "geoip:private") (rule_values rule "ip"))

-- The index of the first warning; the first argument is that of the head.
unfoldable pub first_warning : ℕ → List Object → Option ℕ
first_warning index [] = none
first_warning index (r ∷ rules) =
    let rest = first_warning (suc index) rules in if is_warning r then some index else rest

-- Every early block has an index below the given one.
unfoldable pub blocks_before : ℕ → ℕ → List Object → Bool
blocks_before first index [] = true
blocks_before first index (r ∷ rules) =
    (not (is_early_block r) || ltb index first) && blocks_before first (suc index) rules

unfoldable pub blocks_first : List Object → Bool
blocks_first rules = elim (first_warning 0 rules) [ none ↦ true | some n ↦ blocks_before n 0 rules ]

-- `inbound_tag(inbound).startswith(prefix)` of config.py; a tag that is missing is `vless-reality`.
abbrev tag_begins : Object → String → Bool
tag_begins inbound prefix = elim (get inbound "tag") [
  | str s ↦ starts_with (if s == "" then "vless-reality" else s) prefix
  | null ↦ starts_with "vless-reality" prefix
  | _ ↦ false
]

abbrev stream_is : Object → String → String → Bool
stream_is inbound key value = elim (get inbound "streamSettings") [
  | obj fs ↦ is_text value (get (members fs) key)
  | _ ↦ false
]

-- Whether `managed_connection_inbounds(config)` holds the inbound.
abbrev pub is_managed_inbound : Object → Bool
is_managed_inbound inbound =
    is_text "vless" (get inbound "protocol")
      && (stream_is inbound "security" "reality"
          || tag_begins inbound "vless-tls" && stream_is inbound "network" "xhttp")
    || is_text "trojan" (get inbound "protocol") && tag_begins inbound "trojan-tls"

abbrev has_email : Object → Bool
has_email client = elim (get client "email") [ str s ↦ not (strip s == "") | _ ↦ false ]

-- `settings.get("clients", settings.get("users", []))`
abbrev clients_at : Object → Option (List Object)
clients_at settings =
    if has_key settings "clients"
    then objects_in (get settings "clients")
    else objects_at settings "users"

abbrev pub emails_given : Object → Bool
emails_given inbound = elim (section_at inbound "settings") [
  | none ↦ false
  | some settings ↦ elim (clients_at settings) [
    | none ↦ false
    | some clients ↦ all has_email clients
  ]
]

abbrev first_is_direct : List Object → Bool
first_is_direct [] = false
first_is_direct (o ∷ _) = tag_is "direct" o

-- `catchalls[0].get("outboundTag", "")` is a cascade's tag.
abbrev pub goes_to_cascade : List Object → Bool
goes_to_cascade [] = false
goes_to_cascade (r ∷ _) = is_cascade_tag (outbound_tag r)

-- The first rule is that of the API.
abbrev api_first : String → List Object → Bool
api_first api_tag [] = false
api_first api_tag (r ∷ _) =
    same (get r "inboundTag") (texts (api_tag ∷ [])) && is_text api_tag (outbound_tag r)

-- The groups 1 to 5, from the tags on.
unfoldable pub groups_hold :
    List Object
    → List Object
    → List Object
    → List String
    → List String
    → List String
    → String
    → Bool
groups_hold inbounds rules balancers inbound_tags outbound_tags balancer_tags api_tag =
    let catchalls = filter is_managed_catchall rules in
    let cascaded = goes_to_cascade catchalls in
    contains outbound_tags "blocked"
    && (leb (length catchalls) 1
        && (api_first api_tag rules
            && (all (rule_resolves inbound_tags outbound_tags balancer_tags api_tag cascaded) rules
                && (all (balancer_resolves outbound_tags cascaded) balancers
                    && (blocks_first rules
                        && all (λ i. not (is_managed_inbound i) || emails_given i) inbounds)))))

abbrev api_tag_of : Object → Option String
api_tag_of api = elim (get api "tag") [ str s ↦ if strip s == "" then none else some s | _ ↦ none ]

-- The parts of a configuration that the checks are about.
pub record Parts : Type 0 where
  pub inbounds : List Object
  pub outbounds : List Object
  pub rules : List Object
  pub balancers : List Object
  pub api : Object

infixl 5 ◌>>=◌
abbrev ◌>>=◌ : {A B : Type 0} → Option A → (A → Option B) → Option B
none >>= f = none
some a >>= f = f a

unfoldable pub parts_of : Object → Option Parts
parts_of config = do
  inbounds ← objects_at config "inbounds"
  outbounds ← objects_at config "outbounds"
  routing ← section_at config "routing"
  rules ← objects_at routing "rules"
  balancers ← objects_at routing "balancers"
  api ← section_at config "api"
  some (record {
    inbounds = inbounds;
    outbounds = outbounds;
    rules = rules;
    balancers = balancers;
    api = api;
  })

unfoldable pub parts_hold : Parts → Bool
parts_hold p = elim (tags_of p.inbounds) [
  | none ↦ false
  | some inbound_tags ↦ elim (tags_of p.outbounds) [
    | none ↦ false
    | some outbound_tags ↦ elim (tags_of p.balancers) [
      | none ↦ false
      | some balancer_tags ↦ elim (api_tag_of p.api) [
        | none ↦ false
        | some api_tag ↦
            first_is_direct p.outbounds
            && groups_hold p.inbounds p.rules p.balancers inbound_tags outbound_tags balancer_tags
                api_tag
      ]
    ]
  ]
]

unfoldable pub validate : Object → Bool
validate config = elim (parts_of config) [ none ↦ false | some p ↦ parts_hold p ]
