-- ===== src/Xray/ClientRoutes/Clean.antt =====
-- What the removals of client_routes.py leave.
use xray_vps_manager.Base.{
  ◌≡◌, refl, String, Bool, true, not, ◌&&◌, ◌||◌, List, [], ◌∷◌, arith, filter, all, all-filter,
  contains, any, ◌==◌, map, ap,
}
use xray_vps_manager.Json.{
  Json, py_str, str, Object, get, put, texts, text_or_empty, get-put, array, elements,
}
use xray_vps_manager.Xray.Config.{
  Config, rules_of, balancers_of, balancer_tag_text, routing_rules, routing_balancers,
}
use xray_vps_manager.Xray.Cascade.{cascade_tags}
use xray_vps_manager.Xray.ClientRoutes.{is_client_rule, is_client_balancer}
use xray_vps_manager.Xray.ClientRoutes.Remove.{
  is_stale_rule, is_empty, available_selector, selector_items, keep_available,
  remove_unavailable_client_route_config,
}

abbrev pub not_client_rule : Object → Bool
not_client_rule r = not (is_client_rule r)

abbrev pub not_client_balancer : Object → Bool
not_client_balancer b = not (is_client_balancer b)

-- If the balancer is a client's, its selector is a non-empty list of configured cascades.
abbrev pub selects_configured : List String → Object → Bool
selects_configured configured b =
    not (is_client_balancer b)
    || not (is_empty (selector_items b)) && all (contains configured) (selector_items b)

-- A client's balancer with this tag.
abbrev pub is_balancer_for : String → Object → Bool
is_balancer_for tag b = is_client_balancer b && text_or_empty (get b "tag") == tag

-- If the rule is a client's, its balancer is there.
abbrev pub has_balancer : List Object → Object → Bool
has_balancer balancers r =
    not (is_client_rule r) || any (is_balancer_for (balancer_tag_text r)) balancers

texts-elements : (ss : List String) → map py_str (elements (array (map str ss))) ≡ ss
texts-elements [] = refl
texts-elements (s ∷ ss) = ap (λ t. s ∷ t) (texts-elements ss)

is_client_balancer-put :
    (b : Object) (v : Json) → is_client_balancer (put b "selector" v) ≡ is_client_balancer b
unfolding is_client_balancer
is_client_balancer-put b v = rw (get-put b "selector" v "tag")

tag-put : (b : Object) (v : Json) → get (put b "selector" v) "tag" ≡ get b "tag"
tag-put b v = get-put b "selector" v "tag"

selector_items-put :
    (b : Object) (ss : List String) → selector_items (put b "selector" (texts ss)) ≡ ss
unfolding selector_items
selector_items-put b ss =
    rw (get-put b "selector" (texts ss) "selector", selector_items) (texts-elements ss)

module _ (configured : List String) where
  keep_available-selects :
      (bs : List Object)
      → all (selects_configured configured) (keep_available configured bs).0 ≡ true
  unfolding keep_available
  keep_available-selects [] = refl
  keep_available-selects (b ∷ bs) =
      let selector = available_selector configured b in
      ground (
        arith,
        keep_available-selects bs,
        selector_items-put b selector,
        is_client_balancer-put b (texts selector),
        all-filter (contains configured) (selector_items b),
      )

  contains-keep_available :
      (tag : String) (bs : List Object)
      → contains (keep_available configured bs).1 tag
        ≡ any (is_balancer_for tag) (keep_available configured bs).0
  unfolding keep_available
  contains-keep_available tag [] = refl
  contains-keep_available tag (b ∷ bs) =
      let selector = available_selector configured b in
      ground (
        arith,
        contains-keep_available tag bs,
        tag-put b (texts selector),
        is_client_balancer-put b (texts selector),
      )

  keep_available-others :
      (bs : List Object)
      → filter not_client_balancer (keep_available configured bs).0 ≡ filter not_client_balancer bs
  unfolding keep_available
  keep_available-others [] = refl
  keep_available-others (b ∷ bs) = ground (
    arith,
    keep_available-others bs,
    is_client_balancer-put b (texts (available_selector configured b)),
  )

  kept-has_balancer :
      (rules bs : List Object)
      → let (kept, tags) = keep_available configured bs in
        all (has_balancer kept) (filter (λ r. not (is_stale_rule tags r)) rules) ≡ true
  kept-has_balancer [] bs = refl
  kept-has_balancer (r ∷ rules) bs =
      ground (arith, kept-has_balancer rules bs, contains-keep_available (balancer_tag_text r) bs)

kept-others :
    (tags : List String) (rules : List Object)
    → filter not_client_rule (filter (λ r. not (is_stale_rule tags r)) rules)
      ≡ filter not_client_rule rules
kept-others tags [] = refl
kept-others tags (r ∷ rules) = ground (arith, kept-others tags rules)

-- After `remove_unavailable_client_route_config` each client balancer selects at least one cascade
-- and only configured ones, each client rule has its balancer, and the rules and balancers that are
-- no client's are the same in the same order.
pub remove_unavailable_client_route_config_lem :
    (c : Config)
    → let c' = (remove_unavailable_client_route_config c).0 in
      (all (selects_configured (cascade_tags c)) (balancers_of c') ≡ true)
      × (all (has_balancer (balancers_of c')) (rules_of c') ≡ true)
      × (filter not_client_rule (rules_of c') ≡ filter not_client_rule (rules_of c))
      × (filter not_client_balancer (balancers_of c') ≡ filter not_client_balancer (balancers_of c))
unfolding remove_unavailable_client_route_config routing_rules routing_balancers
remove_unavailable_client_route_config_lem c =
    let configured = cascade_tags c in
    (
      keep_available-selects configured (balancers_of c),
      kept-has_balancer configured (rules_of c) (balancers_of c),
      kept-others (keep_available configured (balancers_of c)).1 (rules_of c),
      keep_available-others configured (balancers_of c),
    )
