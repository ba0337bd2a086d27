-- ===== src/Xray/Cascade/Active.antt =====
-- `activate_cascade_route` of cascade.py: the cascade becomes the only managed catch-all.
use mathlib.Core.List.{append-nil}
use xray_vps_manager.Base.{
  ◌≡◌, refl, ◌∙◌, Bool, true, not, some, List, [], ◌∷◌, ◌++◌, arith, filter, String, filter-append,
  find_holds, find-filter_holds, filter_idem,
}
use xray_vps_manager.Json.{
  Object, get, is_text_sound, text_or_empty-str, str, has_key, text_or_empty,
}
use xray_vps_manager.Xray.Config.{
  Config, outbounds_of, rules_of, tag_is, outbound_tag, routing_rules,
}
use xray_vps_manager.Xray.Cascade.{
  last_catchall, current_catchall_tag, cascade_outbound, cascade_outbounds, active_cascade_tag,
  catchall_route, is_catchall_rule, is_managed_catchall_rule, is_cascade_tag,
  activate_cascade_route, append_catchall_route, remove_managed_catchall_routes,
}

abbrev pub unmanaged : Object → Bool
unmanaged rule = not (is_managed_catchall_rule rule)

catchall_route-catchall : (tag : String) → is_catchall_rule (catchall_route tag) ≡ true
unfolding is_catchall_rule get has_key
catchall_route-catchall tag = refl

outbound_tag-catchall_route : (tag : String) → outbound_tag (catchall_route tag) ≡ str tag
unfolding get
outbound_tag-catchall_route tag = refl

last_catchall-append :
    (rules : List Object) (found : String) (rule : Object)
    → is_catchall_rule rule ≡ true
    → last_catchall (rules ++ (rule ∷ [])) found ≡ text_or_empty (outbound_tag rule)
unfolding last_catchall
last_catchall-append [] found rule h = rw h
last_catchall-append (r ∷ rules) found rule h = last_catchall-append rules _ rule h

cascade_outbound-cascade :
    (c : Config) (tag : String) (o : Object)
    → cascade_outbound c tag ≡ some o
    → is_cascade_tag (str tag) ≡ true
unfolding cascade_outbound cascade_outbounds
cascade_outbound-cascade c tag o h =
    let found = find_holds (tag_is tag) (cascade_outbounds c) o h in
    rw (← is_text_sound tag (get o "tag") found)
      (find-filter_holds (tag_is tag) (λ p. is_cascade_tag (get p "tag")) (outbounds_of c) o h)

-- The rules that `activate_cascade_route` leaves.
abbrev pub activated_rules : Config → String → List Object
activated_rules c tag = filter unmanaged (rules_of c) ++ (catchall_route tag ∷ [])

managed-catchall_route :
    (tag : String)
    → is_cascade_tag (str tag) ≡ true
    → is_managed_catchall_rule (catchall_route tag) ≡ true
unfolding is_managed_catchall_rule
managed-catchall_route tag h =
    rw outbound_tag-catchall_route (ground (arith, h, catchall_route-catchall tag))

filter-managed_unmanaged :
    (rules : List Object) → filter is_managed_catchall_rule (filter unmanaged rules) ≡ []
filter-managed_unmanaged [] = refl
filter-managed_unmanaged (r ∷ rules) = ground (arith, filter-managed_unmanaged rules)

module _ (c : Config) (tag : String) (o : Object) (found : cascade_outbound c tag ≡ some o) where
  abbrev activated : Config
  unfolding append_catchall_route remove_managed_catchall_routes
  activated = append_catchall_route (remove_managed_catchall_routes c).0 tag

  activate_some : activate_cascade_route c tag ≡ some activated
  unfolding activate_cascade_route
  activate_some = rw (found, activate_cascade_route)

  activated-rules : rules_of activated ≡ activated_rules c tag
  unfolding activate_cascade_route
  activated-rules = refl

  activated-outbounds : outbounds_of activated ≡ outbounds_of c
  unfolding activate_cascade_route routing_rules
  activated-outbounds = refl

  activated-current : current_catchall_tag activated ≡ tag
  unfolding current_catchall_tag
  activated-current = rw (activated-rules) (
      last_catchall-append (filter unmanaged (rules_of c)) "" (catchall_route tag)
        (catchall_route-catchall tag)
      ∙ rw outbound_tag-catchall_route (text_or_empty-str tag))

  activated-active : active_cascade_tag activated ≡ tag
  unfolding active_cascade_tag cascade_outbound cascade_outbounds
  activated-active =
      ground (
        arith,
        activated-current,
        activated-outbounds,
        found,
        cascade_outbound-cascade c tag o found,
      )

module _ (rules : List Object) (tag : String)
    (managed : is_managed_catchall_rule (catchall_route tag) ≡ true) where
  unmanaged-activated :
      filter unmanaged (filter unmanaged rules ++ (catchall_route tag ∷ []))
      ≡ filter unmanaged rules
  unmanaged-activated =
      filter-append unmanaged (filter unmanaged rules) (catchall_route tag ∷ [])
      ∙ rw (filter_idem unmanaged rules, managed) (append-nil _)

  managed-activated :
      filter is_managed_catchall_rule (filter unmanaged rules ++ (catchall_route tag ∷ []))
      ≡ catchall_route tag ∷ []
  managed-activated =
      filter-append is_managed_catchall_rule (filter unmanaged rules) (catchall_route tag ∷ [])
      ∙ rw (filter-managed_unmanaged rules, managed)

-- If a cascade outbound has the tag, then `activate_cascade_route` returns, the current catch-all
-- and the active cascade of the result are that tag, the rules that are no managed catch-all are
-- the same in the same order, and the new catch-all is the only managed one.
pub activate_cascade_route_lem :
    (c : Config) (tag : String) (o : Object)
    → cascade_outbound c tag ≡ some o
    → (c' : Config) × (activate_cascade_route c tag ≡ some c')
      × (current_catchall_tag c' ≡ tag)
      × (active_cascade_tag c' ≡ tag)
      × (filter unmanaged (rules_of c') ≡ filter unmanaged (rules_of c))
      × (filter is_managed_catchall_rule (rules_of c') ≡ catchall_route tag ∷ [])
activate_cascade_route_lem c tag o found =
    let managed : is_managed_catchall_rule (catchall_route tag) ≡ true =
      managed-catchall_route tag (cascade_outbound-cascade c tag o found) in
    (
      activated c tag o found,
      activate_some c tag o found,
      activated-current c tag o found,
      activated-active c tag o found,
      rw (activated-rules c tag o found) (unmanaged-activated (rules_of c) tag managed),
      rw (activated-rules c tag o found) (managed-activated (rules_of c) tag managed),
    )
