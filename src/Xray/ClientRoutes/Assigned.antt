-- ===== src/Xray/ClientRoutes/Assigned.antt =====
-- The default choice of cascades for the clients (client_routes.py).
use xray_vps_manager.Base.{
  refl, eq_iff, ◌≡◌, refl, String, Bool, true, false, ◌&&◌, List, [], ◌∷◌, arith, all, filter, map,
  find, contains, ◌==◌, eq_iff, is_some, Bool-cases, inl, inr,
}
use xray_vps_manager.Json.{str, Object, get, put, get-put, strip, py_str, truthy, is_text_sound}
use xray_vps_manager.Xray.Config.{Config, tag_is}
use xray_vps_manager.Xray.Cascade.{
  is_cascade_tag, current_catchall_tag, cascade_outbound, active_cascade_tag, cascade_outbound,
  cascade_outbounds, cascade_tags,
}
use xray_vps_manager.Xray.ClientRoutes.{selected_route_tag}
use xray_vps_manager.Xray.ClientRoutes.Metadata.{
  RouteDb, has_choice, assign_clients, assign_default_client_routes,
}

abbrev pub chooses : List String → String × Object → Bool
chooses configured (name, entry) = has_choice configured entry

contains-tags :
    (tag : String) (os : List Object)
    → is_some (find (tag_is tag) os) ≡ true
    → (tag == "") ≡ false
    → contains (map (λ o. py_str (get o "tag")) (filter (λ o. truthy (get o "tag")) os)) tag ≡ true
contains-tags tag [] h k = absurd (ground arith)
contains-tags tag (o ∷ os) h k = elim (Bool-cases (tag_is tag o)) [
  | inl e ↦
      let path = is_text_sound tag (get o "tag") e in rw path (ground (arith, k, eq_iff tag tag))
  | inr e ↦ ground (arith, contains-tags tag os, e, k)
]

active-found :
    (c : Config)
    → (active_cascade_tag c == "") ≡ false
    → is_some (cascade_outbound c (active_cascade_tag c)) ≡ true
unfolding active_cascade_tag
active-found c h =
    elim (Bool-cases (
      is_cascade_tag (str (current_catchall_tag c))
      && is_some (cascade_outbound c (current_catchall_tag c)))) [
        | inl e ↦ rw e (ground (arith, e))
        | inr e ↦
            let empty : active_cascade_tag c ≡ "" = rw e refl in
            absurd (ground (arith, h, eq_iff (active_cascade_tag c) "", empty))
      ]

contains-active :
    (c : Config)
    → (active_cascade_tag c == "") ≡ false
    → contains (cascade_tags c) (active_cascade_tag c) ≡ true
unfolding cascade_tags
contains-active c h =
    contains-tags (active_cascade_tag c) (cascade_outbounds c)
      (unfold cascade_outbound in active-found c h) h

chooses-put :
    (configured : List String) (active : String) (entry : Object)
    → contains configured active ≡ true
    → strip active ≡ active
    → (active == "") ≡ false
    → has_choice configured (put entry "selectedCascadeTag" (str active)) ≡ true
unfolding selected_route_tag
chooses-put configured active entry h k l =
    rw (get-put entry "selectedCascadeTag" (str active) "selectedCascadeTag") (rw (l, k, l) h)

assign_clients-chooses :
    (active : String) (configured : List String) (clients : List (String × Object))
    → contains configured active ≡ true
    → strip active ≡ active
    → (active == "") ≡ false
    → all (chooses configured) (assign_clients active configured clients).0 ≡ true
unfolding assign_clients
assign_clients-chooses active configured [] h k l = refl
assign_clients-chooses active configured ((name, entry) ∷ rest) h k l = ground (
  arith,
  assign_clients-chooses active configured rest h k l,
  chooses-put configured active entry h k l,
)

-- If there is an active cascade, whose tag has no blanks around it, then after
-- `assign_default_client_routes` every client's choice is a configured cascade.
pub assign_default_client_routes-chooses :
    (c : Config) (db : RouteDb)
    → (active_cascade_tag c == "") ≡ false
    → strip (active_cascade_tag c) ≡ active_cascade_tag c
    → all (chooses (cascade_tags c)) (assign_default_client_routes c db).0.clients ≡ true
unfolding assign_default_client_routes
assign_default_client_routes-chooses c db h k = rw h (
    assign_clients-chooses (active_cascade_tag c) (cascade_tags c) db.clients (contains-active c h)
      k h)
