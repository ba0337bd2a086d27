-- ===== src/Xray/Inbounds.antt =====
-- xray_vps_manager/xray/config.py: the inbounds that the manager looks after, and their clients.
pub mod Found
use xray_vps_manager.Base.{
  String, Bool, true, false, not, ◌&&◌, ◌||◌, Option, none, some, List, [], ◌∷◌, ◌++◌, map,
  if◌then◌else◌, get_or, is_some, filter, find, any, starts_with, ◌==◌,
}
use xray_vps_manager.Json.{Object, get, is_text, text_or_empty}
use xray_vps_manager.Clients.Email.{split_email}

-- An inbound of config.json: its `streamSettings`, the lists in its `settings`, where `none` is a
-- missing key, and the texts of its tag and protocol, where "" is a missing one.
pub record Inbound : Type 0 where
  pub tag : String
  pub protocol : String
  pub stream : Object
  pub clients : Option (List Object)
  pub users : Option (List Object)

unfoldable pub inbound_tag : Inbound → String
inbound_tag inbound = if inbound.tag == "" then "vless-reality" else inbound.tag

unfoldable pub is_reality : Inbound → Bool
is_reality inbound =
    inbound.protocol == "vless" && is_text "reality" (get inbound.stream "security")

unfoldable pub is_tls_xhttp : Inbound → Bool
unfolding inbound_tag
is_tls_xhttp inbound =
    inbound.protocol == "vless"
    && (starts_with (inbound_tag inbound) "vless-tls"
        && is_text "xhttp" (get inbound.stream "network"))

unfoldable pub is_trojan : Inbound → Bool
unfolding inbound_tag
is_trojan inbound = inbound.protocol == "trojan" && starts_with (inbound_tag inbound) "trojan-tls"

-- An inbound that is equal to one of the first list has its security, and is one of it.
unfoldable pub is_tls_only : Inbound → Bool
unfolding is_tls_xhttp is_reality
is_tls_only inbound = is_tls_xhttp inbound && not (is_reality inbound)

unfoldable pub vless_connection_inbounds : List Inbound → List Inbound
vless_connection_inbounds inbounds = filter is_reality inbounds ++ filter is_tls_only inbounds

-- No trojan inbound is equal to a vless inbound: the protocols differ.
unfoldable pub managed_connection_inbounds : List Inbound → List Inbound
unfolding vless_connection_inbounds
managed_connection_inbounds inbounds =
    vless_connection_inbounds inbounds ++ filter is_trojan inbounds

abbrev pub is_managed : Inbound → Bool
is_managed inbound = is_reality inbound || (is_tls_only inbound || is_trojan inbound)

-- The settings after a call of `clients`, which moves the users of a trojan inbound.
unfoldable pub migrated : Inbound → Inbound
migrated inbound =
    if inbound.protocol == "trojan"
    then record inbound {
      clients = some (get_or inbound.clients (get_or inbound.users []));
      users = none;
    }
    else record inbound { clients = some (get_or inbound.clients []) }

-- `clients(inbound)`
abbrev pub clients_of : Inbound → List Object
clients_of inbound = get_or (migrated inbound).clients []

unfoldable pub set_clients : Inbound → List Object → Inbound
set_clients inbound items = record inbound {
  clients = some items;
  users = if inbound.protocol == "trojan" then none else inbound.users;
}

unfoldable pub client_name : Object → String
client_name item = (split_email (text_or_empty (get item "email"))).0

abbrev pub with_tag : String → Inbound → Bool
with_tag tag inbound = inbound_tag inbound == tag

-- `none` is the ValueError.
unfoldable pub find_inbound_by_tag : List Inbound → String → Option Inbound
unfolding managed_connection_inbounds
find_inbound_by_tag inbounds tag = find (with_tag tag) (managed_connection_inbounds inbounds)

abbrev pub active_client : Inbound → String → Option Object
active_client inbound name = find (λ item. client_name item == name) (clients_of inbound)

-- A change of the first inbound of a kind with a tag.
abbrev pub change_first : (Inbound → Bool) → (Inbound → Inbound) → List Inbound → List Inbound
change_first p f [] = []
change_first p f (i ∷ is) = let rest = change_first p f is in if p i then f i ∷ is else i ∷ rest

abbrev pub of_kind : (Inbound → Bool) → String → Inbound → Bool
of_kind kind tag inbound = kind inbound && with_tag tag inbound

-- A change in place of the inbound that `find_inbound_by_tag` returns.
unfoldable pub change_found : String → (Inbound → Inbound) → List Inbound → List Inbound
change_found tag f inbounds =
    if any (of_kind is_reality tag) inbounds
    then change_first (of_kind is_reality tag) f inbounds
    else if any (of_kind is_tls_only tag) inbounds
    then change_first (of_kind is_tls_only tag) f inbounds
    else change_first (of_kind is_trojan tag) f inbounds

-- `default_connection_tag`; `none` is the ValueError.
unfoldable pub default_connection_tag : List Inbound → Option String
unfolding vless_connection_inbounds managed_connection_inbounds
default_connection_tag inbounds =
    if any (with_tag "vless-reality") (filter is_reality inbounds)
    then some "vless-reality"
    else elim (vless_connection_inbounds inbounds) [
      | i ∷ is ↦ some (inbound_tag i)
      | [] ↦ elim (managed_connection_inbounds inbounds) [
        | i ∷ is ↦ some (inbound_tag i)
        | [] ↦ none
      ]
    ]
