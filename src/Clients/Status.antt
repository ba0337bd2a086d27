-- ===== src/Clients/Status.antt =====
-- xray_vps_manager/clients/status.py: the end of the access of clients.
pub mod Reconcile
pub mod Steps
pub mod Due
pub mod Expired
use xray_vps_manager.Base.{
  ℕ, String, Bool, true, false, not, ◌&&◌, ◌||◌, Option, none, some, List, [], ◌∷◌, ◌++◌, map,
  if◌then◌else◌, contains, get_or, ◌==◌,
}
use xray_vps_manager.Base.Assoc.{lookup, insert}
use xray_vps_manager.Json.{str, Object, put}
use xray_vps_manager.Clients.Access.{Moment, access_expired}
use xray_vps_manager.Clients.Limits.{LimitedEntry}
use xray_vps_manager.Clients.Entry.{Credential, Entry, blank, or_text}
use xray_vps_manager.Clients.Credentials.{
  Credentials, sync_legacy_fields, normalize_entry_credentials, Removal, remove_active_credential,
}
use xray_vps_manager.Xray.Inbounds.{
  Inbound, is_managed, managed_connection_inbounds, migrated, clients_of, client_name,
}

-- `db["clients"]`
abbrev pub Clients : Type 0
Clients = List (String × Entry)

-- The item as it is kept in a credential; `id` is that of the entry.
abbrev stored : String → Credential → Object → Object
stored id c item =
    if get_or c.protocol "" == "trojan"
    then put (put item "id" (str (or_text (get_or c.id "") id))) "protocol" (str "trojan")
    else item

abbrev pub switched_off : String → Credential → Option Object → Credential
switched_off id c none = record c { enabled = some false }
switched_off id c (some item) = record c { client = some (stored id c item); enabled = some false }

-- The loop over the credentials of an entry: the credentials, the inbounds and the flag after it.
pub record Loop : Type 0 where
  pub credentials : Credentials
  pub inbounds : List Inbound
  pub changed : Bool

unfoldable pub disable_each : String → String → Credentials → List Inbound → Loop
disable_each name id [] inbounds = record { credentials = []; inbounds = inbounds; changed = false }
disable_each name id ((tag, c) ∷ cs) inbounds =
    let removal = remove_active_credential inbounds name tag in
    let rest = disable_each name id cs removal.inbounds in
    record {
      credentials = (tag, switched_off id c removal.item) ∷ rest.credentials;
      inbounds = rest.inbounds;
      changed = removal.removed || rest.changed;
    }

-- `clear_traffic_limit_exceeded_state`
unfoldable pub clear_traffic_limit_exceeded_state : Entry → Entry
clear_traffic_limit_exceeded_state entry = record entry {
  limited = record (entry.limited) {
    exceeded_at = none;
    exceeded_period = none;
    exceeded_bytes = none;
  };
  reset_at = none;
}

unfoldable pub clear_disabled_state : Entry → Entry
unfolding clear_traffic_limit_exceeded_state
clear_disabled_state entry =
    let cleared = clear_traffic_limit_exceeded_state entry in
    record cleared {
      access = record (cleared.access) { expired_at = none };
      limited = record (cleared.limited) { disabled_reason = none };
      disabled_at = none;
    }

abbrev pub marked_expired : String → Entry → Entry
marked_expired stamp entry = record entry {
  access = record (entry.access) { expired_at = some stamp };
  limited = record (entry.limited) { disabled_reason = some "expired" };
  disabled_at = some stamp;
}

-- `clients(inbound)` of every managed inbound, in their order.
abbrev pub items_in : List Inbound → List Object
items_in [] = []
items_in (i ∷ is) = clients_of i ++ items_in is

abbrev pub touched : Inbound → Inbound
touched i = if is_managed i then migrated i else i

-- The configuration, the clients and the names after a run.
pub record ExpireDueResult : Type 0 where
  pub inbounds : List Inbound
  pub clients : Clients
  pub due_names : List String

module _ (lower : String → String) where
  unfoldable pub disabled_entry_for_policy : List Inbound → String → Entry → Loop × Entry
  unfolding disable_each
  disabled_entry_for_policy inbounds name entry =
      let credentials = (normalize_entry_credentials lower entry).credentials in
      let loop = disable_each name entry.id credentials inbounds in
      (
        loop,
        sync_legacy_fields (record entry {
          credentials = loop.credentials;
          limited = record (entry.limited) { enabled = some false };
        }),
      )

  module _ (parse_datetime : String → Option Moment) (midnight : ℕ → String) (now : ℕ) where
    -- `access_expired(db_clients(db).get(name, {}), now)`
    abbrev pub is_due : Clients → String → Bool
    is_due clients name =
        access_expired parse_datetime midnight (get_or (lookup clients name) blank).access now

    -- The loop that fills `due_names`; `seen` are the names in `due_clients`.
    unfoldable pub due_from : Clients → List String → List Object → List String
    due_from clients seen [] = []
    due_from clients seen (item ∷ items) =
        let name = client_name item in
        let next = name ∷ due_from clients (name ∷ seen) items in
        let rest = due_from clients seen items in
        if contains seen name then rest else if is_due clients name then next else rest

    -- The loop over `due_names`. Each of them has an entry: `access_expired({})` is false.
    unfoldable pub expire_each : String → List String → List Inbound → Clients → ExpireDueResult
    unfolding disabled_entry_for_policy
    expire_each stamp [] inbounds clients = record {
      inbounds = inbounds;
      clients = clients;
      due_names = [];
    }
    expire_each stamp (name ∷ names) inbounds clients = elim (lookup clients name) [
      | none ↦ expire_each stamp names inbounds clients
      | some entry ↦
          let (loop, disabled) = disabled_entry_for_policy inbounds name entry in
          expire_each stamp names loop.inbounds
            (insert clients name (marked_expired stamp disabled))
    ]

    unfoldable pub expire_due_clients : String → List Inbound → Clients → ExpireDueResult
    unfolding due_from expire_each
    expire_due_clients stamp inbounds clients =
        let due = due_from clients [] (items_in (managed_connection_inbounds inbounds)) in
        record (expire_each stamp due (map touched inbounds) clients) { due_names = due }
