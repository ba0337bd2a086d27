-- ===== src/Clients/Credentials.antt =====
-- xray_vps_manager/clients/credentials.py: the credentials of an entry, and those that are active in
-- config.json.
pub mod Removed
pub mod Active
use xray_vps_manager.Base.{
  ℕ, String, Bool, true, false, not, ◌&&◌, ◌||◌, Option, none, some, List, [], ◌∷◌, map, find,
  filter, any, length, nat_eq, if◌then◌else◌, get_or, is_some, ◌==◌,
}
use xray_vps_manager.Base.Assoc.{lookup, insert}
use xray_vps_manager.Base.Sort.{sorted_set}
use xray_vps_manager.Json.{str, Object, get, truthy, strip}
use xray_vps_manager.Clients.Entry.{Credential, Entry, or_text, set_default, text_of, protocol_of}
use xray_vps_manager.Xray.Inbounds.{
  Inbound, migrated, clients_of, set_clients, client_name, find_inbound_by_tag, change_found,
}

abbrev pub Credentials : Type 0
Credentials = List (String × Credential)

abbrev pub credential_key : String → String
credential_key tag = strip tag

-- `value is not False`
abbrev pub is_on : Option Bool → Bool
is_on none = true
is_on (some b) = b

-- `d.pop(k, None)`
abbrev pub drop_key : Credentials → String → Credentials
drop_key [] k = []
drop_key ((j, c) ∷ d) k = let rest = drop_key d k in if j == k then rest else (j, c) ∷ rest

abbrev is_empty : Object → Bool
is_empty [] = true
is_empty ((k, v) ∷ d) = false

-- The first of the keys in their order.
abbrev pub first_key : Credentials → Option String
first_key credentials = elim (sorted_set (map (λ p. p.0) credentials)) [
  | [] ↦ none
  | k ∷ ks ↦ some k
]

-- The credential that the fields of the entry itself show.
unfoldable pub primary_credential : Entry → Option Credential
primary_credential entry = elim (lookup entry.credentials (get_or entry.connection "")) [
  | some c ↦ some c
  | none ↦ elim (first_key entry.credentials) [ none ↦ none | some k ↦ lookup entry.credentials k ]
]

abbrev client_with_id : Credential → Object
client_with_id c =
    let client = get_or c.client [] in
    let id = get_or c.id "" in if id == "" then client else set_default client "id" (str id)

unfoldable pub sync_legacy_fields : Entry → Entry
unfolding primary_credential
sync_legacy_fields entry = elim (primary_credential entry) [
  | none ↦ entry
  | some c ↦ record entry {
    connection = some (get_or c.connection "");
    client = client_with_id c;
    protocol = some (get_or c.protocol "vless");
    limited = record (entry.limited) {
      enabled = some (any (λ p. is_on (p.1).enabled) entry.credentials);
    };
  }
]

module _ (lower : String → String) where
  unfoldable pub legacy_credential_from_entry : Entry → Option Credential
  legacy_credential_from_entry entry =
      let tag = credential_key (get_or entry.connection "") in
      let protocol =
        protocol_of lower (or_text (get_or entry.protocol "") (text_of entry.client "protocol"))
          entry.client in
      if tag == "" || is_empty entry.client
      then none
      else some (record {
        connection = some tag;
        id = some (or_text (text_of entry.client "id") entry.id);
        protocol = some (or_text protocol "vless");
        security = none;
        transport = none;
        enabled = some (is_on entry.limited.enabled);
        created = some entry.created;
        client = some entry.client;
        link_metadata = some [];
      })

  -- The credentials, or the one of an old entry.
  unfoldable pub or_legacy : Entry → Credentials
  unfolding legacy_credential_from_entry
  or_legacy entry = elim entry.credentials [
    | c ∷ cs ↦ c ∷ cs
    | [] ↦ elim (legacy_credential_from_entry entry) [
      | none ↦ []
      | some c ↦ (credential_key (get_or c.connection ""), c) ∷ []
    ]
  ]

  -- What the loop of `normalize_entry_credentials` sets in a credential under a key.
  unfoldable pub filled : Entry → String → Credential → Credential
  filled entry key c =
      let client = get_or c.client [] in
      record c {
        connection = some (credential_key (or_text (get_or c.connection "") key));
        id = some (get_or c.id (text_of client "id"));
        protocol =
            some (get_or c.protocol (if truthy (get client "password") then "trojan" else "vless"));
        enabled = some (get_or c.enabled (is_on entry.limited.enabled));
        created = some (get_or c.created entry.created);
        client = some client;
        link_metadata = some (get_or c.link_metadata []);
      }

  -- What that loop does to the keys: `items` are those from before it, whose values are the objects
  -- in the `dict`, so that it does not matter for them when the fields are set.
  unfoldable pub moved : Credentials → Credentials → Credentials
  moved credentials [] = credentials
  moved credentials ((key, c) ∷ items) =
      let tag = get_or c.connection "" in
      moved (if tag == key then credentials else insert (drop_key credentials key) tag c) items

  unfoldable pub normalize_entry_credentials : Entry → Entry
  unfolding or_legacy filled moved
  normalize_entry_credentials entry =
      let credentials = map (λ p. (p.0, filled entry p.0 p.1)) (or_legacy entry) in
      sync_legacy_fields (record entry { credentials = moved credentials credentials })

  unfoldable pub credential_for_connection : Entry → String → Option Credential
  unfolding normalize_entry_credentials
  credential_for_connection entry tag =
      lookup (normalize_entry_credentials entry).credentials (credential_key tag)

  unfoldable pub active_credential_count : Entry → ℕ
  unfolding normalize_entry_credentials
  active_credential_count entry =
      length (filter (λ p. is_on (p.1).enabled) (normalize_entry_credentials entry).credentials)

abbrev pub named : String → Object → Bool
named name item = client_name item == name

-- What the removal of a credential gives: the inbounds, whether an item was removed, and the item.
pub record Removal : Type 0 where
  pub inbounds : List Inbound
  pub removed : Bool
  pub item : Option Object

abbrev pub without : String → List Object → List Object
without name items = filter (λ item. not (named name item)) items

-- `active_item_for_connection`, which calls `clients`, and the removal of all items of the name.
unfoldable pub remove_active_credential : List Inbound → String → String → Removal
remove_active_credential inbounds name connection_tag =
    let tag = credential_key connection_tag in
    elim (find_inbound_by_tag inbounds tag) [
      | none ↦ record { inbounds = inbounds; removed = false; item = none }
      | some inbound ↦
          let before = clients_of inbound in
          let after = without name before in
          if nat_eq (length after) (length before)
          then record {
            inbounds = change_found tag migrated inbounds;
            removed = false;
            item = none;
          }
          else record {
            inbounds = change_found tag (λ i. set_clients (migrated i) after) inbounds;
            removed = true;
            item = find (named name) before;
          }
    ]
