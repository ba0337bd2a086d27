-- ===== src/Clients/Credentials/Active.antt =====
-- xray_vps_manager/clients/credentials.py and status.py: a credential becomes active in config.json.
pub mod Put
use Prim.Native.Char.{Char}
use xray_vps_manager.Base.{
  String, Bool, true, false, not, ◌&&◌, ◌||◌, Option, none, some, List, [], ◌∷◌, if◌then◌else◌,
  get_or, leb, ◌==◌,
}
use xray_vps_manager.Base.Assoc.{lookup, insert}
use xray_vps_manager.Json.{
  Json, num, str, Object, get, put, remove, truthy, text_or_empty, strip, is_space, is_ascii_alnum,
}
use xray_vps_manager.Clients.Email.{email_for_client}
use xray_vps_manager.Clients.Entry.{Credential, Entry, or_text, set_default, text_of, protocol_of}
use xray_vps_manager.Clients.Credentials.{credential_key, sync_legacy_fields, named}
use xray_vps_manager.Xray.Inbounds.{
  Inbound, migrated, clients_of, find_inbound_by_tag, change_found,
}
use xray_vps_manager.Xray.Transport.{◌>>=◌, refuse_if, text_length, all_chars, one_of}
use xray_vps_manager.Xray.Transport.Stream.{
  connection_transport_settings_from_stream, apply_client_transport,
}

-- `trojan_password_policy_issues` finds nothing.
unfoldable pub is_trojan_password : String → Bool
is_trojan_password value =
    leb 32 (text_length value)
    && (leb (text_length value) 128
        && (strip value == value
            && (all_chars (λ c. not (is_space c)) value
                && all_chars (λ c. is_ascii_alnum c || one_of (b'_' ∷ b'-' ∷ []) c) value)))

unfoldable pub credential_email : String → Entry → Credential → String
credential_email name entry c =
    let current = strip (text_of (get_or c.client []) "email") in
    if current == ""
    then email_for_client name (or_text (get_or c.created "") entry.created)
        (get_or c.connection "")
    else current

-- A level is a number.
abbrev level_of : Object → Json
level_of client = let level = get client "level" in if truthy level then level else num "0"

abbrev pub trojan_client : String → String → Object → Object
trojan_client password email client =
    ("password", str password) ∷ ("email", str email) ∷ ("level", level_of client) ∷ []

abbrev pub vless_client : Entry → Credential → Object → String → Object
vless_client entry c client email =
    let id = or_text (or_text (get_or c.id "") (text_of client "id")) entry.id in
    remove
      (put (set_default (set_default client "id" (str id)) "level" (num "0")) "email" (str email))
      "protocol"

-- The first item of the name is replaced, or the item is added.
unfoldable pub put_item : String → Object → List Object → List Object
put_item name item [] = item ∷ []
put_item name item (i ∷ is) =
    let rest = put_item name item is in if named name i then item ∷ is else i ∷ rest

abbrev pub with_item : String → Object → Inbound → Inbound
with_item name item i = record (migrated i) { clients = some (put_item name item (clients_of i)) }

-- `lower` is `str.lower`; an exception is `none`.
module _ (lower : String → String) where
  abbrev pub protocol_from_inbound : Inbound → String
  protocol_from_inbound inbound = lower (strip (or_text inbound.protocol "vless"))

  abbrev pub security_from_inbound : Inbound → String
  security_from_inbound inbound = lower (strip (text_or_empty (get inbound.stream "security")))

  unfoldable pub transport_from_inbound : Inbound → Option String
  transport_from_inbound inbound = do
    settings ← connection_transport_settings_from_stream lower inbound.stream
    some (lower (strip (text_of settings "transport")))

  unfoldable pub xray_client_for_credential : String → Entry → Credential → Option Object
  xray_client_for_credential name entry c =
      let client = get_or c.client [] in
      let protocol =
        protocol_of lower (or_text (get_or c.protocol "") (text_of client "protocol")) client in
      let email = credential_email name entry c in
      let password = strip (text_of client "password") in
      let vless = vless_client entry c client email in
      if protocol == "trojan"
      then refuse_if (not (is_trojan_password password))
          (some (trojan_client password email client))
      else refuse_if (not (truthy (get vless "id"))) (some vless)

  -- The item for an inbound.
  unfoldable pub next_client : Inbound → Object → Option Object
  next_client inbound client =
      if protocol_from_inbound inbound == "vless"
      then (connection_transport_settings_from_stream lower inbound.stream >>= λ settings.
          apply_client_transport lower client (get settings "transport"))
      else some client

  abbrev kept_client : Inbound → Entry → Credential → Object → Object
  kept_client inbound entry c next =
      if protocol_from_inbound inbound == "trojan"
      then put (put next "id" (str (or_text (get_or c.id "") entry.id))) "protocol" (str "trojan")
      else next

  abbrev pub activated : Inbound → Entry → Credential → Object → String → Credential
  activated inbound entry c next transport =
      let client = kept_client inbound entry c next in
      record c {
        client = some client;
        id = some (or_text (or_text (get_or c.id "") (text_of client "id")) entry.id);
        protocol = some (protocol_from_inbound inbound);
        security = some (security_from_inbound inbound);
        transport = some transport;
        enabled = some true;
      }

  -- The credential is the one that the entry has under `key`, and is changed there.
  unfoldable pub upsert_active_credential :
      List Inbound → String → Entry → String → Credential → Option (List Inbound × Entry)
  upsert_active_credential inbounds name entry key c =
      let tag = credential_key (get_or c.connection "") in
      do
        inbound ← find_inbound_by_tag inbounds tag
        client ← xray_client_for_credential name entry c
        next ← next_client inbound client
        transport ← transport_from_inbound inbound
        some (
          change_found tag (with_item name next) inbounds,
          sync_legacy_fields (record entry {
            credentials = insert entry.credentials key (activated inbound entry c next transport);
          }),
        )
