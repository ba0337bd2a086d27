-- ===== src/Clients/Tests/Active.antt =====
-- The activation of a credential at a small configuration.
use xray_vps_manager.Base.{
  String, true, false, ◌≡◌, refl, none, some, List, [], ◌∷◌, if◌then◌else◌, ◌==◌,
}
use xray_vps_manager.Base.Assoc.{lookup, insert}
use xray_vps_manager.Base.Sort.{sorted_set}
use xray_vps_manager.Json.{str, num, Object, strip, get, put, remove, has_key}
use xray_vps_manager.Clients.Email.{split_email, email_metadata, split_at}
use xray_vps_manager.Clients.Entry.{Credential, Entry, blank}
use xray_vps_manager.Clients.Credentials.{credential_key, sync_legacy_fields}
use xray_vps_manager.Clients.Credentials.Removed.{found_items}
use xray_vps_manager.Clients.Credentials.Active.{
  credential_email, xray_client_for_credential, next_client, transport_from_inbound, put_item,
  upsert_active_credential,
}
use xray_vps_manager.Clients.Credentials.Active.Put.{is_active, upsert_active_credential-puts}
use xray_vps_manager.Clients.Status.Steps.{has_item, items_named}
use xray_vps_manager.Xray.Inbounds.{
  Inbound, find_inbound_by_tag, is_reality, inbound_tag, change_found, migrated, client_name,
}
use xray_vps_manager.Xray.Transport.{normalize_reality_transport}
use xray_vps_manager.Xray.Transport.Stream.{
  connection_transport_settings_from_stream, apply_client_transport,
}

abbrev lower : String → String
lower s = s

abbrev item : String → Object
item name = ("id", str name) ∷ ("email", str name) ∷ []

abbrev key : Credential
key = record {
  connection = some "vless-reality";
  id = some "anna";
  protocol = some "vless";
  security = none;
  transport = none;
  enabled = some false;
  created = some "";
  client = some (item "anna");
  link_metadata = some [];
}

abbrev anna : Entry
anna = record blank { id = "anna"; credentials = ("vless-reality", key) ∷ [] }

abbrev inbounds : List Inbound
inbounds =
    record {
      tag = "";
      protocol = "vless";
      stream = ("security", str "reality") ∷ ("network", str "tcp") ∷ [];
      clients = some (item "boris" ∷ []);
      users = none;
    }
    ∷ []

-- The item of the client, with the flow of the transport.
abbrev anna_item : Object
anna_item =
    ("id", str "anna")
    ∷ ("email", str "anna")
    ∷ ("level", num "0")
    ∷ ("flow", str "xtls-rprx-vision")
    ∷ []

abbrev after : List Inbound
after =
    record {
      tag = "";
      protocol = "vless";
      stream = ("security", str "reality") ∷ ("network", str "tcp") ∷ [];
      clients = some (item "boris" ∷ anna_item ∷ []);
      users = none;
    }
    ∷ []

abbrev changed_key : Credential
changed_key = record key {
  client = some anna_item;
  security = some "reality";
  transport = some "tcp";
  enabled = some true;
}

abbrev changed : Entry
changed = record anna {
  connection = some "vless-reality";
  protocol = some "vless";
  client = anna_item;
  credentials = ("vless-reality", changed_key) ∷ [];
  limited = record (anna.limited) { enabled = some true };
}

own_name : (split_email (credential_email "anna" anna key)).0 ≡ "anna"
unfolding split_email credential_email email_metadata split_at strip get
own_name = refl

activated :
    upsert_active_credential lower inbounds "anna" anna "vless-reality" key ≡ some (after, changed)
unfolding upsert_active_credential sync_legacy_fields find_inbound_by_tag is_reality get inbound_tag
    strip xray_client_for_credential credential_email remove put has_key next_client
    connection_transport_settings_from_stream normalize_reality_transport apply_client_transport
    transport_from_inbound change_found lookup migrated put_item insert client_name split_email
    email_metadata split_at sorted_set
activated = refl

upsert_active_credential-puts_example :
    (has_item "anna" (found_items after (credential_key "vless-reality")) ≡ true)
    × (items_named "boris" (found_items after "vless-reality")
        ≡ items_named "boris" (found_items inbounds "vless-reality"))
    × ((if credential_key "vless-reality" == "vless-reality"
          then found_items inbounds "vless-reality"
          else found_items after "vless-reality")
        ≡ found_items inbounds "vless-reality")
    × (is_active (lookup changed.credentials "vless-reality") ≡ true)
upsert_active_credential-puts_example =
    upsert_active_credential-puts lower inbounds "anna" "vless-reality" anna key own_name "boris"
      "vless-reality" refl after changed activated
