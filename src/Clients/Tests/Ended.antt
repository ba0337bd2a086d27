-- ===== src/Clients/Tests/Ended.antt =====
-- The end of access at a small configuration.
use xray_vps_manager.Base.{
  ℕ, String, true, false, ◌&&◌, ◌≡◌, refl, Option, none, some, List, [], ◌∷◌, contains,
  if◌then◌else◌, ◌==◌,
}
use xray_vps_manager.Base.Assoc.{lookup}
use xray_vps_manager.Json.{str, Object, strip, get}
use xray_vps_manager.Clients.Access.{Moment, access_expired}
use xray_vps_manager.Clients.Email.{split_email, email_metadata, split_at, add_part, partition}
use xray_vps_manager.Clients.Entry.{Credential, Entry, blank}
use xray_vps_manager.Clients.Credentials.{normalize_entry_credentials, sync_legacy_fields}
use xray_vps_manager.Clients.Credentials.Removed.{found_items}
use xray_vps_manager.Clients.Status.{Clients, expire_due_clients, is_due, items_in}
use xray_vps_manager.Clients.Status.Steps.{has_item, items_named}
use xray_vps_manager.Clients.Status.Expired.{
  has_key_for, entry_is_off, expire_due_clients-ends_access, expire_due_clients-keeps_others,
}
use xray_vps_manager.Xray.Inbounds.{
  Inbound, is_reality, is_tls_only, is_trojan, managed_connection_inbounds, migrated, client_name,
}

abbrev lower : String → String
lower s = s

abbrev parse_datetime : String → Option Moment
parse_datetime s = some (record { instant = if s == "2026-01-01" then 1 else 9; date = 0 })

abbrev midnight : ℕ → String
midnight n = ""

abbrev item : String → Object
item name = ("id", str name) ∷ ("email", str name) ∷ []

abbrev key : String → Credential
key name = record {
  connection = some "vless-reality";
  id = some name;
  protocol = some "vless";
  security = none;
  transport = none;
  enabled = some true;
  created = some "";
  client = some (item name);
  link_metadata = some [];
}

abbrev entry_until : String → String → Entry
entry_until name end = record blank {
  id = name;
  connection = some "vless-reality";
  client = item name;
  credentials = ("vless-reality", key name) ∷ [];
  access = record { expires_at = some end; access_days = none; expired_at = none };
}

abbrev anna : Entry
anna = entry_until "anna" "2026-01-01"

abbrev clients : Clients
clients = ("anna", anna) ∷ ("boris", entry_until "boris" "2026-12-31") ∷ []

abbrev inbounds : List Inbound
inbounds =
    record {
      tag = "";
      protocol = "vless";
      stream = ("security", str "reality") ∷ ("network", str "tcp") ∷ [];
      clients = some (item "anna" ∷ item "boris" ∷ []);
      users = none;
    }
    ∷ []

abbrev tag : String
tag = "vless-reality"

anna_over : access_expired parse_datetime midnight anna.access 5 ≡ true
unfolding access_expired
anna_over = refl

anna_active : has_item "anna" (items_in (managed_connection_inbounds inbounds)) ≡ true
unfolding managed_connection_inbounds is_reality is_tls_only is_trojan migrated client_name
    split_email email_metadata split_at add_part partition get
anna_active = refl

anna_known : lookup clients "anna" ≡ some anna
unfolding lookup
anna_known = refl

expire_due_clients-ends_access_example :
    (has_key_for lower tag anna
        && has_item "anna" (
            found_items
              (expire_due_clients lower parse_datetime midnight 5 "now" inbounds clients).inbounds
              tag)
      ≡ false)
    × (contains
          (expire_due_clients lower parse_datetime midnight 5 "now" inbounds clients).due_names
          "anna"
        ≡ true)
    × (entry_is_off (
          lookup
            (expire_due_clients lower parse_datetime midnight 5 "now" inbounds clients).clients
            "anna")
        ≡ true)
expire_due_clients-ends_access_example =
    expire_due_clients-ends_access lower parse_datetime midnight 5 "now" inbounds clients "anna"
      {entry = anna} anna_known anna_over anna_active tag

boris_stays : is_due lower parse_datetime midnight 5 clients "boris" ≡ false
unfolding access_expired lookup
boris_stays = refl

expire_due_clients-keeps_others_example :
    (items_named "boris" (
        found_items
          (expire_due_clients lower parse_datetime midnight 5 "now" inbounds clients).inbounds
          tag)
      ≡ items_named "boris" (found_items inbounds tag))
    × (lookup
          (expire_due_clients lower parse_datetime midnight 5 "now" inbounds clients).clients
          "boris"
        ≡ lookup clients "boris")
    × (contains
          (expire_due_clients lower parse_datetime midnight 5 "now" inbounds clients).due_names
          "boris"
        ≡ false)
expire_due_clients-keeps_others_example =
    expire_due_clients-keeps_others lower parse_datetime midnight 5 "now" inbounds clients "boris"
      tag boris_stays

anna_has_key : has_key_for lower tag anna ≡ true
unfolding normalize_entry_credentials sync_legacy_fields strip lookup
anna_has_key = refl
