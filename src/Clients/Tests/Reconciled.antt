-- ===== src/Clients/Tests/Reconciled.antt =====
-- The status of a client whose limit is used up.
use xray_vps_manager.Base.{
  is_some, ◌||◌, ℕ, String, true, false, ◌≡◌, refl, Option, none, some, List, [], ◌∷◌, ◌==◌,
}
use xray_vps_manager.Base.Assoc.{lookup}
use xray_vps_manager.Base.Sort.{sorted_set}
use xray_vps_manager.Json.{str, Object, strip, get, has_key}
use xray_vps_manager.Clients.Access.{Moment}
use xray_vps_manager.Clients.Email.{split_email, email_metadata, split_at}
use xray_vps_manager.Clients.Entry.{Credential, Entry, blank}
use xray_vps_manager.Clients.Limits.{traffic_limit_status, traffic_limit_of}
use xray_vps_manager.Clients.Status.{disabled_entry_for_policy}
use xray_vps_manager.Clients.Credentials.{
  sync_legacy_fields, normalize_entry_credentials, remove_active_credential,
}
use xray_vps_manager.Clients.Status.Reconcile.{
  Now, Reconciled, reconcile_client_access_status, traffic_limit_period_key,
  traffic_limit_reset_time,
}
use xray_vps_manager.Clients.Status.Reconcile.Agreed.{
  Agreed, expected, reconcile_client_access_status-agrees,
}
use xray_vps_manager.Xray.Inbounds.{
  Inbound, find_inbound_by_tag, is_reality, inbound_tag, migrated, client_name, set_clients,
  change_found,
}

abbrev lower : String → String
lower s = s

abbrev no_moment : String → Option Moment
no_moment s = none

abbrev midnight : ℕ → String
midnight n = ""

abbrev first_of_month : ℕ → ℕ → String
first_of_month year month = "2026-02-01T00:00+00:00"

abbrev used : String → ℕ
used period = 20

abbrev now : Now
now = record {
  instant = 5;
  year = 2026;
  month = 1;
  date_text = "2026-01-05";
  month_text = "2026-01";
  next_day_text = "2026-01-06T00:00+00:00";
}

abbrev item : Object
item = ("id", str "anna") ∷ ("email", str "anna") ∷ []

abbrev key : Credential
key = record {
  connection = some "vless-reality";
  id = some "anna";
  protocol = some "vless";
  security = none;
  transport = none;
  enabled = some true;
  created = some "";
  client = some item;
  link_metadata = some [];
}

abbrev anna : Entry
anna = record blank {
  id = "anna";
  credentials = ("vless-reality", key) ∷ [];
  limited = record (blank.limited) {
    traffic_limit = some (record { period = "monthly"; bytes = 10; set_at = "" });
    enabled = some true;
  };
}

abbrev inbounds : List Object → List Inbound
inbounds items =
    record {
      tag = "";
      protocol = "vless";
      stream = ("security", str "reality") ∷ ("network", str "tcp") ∷ [];
      clients = some items;
      users = none;
    }
    ∷ []

abbrev result : Reconciled
result = record {
  inbounds = inbounds [];
  entry = record anna {
    connection = some "vless-reality";
    protocol = some "vless";
    client = item;
    credentials = ("vless-reality", record key { enabled = some false }) ∷ [];
    limited = record (anna.limited) {
      enabled = some false;
      disabled_reason = some "traffic-limit";
      exceeded_at = some "now";
      exceeded_period = some "2026-01";
      exceeded_bytes = some 20;
    };
    disabled_at = some "now";
    reset_at = some "2026-02-01T00:00+00:00";
  };
  changed = true;
  status = "disabled-traffic-limit";
}

reconciled :
    reconcile_client_access_status lower no_moment midnight first_of_month used now "now"
      (inbounds (item ∷ []))
      "anna"
      anna
    ≡ some result
unfolding reconcile_client_access_status traffic_limit_status traffic_limit_of
    traffic_limit_period_key traffic_limit_reset_time disabled_entry_for_policy
    normalize_entry_credentials sync_legacy_fields lookup strip sorted_set remove_active_credential
    find_inbound_by_tag is_reality get inbound_tag migrated client_name split_email email_metadata
    split_at set_clients change_found has_key
reconciled = refl

abbrev run : Option Reconciled
run =
    reconcile_client_access_status lower no_moment midnight first_of_month used now "now"
      (inbounds (item ∷ [])) "anna" anna

abbrev asked : String
asked =
    expected lower (inbounds (item ∷ [])) "anna" anna no_moment midnight first_of_month used now
      "now" "vless-reality"

reconcile_client_access_status-agrees_example :
    ((asked == "enabled" || is_some run) ≡ true)
    × Agreed lower
        (inbounds (item ∷ []))
        "anna"
        anna
        no_moment
        midnight
        first_of_month
        used
        now
        "now"
        "vless-reality"
        asked
        run
reconcile_client_access_status-agrees_example =
    reconcile_client_access_status-agrees lower (inbounds (item ∷ [])) "anna" anna no_moment
      midnight first_of_month used now "now" "vless-reality"
