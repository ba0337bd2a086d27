-- ===== src/Clients/Entry.antt =====
-- xray_vps_manager/clients/models.py: the entry of a client in the database, made from its item in
-- config.json and back.
use xray_vps_manager.Base.{
  String, Bool, not, ◌&&◌, Option, none, some, List, [], ◌∷◌, if◌then◌else◌, contains, get_or, ◌==◌,
}
use xray_vps_manager.Json.{
  Json, num, str, Object, get, put, has_key, remove, truthy, text_or_empty, strip,
}
use xray_vps_manager.Clients.Access.{Access}
use xray_vps_manager.Clients.Email.{email_for_client, split_email}
use xray_vps_manager.Clients.Limits.{LimitedEntry}

-- A key of a client for one connection; `none` is a missing key.
pub record Credential : Type 0 where
  pub connection : Option String
  pub id : Option String
  pub protocol : Option String
  pub security : Option String
  pub transport : Option String
  pub enabled : Option Bool
  pub created : Option String
  pub client : Option Object
  pub link_metadata : Option Object

-- An entry. `access` and `limited` hold its fields that are about time and about traffic, `enabled`
-- and `disabledReason` among the latter.
pub record Entry : Type 0 where
  pub id : String
  pub created : String
  pub connection : Option String
  pub protocol : Option String
  pub client : Object
  pub credentials : List (String × Credential)
  pub payment_type : Option String
  pub access : Access
  pub limited : LimitedEntry
  pub disabled_at : Option String
  pub reset_at : Option String

-- The entry with no key.
abbrev pub blank : Entry
blank = record {
  id = "";
  created = "";
  connection = none;
  protocol = none;
  client = [];
  credentials = [];
  payment_type = none;
  access = record { expires_at = none; access_days = none; expired_at = none };
  limited = record {
    traffic_limit = none;
    exceeded_at = none;
    exceeded_period = none;
    exceeded_bytes = none;
    disabled_reason = none;
    enabled = none;
  };
  disabled_at = none;
  reset_at = none;
}

-- `a or b`
abbrev pub or_text : String → String → String
or_text a b = if a == "" then b else a

-- `d.setdefault(k, v)`
abbrev pub set_default : Object → String → Json → Object
set_default d k v = if has_key d k then d else put d k v

abbrev pub text_of : Object → String → String
text_of d k = text_or_empty (get d k)

-- `lower` is Python's `str.lower`.
module _ (lower : String → String) where
  -- `none` is the ValueError.
  unfoldable pub normalize_payment_type : String → Option String
  normalize_payment_type value =
      let raw = lower (strip value) in
      if contains ("paid" ∷ "pay" ∷ "yes" ∷ "y" ∷ "1" ∷ "платный" ∷ "платно" ∷ "да" ∷ []) raw
      then some "paid"
      else if contains ("" ∷ "free" ∷ "no" ∷ "n" ∷ "0" ∷ "бесплатный" ∷ "бесплатно" ∷ "нет" ∷ [])
          raw
      then some "free"
      else none

  -- The protocol of an item: the one that is written, or that of an item with a password.
  abbrev pub protocol_of : String → Object → String
  protocol_of written item =
      let protocol = lower (strip written) in
      if protocol == "" && truthy (get item "password") then "trojan" else protocol

  abbrev with_protocol : String → Object → Object
  with_protocol protocol item =
      if protocol == "" then item else set_default item "protocol" (str protocol)

  abbrev with_id : String → Object → Object
  with_id id item = if id == "" then item else set_default item "id" (str id)

  abbrev with_email : String → String → Object → Object
  with_email name created item =
      if not (truthy (get item "email")) && not (name == "")
      then put item "email" (str (email_for_client name created ""))
      else item

  -- `none` is the ValueError about the payment type.
  unfoldable pub db_entry_from_client : Object → String → Bool → Entry → Option Entry
  db_entry_from_client item created enabled previous =
      let (name, email_created) = split_email (text_of item "email") in
      let since = or_text created (or_text previous.created email_created) in
      let protocol =
        protocol_of (or_text (text_of item "protocol") (get_or previous.protocol "")) item in
      let id = or_text (text_of item "id") previous.id in
      elim (normalize_payment_type (get_or previous.payment_type "free")) [
        | none ↦ none
        | some payment ↦ some (record previous {
          id = id;
          created = since;
          protocol = if protocol == "" then none else some protocol;
          client = with_email name since (with_id id (with_protocol protocol item));
          payment_type = some payment;
          limited = record (previous.limited) { enabled = some enabled };
        })
      ]

  abbrev default_client : String → String → Object → Object
  default_client id email item =
      put
        (set_default (set_default (set_default item "id" (str id)) "flow" (str "xtls-rprx-vision"))
          "level" (num "0"))
        "email" (str email)

  -- `none` is the ValueError: no password, or no UUID.
  unfoldable pub client_from_db_entry : String → Entry → Option Object
  client_from_db_entry name entry =
      let protocol =
        protocol_of (or_text (get_or entry.protocol "") (text_of entry.client "protocol"))
          entry.client in
      let email = email_for_client name entry.created "" in
      let password = strip (text_of entry.client "password") in
      let level = get entry.client "level" in
      let client = default_client entry.id email entry.client in
      if protocol == "trojan"
      then (if password == ""
          then none
          else some (
              ("password", str password)
              ∷ ("email", str email)
              ∷ ("level", if truthy level then level else num "0")
              ∷ []))
      else if truthy (get client "id")
      then some (remove client "protocol")
      else none
