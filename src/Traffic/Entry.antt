-- ===== src/Traffic/Entry.antt =====
-- The traffic of a client or of one of its credentials (traffic/repository.py `ensure_entry`).
use xray_vps_manager.Base.{ℕ, String, Option, none, some, List, []}
use xray_vps_manager.Base.Assoc.{lookup}
use xray_vps_manager.Traffic.History.{History}

-- The counters that Xray showed at the last run, under the keys of the dictionary `last`.
pub record Last : Type 0 where
  pub uplink : Option ℕ
  pub downlink : Option ℕ

-- A key that is missing is an empty text.
pub record Entry : Type 0 where
  pub email : String
  pub incoming : ℕ
  pub outgoing : ℕ
  pub last : Last
  pub history : History
  pub last_online : String
  pub last_online_source : String
  pub last_accepted : String
  pub updated : String

abbrev pub no_last : Last
no_last = record { uplink = none; downlink = none }

abbrev pub new_entry : String → Entry
new_entry email = record {
  email = email;
  incoming = 0;
  outgoing = 0;
  last = no_last;
  history = [];
  last_online = "";
  last_online_source = "";
  last_accepted = "";
  updated = "";
}

-- The traffic by client, and by client and connection.
abbrev pub Entries : Type 0
Entries = List (String × Entry)

-- `ensure_entry` returns the entry and leaves it in the dictionary.
unfoldable pub ensure_entry : Entries → String → String → Entry
ensure_entry entries name email = elim (lookup entries name) [
  | none ↦ new_entry email
  | some e ↦ record e { email = email }
]
