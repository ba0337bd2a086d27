-- ===== src/Traffic/Sync.antt =====
-- xray_vps_manager/commands/traffic_sync.py: one run over the counters of Xray.
pub mod Counter
pub mod Consistent
use Prim.Native.Nat.{Ordering}
use Prim.Native.String.{compare}
use xray_vps_manager.Base.{
  ℕ, ◌+◌, ◌-◌, String, ◌<>◌, Bool, true, false, not, Option, none, some, List, [], ◌∷◌,
  if◌then◌else◌, get_or, ltb, leb, nat_eq, length, ◌&&◌, ◌||◌, ◌==◌, is_some,
}
use xray_vps_manager.Base.Assoc.{lookup, insert}
use xray_vps_manager.Traffic.History.{
  History, BucketTime, add_positive_delta, prune_entry_history, sum_of,
}
use xray_vps_manager.Traffic.Entry.{Last, Entry, Entries, no_last, new_entry, ensure_entry}

-- The entries of each client's connections.
abbrev pub Credentials : Type 0
Credentials = List (String × Entries)

pub record Db : Type 0 where
  pub clients : Entries
  pub credentials : Credentials

-- `counter(stats, email, direction)`
unfoldable pub counter : List (String × ℕ) → String → String → ℕ
counter stats email direction =
    get_or (lookup stats ("user>>>" <> (email <> (">>>traffic>>>" <> direction)))) 0

unfoldable pub positive_delta : ℕ → Option ℕ → ℕ
positive_delta current none = current
positive_delta current (some previous) =
    if leb previous current then current - previous else current

-- `counter_delta`, with the value of `last` under the direction; a missing key is `none`.
unfoldable pub counter_delta : ℕ → Option ℕ → ℕ
counter_delta current none = 0
counter_delta current (some previous) = positive_delta current (some previous)

abbrev text_max : String → String → String
text_max left right = elim (compare right left) [ Ordering.gt ↦ right | _ ↦ left ]

-- `parse_time` reads the time of a text (`datetime.fromisoformat`); `none` is no time.
module _ (parse_time : String → Option ℕ) where
  unfoldable pub max_time : String → String → String
  max_time left right =
      if left == "" then right else if right == "" then left else elim (parse_time left) [
        | none ↦ text_max left right
        | some l ↦ elim (parse_time right) [
          | none ↦ text_max left right
          | some r ↦ if ltb l r then right else left
        ]
      ]

  -- The entry shows a time after the reference, and the stamp is not after it.
  abbrev is_ahead : String → String → String → Bool
  is_ahead current stamp reference = elim (parse_time current) [
    | none ↦ false
    | some c ↦ elim (parse_time stamp) [
      | none ↦ false
      | some s ↦ elim (parse_time reference) [ none ↦ false | some r ↦ ltb r c && leb s r ]
    ]
  ]

  unfoldable pub set_last_online : Entry → String → String → String → Entry
  set_last_online entry stamp source reference = record entry {
    last_online =
        if is_ahead entry.last_online stamp reference
        then stamp
        else max_time entry.last_online stamp;
    last_online_source = source;
  }

  -- Whether the last time online is to be taken back to `updated`.
  abbrev is_future : Entry → String → Bool
  is_future entry stamp = elim (parse_time entry.last_online) [
    | none ↦ false
    | some online ↦ elim (parse_time stamp) [
      | none ↦ false
      | some now ↦ elim (parse_time entry.updated) [
        | none ↦ false
        | some updated ↦ ltb now online && leb updated now
      ]
    ]
  ]

  unfoldable pub normalize_future_last_online : Entry → String → Entry
  normalize_future_last_online entry stamp =
      if is_future entry stamp
      then record entry { last_online = entry.updated; last_online_source = "traffic" }
      else entry

abbrev is_empty_last : Last → Bool
is_empty_last last = not (is_some last.uplink) && not (is_some last.downlink)

abbrev or_keep : String → String → String
or_keep new old = if new == "" then old else new

-- `entry.update(copy_entry_state(source))`, then `entry["email"] = email`
abbrev copied_state : Entry → Entry → String → Entry
copied_state source entry email = record {
  email = email;
  incoming = source.incoming;
  outgoing = source.outgoing;
  last = source.last;
  history = source.history;
  last_online = or_keep source.last_online entry.last_online;
  last_online_source = or_keep source.last_online_source entry.last_online_source;
  last_accepted = or_keep source.last_accepted entry.last_accepted;
  updated = or_keep source.updated entry.updated;
}

-- `ensure_credential_entry` of traffic_sync.py, from the entries of the client's connections and the
-- client's own: the only entry of a client that has no traffic yet takes over the client's state.
-- Where the client has no entry, that is the state of an empty one. It returns the entry.
unfoldable pub ensure_credential_entry : Entries → Option Entry → String → String → Entry
ensure_credential_entry entries client connection_tag email =
    let entry = ensure_entry entries connection_tag email in
    let count = length (insert entries connection_tag entry) in
    if nat_eq entry.incoming 0
      && (nat_eq entry.outgoing 0 && (is_empty_last entry.last && nat_eq count 1))
    then copied_state (get_or client (new_entry "")) entry email
    else entry

-- `sum(int(item.get("last", {}).get(...) or 0) for item in ...)` in both directions
abbrev summed_last : Entries → Last
summed_last entries = record {
  uplink = some (sum_of (λ tag e. get_or e.last.uplink 0) entries);
  downlink = some (sum_of (λ tag e. get_or e.last.downlink 0) entries);
}

-- The deltas of the counters are added to an entry and to its history; the first two numbers are the
-- deltas.
unfoldable pub add_traffic : ℕ → ℕ → BucketTime → Entry → Entry
add_traffic delta_up delta_down time entry = record entry {
  incoming = entry.incoming + delta_up;
  outgoing = entry.outgoing + delta_down;
  history = add_positive_delta entry.history time delta_up delta_down;
}

-- A credential of the known ones, and what one run knows besides the database.
pub record Credential : Type 0 where
  pub name : String
  pub connection_tag : String
  pub email : String

pub record Run : Type 0 where
  pub stats : List (String × ℕ)
  pub stamp : String
  pub time : BucketTime
  pub seen : List (String × String)

abbrev pub was_seen : List (String × String) → String → String → Bool
was_seen [] name tag = false
was_seen ((n, t) ∷ seen) name tag = n == name && t == tag || was_seen seen name tag

module _ (parse_time : String → Option ℕ) (run : Run) where
  -- The marks of the time online and of the change.
  unfoldable pub mark : Bool → Bool → Entry → Entry
  mark changed seen entry =
      let online =
        if changed && not seen
        then set_last_online parse_time entry run.stamp "traffic" run.stamp
        else entry in
      if changed then record online { updated = run.stamp } else online

  -- The deltas of a credential's two counters.
  unfoldable pub deltas : Credential → Entry → ℕ × ℕ
  deltas c credential = (
    counter_delta (counter run.stats c.email "uplink") credential.last.uplink,
    counter_delta (counter run.stats c.email "downlink") credential.last.downlink,
  )

  -- What both the credential's and the client's entry get of the deltas.
  unfoldable pub count : Credential → ℕ × ℕ → Entry → Entry
  count c (delta_up, delta_down) entry =
      mark (ltb 0 delta_up || ltb 0 delta_down) (was_seen run.seen c.name c.connection_tag)
        (add_traffic delta_up delta_down run.time entry)

  -- The credential's entry with its counters; the client's entry with their sums.
  unfoldable pub count_credential : Credential → Entry → Entry
  count_credential c credential = record (count c (deltas c credential) credential) {
    last = record {
      uplink = some (counter run.stats c.email "uplink");
      downlink = some (counter run.stats c.email "downlink");
    };
  }

  -- The body of the loop over the credentials.
  unfoldable pub sync_credential : Db → Credential → Db
  sync_credential db c =
      let entry = ensure_entry db.clients c.name c.email in
      let entries = get_or (lookup db.credentials c.name) [] in
      let credential = ensure_credential_entry entries (some entry) c.connection_tag c.email in
      let counted = count_credential c credential in
      let entry' = record (count c (deltas c credential) entry) {
        last = summed_last (insert entries c.connection_tag counted);
      } in
      let stored = normalize_future_last_online parse_time counted run.stamp in
      record {
        clients =
            insert db.clients c.name (normalize_future_last_online parse_time entry' run.stamp);
        credentials = insert db.credentials c.name (insert entries c.connection_tag stored);
      }

  unfoldable pub sync_credentials : Db → List Credential → Db
  sync_credentials db [] = db
  sync_credentials db (c ∷ cs) = sync_credentials (sync_credential db c) cs

-- `prune_history` over the entries of clients and of credentials
abbrev prune_entries : (String → Option ℕ) → ℕ → Entries → Entries
prune_entries parse_day cutoff [] = []
prune_entries parse_day cutoff ((name, entry) ∷ entries) =
    (name, record entry { history = prune_entry_history parse_day cutoff entry.history })
    ∷ prune_entries parse_day cutoff entries

abbrev prune_credentials : (String → Option ℕ) → ℕ → Credentials → Credentials
prune_credentials parse_day cutoff [] = []
prune_credentials parse_day cutoff ((name, entries) ∷ credentials) =
    (name, prune_entries parse_day cutoff entries) ∷ prune_credentials parse_day cutoff credentials

unfoldable pub prune_history : (String → Option ℕ) → ℕ → Db → Db
prune_history parse_day cutoff db = record {
  clients = prune_entries parse_day cutoff db.clients;
  credentials = prune_credentials parse_day cutoff db.credentials;
}
