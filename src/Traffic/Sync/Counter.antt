-- ===== src/Traffic/Sync/Counter.antt =====
-- The counters of Xray over several runs (`counter_delta`, `positive_delta`).
use xray_vps_manager.Traffic.Sync.{
  deltas, count, count_credential, was_seen, counter_delta, positive_delta, add_traffic, counter,
  Db, Run, Credential, sync_credential, mark, set_last_online, normalize_future_last_online,
  ensure_credential_entry,
}
use xray_vps_manager.Base.{
  ap, ◌||◌, ℕ, ◌+◌, ◌≤◌, ◌≡◌, Bool, true, ◌&&◌, some, Option, List, [], ◌∷◌, refl, arith, ltb,
  String, get_or, ◌∙◌,
}
use xray_vps_manager.Traffic.Entry.{Entry, Entries, ensure_entry}
use xray_vps_manager.Base.Assoc.{lookup, insert, lookup-insert_same}

-- What happens to a counter between two runs: bytes are used, or Xray starts again and then bytes
-- are used, since counters live in the process.
pub data Use : Type 0 where
  used restarted : ℕ → Use

abbrev pub bytes : Use → ℕ
bytes (used n) = n
bytes (restarted n) = n

-- The counter that the next run reads.
abbrev pub reading : ℕ → Use → ℕ
reading last (used n) = last + n
reading last (restarted n) = n

abbrev pub traffic : List Use → ℕ
traffic [] = 0
traffic (u ∷ us) = bytes u + traffic us

-- The counter is lower after every restart than before it.
abbrev pub restarts_show : ℕ → List Use → Bool
restarts_show last [] = true
restarts_show last (used n ∷ us) = restarts_show (last + n) us
restarts_show last (restarted n ∷ us) = ltb n last && restarts_show n us

-- What the runs add, each by `counter_delta` from the counter that the run before has kept.
abbrev pub counted : ℕ → List Use → ℕ
counted last [] = 0
counted last (u ∷ us) = counter_delta (reading last u) (some last) + counted (reading last u) us

counted_le : (last : ℕ) (uses : List Use) → counted last uses ≤ traffic uses
unfolding counter_delta positive_delta
counted_le last [] = omega arith
counted_le last (used n ∷ us) = ground (arith, counted_le (last + n) us)
counted_le last (restarted n ∷ us) = ground (arith, counted_le n us)

counted-traffic :
    (last : ℕ) (uses : List Use) → restarts_show last uses ≡ true → counted last uses ≡ traffic uses
unfolding counter_delta positive_delta
counted-traffic last [] h = refl
counted-traffic last (used n ∷ us) h = ground (arith, counted-traffic (last + n) us)
counted-traffic last (restarted n ∷ us) h = ground (arith, counted-traffic n us)

-- The entry of a credential.
abbrev pub credential_of : Db → Credential → Option Entry
credential_of db c = lookup (get_or (lookup db.credentials c.name) []) c.connection_tag

-- The readings of the runs, one for each use.
abbrev pub readings : ℕ → List Use → List ℕ
readings last [] = []
readings last (u ∷ us) = reading last u ∷ readings (reading last u) us

abbrev pub uplink_of : Credential → Run → ℕ
uplink_of c run = counter run.stats c.email "uplink"

module _ (parse_time : String → Option ℕ) (c : Credential) where
  -- Several runs, as far as they are about one credential.
  abbrev pub sync_runs : Db → List Run → Db
  sync_runs db [] = db
  sync_runs db (run ∷ runs) = sync_runs (sync_credential parse_time run db c) runs

  incoming-mark :
      (run : Run) (changed seen : Bool) (entry : Entry)
      → (mark parse_time run changed seen entry).incoming ≡ entry.incoming
  unfolding mark set_last_online
  incoming-mark run changed seen entry = ground arith

  incoming-normalize :
      (entry : Entry) (stamp : String)
      → ((normalize_future_last_online parse_time entry stamp).incoming ≡ entry.incoming)
        × ((normalize_future_last_online parse_time entry stamp).last ≡ entry.last)
  unfolding normalize_future_last_online
  incoming-normalize entry stamp = ground arith

  -- A credential that has a last counter keeps its own state.
  ensure_credential_entry-known :
      (entries : Entries) (client : Option Entry) (tag email : String) (e : Entry) (r : ℕ)
      → lookup entries tag ≡ some e
      → e.last.uplink ≡ some r
      → ensure_credential_entry entries client tag email ≡ record e { email = email }
  unfolding ensure_credential_entry ensure_entry
  ensure_credential_entry-known entries client tag email e r h k = ground arith

  counted_entry :
      (run : Run) (e : Entry) (r : ℕ)
      → e.last.uplink ≡ some r
      → let stored =
          normalize_future_last_online parse_time (count_credential parse_time run c e) run.stamp in
        (stored.incoming ≡ e.incoming + counter_delta (uplink_of c run) (some r))
        × (stored.last.uplink ≡ some (uplink_of c run))
  unfolding count_credential count deltas add_traffic
  counted_entry run e r k =
      let e' = count_credential parse_time run c e in
      let (same_in, same_last) = incoming-normalize e' run.stamp in
      let (up, down) = deltas parse_time run c e in
      (
        same_in
            ∙ incoming-mark run (ltb 0 up || ltb 0 down) (was_seen run.seen c.name c.connection_tag)
                (add_traffic up down run.time e)
            ∙ rw k refl,
        ap (λ l. l.uplink) same_last,
      )

  sync_credential-counts :
      (run : Run) (db : Db) (e : Entry) (r : ℕ)
      → credential_of db c ≡ some e
      → e.last.uplink ≡ some r
      → (e' : Entry) × (credential_of (sync_credential parse_time run db c) c ≡ some e')
        × (e'.incoming ≡ e.incoming + counter_delta (uplink_of c run) (some r))
        × (e'.last.uplink ≡ some (uplink_of c run))
  unfolding sync_credential
  sync_credential-counts run db e r h k =
      let entry = ensure_entry db.clients c.name c.email in
      let entries = get_or (lookup db.credentials c.name) [] in
      let known : Entry = record e { email = c.email } in
      let kept =
        ensure_credential_entry-known entries (some entry) c.connection_tag c.email e r h k in
      let stored =
        normalize_future_last_online parse_time (count_credential parse_time run c known)
          run.stamp in
      let (counts, lasts) = counted_entry run known r k in
      (
        stored,
        rw
            (
              kept,
              lookup-insert_same db.credentials c.name (insert entries c.connection_tag stored),
              lookup-insert_same entries c.connection_tag stored,
            )
            refl,
        counts,
        lasts,
      )

  -- The readings of a credential's runs.
  abbrev pub uplinks : List Run → List ℕ
  uplinks [] = []
  uplinks (run ∷ runs) = uplink_of c run ∷ uplinks runs

  sync_runs-counted :
      (runs : List Run) (uses : List Use) (db : Db) (e : Entry) (r : ℕ)
      → credential_of db c ≡ some e
      → e.last.uplink ≡ some r
      → uplinks runs ≡ readings r uses
      → (e' : Entry) × (credential_of (sync_runs db runs) c ≡ some e')
        × (e'.incoming ≡ e.incoming + counted r uses)
  sync_runs-counted [] [] db e r h k l = (e, h, omega arith)
  sync_runs-counted (run ∷ runs) [] db e r h k l = absurd (ground arith)
  sync_runs-counted [] (u ∷ uses) db e r h k l = absurd (ground arith)
  sync_runs-counted (run ∷ runs) (u ∷ uses) db e r h k l =
      let (e₁, h₁, in₁, k₁) = sync_credential-counts run db e r h k in
      let (e', h', in') =
        sync_runs-counted runs uses (sync_credential parse_time run db c) e₁ (reading r u) h₁
          (k₁ ∙ ground arith) (ground arith) in
      (e', h', ground arith)

  -- Over any number of runs the incoming total of a credential that has a last counter grows by no
  -- more than what was used. `uses` says what happened to the counter before each run.
  pub sync_runs-no_more :
      (runs : List Run) (uses : List Use) (db : Db) (e : Entry) (r : ℕ)
      → credential_of db c ≡ some e
      → e.last.uplink ≡ some r
      → uplinks runs ≡ readings r uses
      → (e' : Entry) × (credential_of (sync_runs db runs) c ≡ some e')
        × (e.incoming ≤ e'.incoming)
        × (e'.incoming ≤ e.incoming + traffic uses)
  sync_runs-no_more runs uses db e r h k l =
      let (e', h', in') = sync_runs-counted runs uses db e r h k l in
      (e', h', omega arith, omega (arith, counted_le r uses))

  -- Over any number of runs the incoming total of a credential that has a last counter grows by
  -- exactly what was used, if after each restart of Xray the counter is lower than before it.
  pub sync_runs-exact :
      (runs : List Run) (uses : List Use) (db : Db) (e : Entry) (r : ℕ)
      → credential_of db c ≡ some e
      → e.last.uplink ≡ some r
      → uplinks runs ≡ readings r uses
      → restarts_show r uses ≡ true
      → (e' : Entry) × (credential_of (sync_runs db runs) c ≡ some e')
        × (e'.incoming ≡ e.incoming + traffic uses)
  sync_runs-exact runs uses db e r h k l shown =
      let (e', h', in') = sync_runs-counted runs uses db e r h k l in
      (e', h', omega (arith, counted-traffic r uses shown))
