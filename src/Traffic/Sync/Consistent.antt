-- ===== src/Traffic/Sync/Consistent.antt =====
-- The totals of the clients and of their credentials (commands/traffic_sync.py).
use xray_vps_manager.Base.{
  sym, subst, eq_iff, List, false, Bool-cases, ◌==◌, ◌⊎◌, ℕ, ◌+◌, ◌≤◌, ◌≡◌, refl, ◌∙◌, arith, Bool,
  true, ◌||◌, String, Option, some, [], ◌∷◌, get_or, nat_eq, ltb, length, inl, inr,
}
use xray_vps_manager.Traffic.Sync.{
  sync_credentials, summed_last, deltas, count_credential, sync_credential, counter, Db, Run,
  Credential, mark, set_last_online, normalize_future_last_online, ensure_credential_entry, count,
  add_traffic, was_seen,
}
use xray_vps_manager.Base.Assoc.{lookup-insert_same, lookup-insert_other, lookup, insert}
use xray_vps_manager.Traffic.Entry.{Last, Entry, Entries, ensure_entry, new_entry}
use xray_vps_manager.Traffic.History.{BucketTime, sum_of, measured, sum-insert}

pub data Direction : Type 0 where
  up down : Direction

abbrev pub amount : Direction → Entry → ℕ
amount up e = e.incoming
amount down e = e.outgoing

abbrev part : Direction → ℕ × ℕ → ℕ
part up (u, d) = u
part down (u, d) = d

abbrev pub total : Direction → Entries → ℕ
total d entries = sum_of (λ tag e. amount d e) entries

abbrev pub connections_of : Db → String → Entries
connections_of db name = get_or (lookup db.credentials name) []

-- The total of the client, zero where it has no entry.
abbrev pub client_total : Direction → Db → String → ℕ
client_total d db name = amount d (get_or (lookup db.clients name) (new_entry ""))

abbrev agrees : ℕ → Direction → Entries → Bool
agrees n d [] = true
agrees n d (e ∷ entries) = nat_eq (total d (e ∷ entries)) n

-- The client has no entries of connections, or its total is the sum of theirs.
abbrev pub balanced : Direction → Db → String → Bool
balanced d db name = agrees (client_total d db name) d (connections_of db name)

length-insert :
    (entries : Entries) (k : String) (v : Entry) → length entries ≤ length (insert entries k v)
unfolding insert
length-insert [] k v = omega arith
length-insert ((j, w) ∷ entries) k v = ground (arith, length-insert entries k v)

amount-ensure_entry :
    (d : Direction) (entries : Entries) (k email : String)
    → amount d (ensure_entry entries k email) ≡ measured (λ tag e. amount d e) k (lookup entries k)
unfolding ensure_entry
amount-ensure_entry up entries k email = ground arith
amount-ensure_entry down entries k email = ground arith

amount-client :
    (d : Direction) (entries : Entries) (k email : String)
    → amount d (ensure_entry entries k email) ≡ amount d (get_or (lookup entries k) (new_entry ""))
unfolding ensure_entry
amount-client up entries k email = ground arith
amount-client down entries k email = ground arith

agrees_of :
    (n : ℕ) (d : Direction) (entries : Entries) → total d entries ≡ n → agrees n d entries ≡ true
agrees_of n d [] h = refl
agrees_of n d (e ∷ entries) h = ground arith

-- The entry of a connection is what was there, or it is the first one, without traffic, and takes
-- over the totals of the client.
ensure_credential_entry-cases :
    (d : Direction) (entries : Entries) (client : Entry) (tag email : String)
    → let ensured = ensure_entry entries tag email in
      let credential = ensure_credential_entry entries (some client) tag email in
      (amount d credential ≡ amount d ensured)
      ⊎ ((amount d credential ≡ amount d client)
          × (amount d ensured ≡ 0)
          × (length (insert entries tag ensured) ≡ 1))
unfolding ensure_credential_entry
ensure_credential_entry-cases up entries client tag email = ground arith
ensure_credential_entry-cases down entries client tag email = ground arith

first_entry :
    (d : Direction) (client : Entry) (tag email : String)
    → total d (insert [] tag (ensure_credential_entry [] (some client) tag email)) ≡ amount d client
unfolding ensure_credential_entry ensure_entry insert lookup
first_entry up client tag email = omega arith
first_entry down client tag email = omega arith

-- Where one entry is all that there is after an insertion, it is the one under the key.
total_lone :
    (d : Direction) (t : String) (x : Entry) (rest : Entries) (tag : String) (v : Entry)
    → length (insert ((t, x) ∷ rest) tag v) ≡ 1
    → total d ((t, x) ∷ rest) ≡ measured (λ tag e. amount d e) tag (lookup ((t, x) ∷ rest) tag)
unfolding insert lookup
total_lone d t x [] tag v h = ground arith
total_lone d t x (y ∷ rest) tag v h = absurd (ground (arith, length-insert (y ∷ rest) tag v))

total-ensure :
    (d : Direction) (entries : Entries) (client : Entry) (tag email : String)
    → agrees (amount d client) d entries ≡ true
    → total d (insert entries tag (ensure_credential_entry entries (some client) tag email))
      ≡ amount d client
total-ensure d [] client tag email h = first_entry d client tag email
total-ensure d ((t, x) ∷ rest) client tag email h =
    let entries = (t, x) ∷ rest in
    let credential = ensure_credential_entry entries (some client) tag email in
    let sums = sum-insert (λ tag e. amount d e) entries tag credential in
    let same = amount-ensure_entry d entries tag email in
    elim (ensure_credential_entry-cases d entries client tag email) [
      | inl kept ↦ ground (arith, sums, same, kept, h)
      | inr (taken, nothing, one) ↦ ground (
        arith,
        sums,
        same,
        taken,
        nothing,
        total_lone d t x rest tag (ensure_entry entries tag email) one,
        h,
      )
    ]

amount-add_traffic :
    (d : Direction) (delta_up delta_down : ℕ) (time : BucketTime) (entry : Entry)
    → amount d (add_traffic delta_up delta_down time entry)
      ≡ amount d entry + part d (delta_up, delta_down)
unfolding add_traffic
amount-add_traffic up delta_up delta_down time entry = refl
amount-add_traffic down delta_up delta_down time entry = refl

amount-set_last :
    (d : Direction) (entry : Entry) (last : Last)
    → amount d (record entry { last = last }) ≡ amount d entry
amount-set_last up entry last = refl
amount-set_last down entry last = refl

module _ (d : Direction) (parse_time : String → Option ℕ) (run : Run) where
  amount-mark :
      (changed seen : Bool) (entry : Entry)
      → amount d (mark parse_time run changed seen entry) ≡ amount d entry
  unfolding mark set_last_online
  amount-mark changed seen entry = elim d [ up ↦ ground arith | down ↦ ground arith ]

  amount-normalize :
      (entry : Entry) (stamp : String)
      → amount d (normalize_future_last_online parse_time entry stamp) ≡ amount d entry
  unfolding normalize_future_last_online
  amount-normalize entry stamp = elim d [ up ↦ ground arith | down ↦ ground arith ]

  amount-count :
      (c : Credential) (n : ℕ × ℕ) (entry : Entry)
      → amount d (count parse_time run c n entry) ≡ amount d entry + part d n
  unfolding count add_traffic
  amount-count c (delta_up, delta_down) entry =
      amount-mark (ltb 0 delta_up || ltb 0 delta_down) (was_seen run.seen c.name c.connection_tag)
        (add_traffic delta_up delta_down run.time entry)
      ∙ amount-add_traffic d delta_up delta_down run.time entry

  amount-count_credential :
      (c : Credential) (entry : Entry)
      → amount d (count_credential parse_time run c entry)
        ≡ amount d entry + part d (deltas parse_time run c entry)
  unfolding count_credential
  amount-count_credential c entry =
      amount-set_last d (count parse_time run c (deltas parse_time run c entry) entry) (record {
        uplink = some (counter run.stats c.email "uplink");
        downlink = some (counter run.stats c.email "downlink");
      })
      ∙ amount-count c (deltas parse_time run c entry) entry

  -- The client and its connections after a turn of the loop.
  sync_credential-same :
      (db : Db) (c : Credential)
      → balanced d db c.name ≡ true
      → balanced d (sync_credential parse_time run db c) c.name ≡ true
  unfolding sync_credential
  sync_credential-same db c h =
      let client = ensure_entry db.clients c.name c.email in
      let entries = connections_of db c.name in
      let credential = ensure_credential_entry entries (some client) c.connection_tag c.email in
      let counted = count_credential parse_time run c credential in
      let stored = normalize_future_last_online parse_time counted run.stamp in
      let amounts = deltas parse_time run c credential in
      let marked = count parse_time run c amounts client in
      let last = summed_last (insert entries c.connection_tag counted) in
      let client' = record marked { last = last } in
      let stored_client = normalize_future_last_online parse_time client' run.stamp in
      let client_amount : amount d stored_client ≡ amount d client + part d amounts =
        amount-normalize client' run.stamp
        ∙ amount-set_last d marked last
        ∙ amount-count c amounts client in
      let stored_amount : amount d stored ≡ amount d credential + part d amounts =
        amount-normalize counted run.stamp ∙ amount-count_credential c credential in
      let start =
        total-ensure d entries client c.connection_tag c.email
          (rw (amount-client d db.clients c.name c.email) h) in
      let before = sum-insert (λ tag e. amount d e) entries c.connection_tag credential in
      let after = sum-insert (λ tag e. amount d e) entries c.connection_tag stored in
      rw
        (
          lookup-insert_same db.clients c.name stored_client,
          lookup-insert_same db.credentials c.name (insert entries c.connection_tag stored),
        )
        (agrees_of (amount d stored_client) d (insert entries c.connection_tag stored)
          (omega (arith, start, before, after, client_amount, stored_amount)))

  balanced-same :
      (db db' : Db) (name : String)
      → lookup db'.clients name ≡ lookup db.clients name
      → lookup db'.credentials name ≡ lookup db.credentials name
      → balanced d db' name ≡ balanced d db name
  balanced-same db db' name h k = rw (h, k) refl

  sync_credential-other :
      (db : Db) (c : Credential) (name : String)
      → (c.name == name) ≡ false
      → balanced d (sync_credential parse_time run db c) name ≡ balanced d db name
  unfolding sync_credential
  sync_credential-other db c name h =
      balanced-same db (sync_credential parse_time run db c) name
        (lookup-insert_other db.clients c.name _ name h)
        (lookup-insert_other db.credentials c.name _ name h)

  sync_credential-balanced :
      (db : Db) (c : Credential) (name : String)
      → balanced d db name ≡ true
      → balanced d (sync_credential parse_time run db c) name ≡ true
  sync_credential-balanced db c name h = elim (Bool-cases (c.name == name)) [
    | inl e ↦
        let path = (eq_iff c.name name).0 e in
        subst (λ n. balanced d (sync_credential parse_time run db c) n ≡ true) path
          (sync_credential-same db c (subst (λ n. balanced d db n ≡ true) (sym path) h))
    | inr e ↦ sync_credential-other db c name e ∙ h
  ]

  -- A run keeps the totals of every client in step with those of its connections: if a client has no
  -- entries of connections, or its total is the sum of theirs, that holds after the loop over the
  -- credentials too. The first connection of a client takes over what the client has.
  pub sync_credentials-balanced :
      (db : Db) (credentials : List Credential) (name : String)
      → balanced d db name ≡ true
      → balanced d (sync_credentials parse_time run db credentials) name ≡ true
  unfolding sync_credentials
  sync_credentials-balanced db [] name h = h
  sync_credentials-balanced db (c ∷ cs) name h =
      sync_credentials-balanced (sync_credential parse_time run db c) cs name
        (sync_credential-balanced db c name h)
