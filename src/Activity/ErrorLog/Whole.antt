-- ===== src/Activity/ErrorLog/Whole.antt =====
-- Over appends, rotations and runs that may fail, the events are those of the whole log.
use xray_vps_manager.Base.{
  &&-left, &&-right, ℕ, ◌+◌, ◌≤◌, ◌≡◌, refl, arith, String, Bool, true, false, not, ◌&&◌, ◌||◌,
  Option, none, some, List, [], ◌∷◌, ◌++◌, nat_eq, leb, length, drop, length-append, ◌∙◌, sym, ap,
}
use xray_vps_manager.Activity.ErrorEvents.{
  Item, upsert_each, upsert_each-append, total_count, total_count-upsert_each,
}
use xray_vps_manager.Activity.ErrorLog.Bytes.{
  whole, drop-append_le, drop-length_all, length-drop, whole-drop, whole-append, parsed-append,
  no_bytes, doubled,
}
use xray_vps_manager.Activity.ErrorLog.{
  Saved, Database, Answers, same_inode, read_from, parsed, store_data, sync_error_log,
}
use mathlib.Core.List.{append_assoc, append-nil}
use native.Mathlib.Nat.{add-zero}

-- What happens to the log. Xray appends bytes; the log is rotated, so that a new file takes its
-- place; a run reads, with the bytes that Xray appends between its `stat` and its `read`; or a run
-- fails, since the log or the database is missing or a call of the system raises.
pub data Action : Type 0 where
  append : List ℕ → Action
  rotate : ℕ → Action
  sync : List ℕ → Action
  failed : Bool → Bool → Option (ℕ × ℕ) → Action

-- The file that is the log now, the database, and all bytes that Xray has written to the log.
pub record World : Type 0 where
  pub inode : ℕ
  pub content : List ℕ
  pub db : Database
  pub written : List ℕ

-- A server where nothing is logged yet.
abbrev pub start : ℕ → World
start inode = record {
  inode = inode;
  content = [];
  db = record { saved = record { inode = none; offset = 0 }; rows = [] };
  written = [];
}

-- What the next run would read.
abbrev pub pending : World → List ℕ
pending w = drop (read_from w.db.saved w.inode (length w.content)) w.content

-- A file takes the place of the log only after a run has read all of it, and has not the inode that
-- is saved. A run finds whole lines.
abbrev pub allowed : World → Action → Bool
allowed w (append bs) = true
allowed w (rotate inode) = nat_eq (length (pending w)) 0 && not (same_inode w.db.saved.inode inode)
allowed w (sync grown) = whole (w.content ++ grown)
allowed w (failed a b c) = true

read_from-le : (saved : Saved) (inode size : ℕ) → read_from saved inode size ≤ size
unfolding read_from
read_from-le saved inode size = ground arith

-- The saved place lies in the file, if it is one of this file.
abbrev in_file : Saved → ℕ → ℕ → Bool
in_file saved inode size = not (same_inode saved.inode inode) || leb saved.offset size

read_from-grown :
    (saved : Saved) (inode size more : ℕ)
    → in_file saved inode size ≡ true
    → read_from saved inode (size + more) ≡ read_from saved inode size
unfolding read_from
read_from-grown saved inode size more h = ground arith

read_from-new :
    (saved : Saved) (inode size : ℕ)
    → same_inode saved.inode inode ≡ false
    → read_from saved inode size ≡ 0
unfolding read_from
read_from-new saved inode size h = ground arith

read_from-all :
    (inode size : ℕ) → read_from (record { inode = some inode; offset = size }) inode size ≡ size
unfolding read_from
read_from-all inode size = ground arith

-- What is read from one place on does not change where the file grows.
pending-grown :
    (saved : Saved) (inode : ℕ) (content bs : List ℕ)
    → in_file saved inode (length content) ≡ true
    → drop (read_from saved inode (length (content ++ bs))) (content ++ bs)
      ≡ drop (read_from saved inode (length content)) content ++ bs
pending-grown saved inode content bs h =
    rw (length-append {0} content bs, read_from-grown saved inode (length content) (length bs) h)
      (drop-append_le _ content bs (read_from-le saved inode (length content)))

module _ (lower digest : String → String) (lines : List ℕ → List String)
    (parse : String → Option Item) where
  abbrev pub run_sync : Database → Answers → Database
  run_sync db answers = (sync_error_log lower digest lines parse db answers).0

  abbrev pub step : World → Action → World
  step w (append bs) = record w { content = w.content ++ bs; written = w.written ++ bs }
  step w (rotate inode) = record w { inode = inode; content = [] }
  step w (sync grown) = record w {
    content = w.content ++ grown;
    written = w.written ++ grown;
    db = run_sync w.db (record {
      log_exists = true;
      database_exists = true;
      stat = some (w.inode, length w.content);
      content = some (w.content ++ grown);
    });
  }
  step w (failed log_exists database_exists stat) = record w {
    db = run_sync w.db (record {
      log_exists = log_exists;
      database_exists = database_exists;
      stat = stat;
      content = none;
    });
  }

  abbrev pub steps : World → List Action → World
  steps w [] = w
  steps w (a ∷ as') = steps (step w a) as'

  abbrev pub all_allowed : World → List Action → Bool
  all_allowed w [] = true
  all_allowed w (a ∷ as') = allowed w a && all_allowed (step w a) as'

  -- What the runs have read so far, of all that is written.
  record IsRead (w : World) (read : List ℕ) : Type 0 where
    total : read ++ pending w ≡ w.written
    stored : w.db.rows ≡ upsert_each lower digest [] (parsed parse (lines read))
    ended : whole read ≡ true
    placed : in_file w.db.saved w.inode (length w.content) ≡ true

  append-IsRead : (w : World) (read bs : List ℕ) → IsRead w read → IsRead (step w (append bs)) read
  append-IsRead w read bs r = record {
    total =
        rw (pending-grown w.db.saved w.inode w.content bs r.placed)
          (sym (append_assoc read (pending w) bs) ∙ ap (λ ys. ys ++ bs) r.total);
    stored = r.stored;
    ended = r.ended;
    placed = ground (arith, r.placed, length-append {0} w.content bs);
  }

  rotate-IsRead :
      (w : World) (read : List ℕ) (inode : ℕ)
      → IsRead w read
      → allowed w (rotate inode) ≡ true
      → IsRead (step w (rotate inode)) read
  rotate-IsRead w read inode r a =
      let new : same_inode w.db.saved.inode inode ≡ false = ground arith in
      record {
        total =
            rw (read_from-new w.db.saved inode 0 new)
              (ap (λ ys. read ++ ys) (sym (no_bytes (pending w) (ground arith))) ∙ r.total);
        stored = r.stored;
        ended = r.ended;
        placed = ground arith;
      }

  run_sync-failed :
      (db : Database) (a b : Bool) (c : Option (ℕ × ℕ))
      → run_sync db (record { log_exists = a; database_exists = b; stat = c; content = none }) ≡ db
  unfolding sync_error_log
  run_sync-failed db a b c = ground arith

  failed-IsRead :
      (w : World) (read : List ℕ) (a b : Bool) (c : Option (ℕ × ℕ))
      → IsRead w read
      → IsRead (step w (failed a b c)) read
  failed-IsRead w read a b c r = rw (run_sync-failed w.db a b c) r

  -- The answers of a run that reads the file.
  abbrev reads : World → List ℕ → Answers
  reads w grown = record {
    log_exists = true;
    database_exists = true;
    stat = some (w.inode, length w.content);
    content = some (w.content ++ grown);
  }

  abbrev place : World → ℕ
  place w = read_from w.db.saved w.inode (length w.content)

  run_sync-reads :
      (w : World) (grown : List ℕ)
      → run_sync w.db (reads w grown)
        ≡ store_data lower digest lines parse w.db w.inode (place w) (w.content ++ grown)
  unfolding sync_error_log
  run_sync-reads w grown = refl

  -- A run that reads leaves nothing.
  pending-stored :
      (w : World) (grown : List ℕ)
      → pending (record w {
        content = w.content ++ grown;
        db = store_data lower digest lines parse w.db w.inode (place w) (w.content ++ grown);
      })
        ≡ []
  unfolding store_data
  pending-stored w grown =
      let content' = w.content ++ grown in
      let low : place w ≤ length content' = omega (
        arith,
        read_from-le w.db.saved w.inode (length w.content),
        length-append {0} w.content grown,
      ) in
      rw (length-drop (place w) content' low, read_from-all w.inode (length content'))
        (drop-length_all (length content') content' (omega arith))

  pending-sync : (w : World) (grown : List ℕ) → pending (step w (sync grown)) ≡ []
  pending-sync w grown = rw (run_sync-reads w grown) (pending-stored w grown)

  -- The law of `splitlines` at the end of a line.
  module _
      (lines-append : (xs ys : List ℕ)
        → whole xs ≡ true
        → lines (xs ++ ys) ≡ lines xs ++ lines ys) where
    sync-IsRead :
        (w : World) (read grown : List ℕ)
        → IsRead w read
        → allowed w (sync grown) ≡ true
        → IsRead (step w (sync grown)) (read ++ drop (place w) (w.content ++ grown))
    unfolding store_data
    sync-IsRead w read grown r a =
        let content' = w.content ++ grown in
        let data' = drop (place w) content' in
        let low : place w ≤ length content' = omega (
          arith,
          read_from-le w.db.saved w.inode (length w.content),
          length-append {0} w.content grown,
        ) in
        let end : place w + length data' ≡ length content' = length-drop (place w) content' low in
        rw (run_sync-reads w grown) (record {
          total =
              rw (pending-stored w grown, append-nil)
                (rw
                  (drop-append_le (place w) w.content grown
                    (read_from-le w.db.saved w.inode (length w.content)))
                  (sym (append_assoc read (pending w) grown) ∙ ap (λ ys. ys ++ grown) r.total));
          stored =
              ap (λ rs. upsert_each lower digest rs (parsed parse (lines data'))) r.stored
              ∙ sym (
                  upsert_each-append lower digest [] (parsed parse (lines read))
                    (parsed parse (lines data')))
              ∙ ap (upsert_each lower digest []) (
                  sym (parsed-append parse (lines read) (lines data'))
                  ∙ ap (parsed parse) (sym (lines-append read data' r.ended)));
          ended = whole-append read data' r.ended (whole-drop (place w) content' a);
          placed = ground (arith, end);
        })

    start-IsRead : (inode : ℕ) → IsRead (start inode) []
    start-IsRead inode = record {
      total = drop-length_all _ [] (omega arith);
      stored = rw (doubled (lines []) (lines-append [] [] refl));
      ended = refl;
      placed = refl;
    }

    steps-IsRead :
        (w : World) (as' : List Action) (read : List ℕ)
        → all_allowed w as' ≡ true
        → IsRead w read
        → (read' : List ℕ) × IsRead (steps w as') read'
    steps-IsRead w [] read a r = (read, r)
    steps-IsRead w (append bs ∷ as') read a r =
        steps-IsRead (step w (append bs)) as' read a (append-IsRead w read bs r)
    steps-IsRead w (rotate inode ∷ as') read a r =
        steps-IsRead (step w (rotate inode)) as' read (&&-right _ _ a)
          (rotate-IsRead w read inode r (&&-left _ _ a))
    steps-IsRead w (sync grown ∷ as') read a r =
        steps-IsRead (step w (sync grown)) as' _ (&&-right _ _ a)
          (sync-IsRead w read grown r (&&-left _ _ a))
    steps-IsRead w (failed x y z ∷ as') read a r =
        steps-IsRead (step w (failed x y z)) as' read a (failed-IsRead w read x y z r)

    -- From a server where nothing is logged, Xray appends bytes to the log, files take the place of
    -- the log after all of it is read, runs of `sync_error_log` fail, and other runs read whole
    -- lines, in any order. After one more run that reads, the table of events is the one that the
    -- events of the lines of all bytes that Xray has written give in their order, and its counts add
    -- up to the number of these events, so that none is lost and none counts twice.
    pub sync_error_log-whole :
        (inode : ℕ) (as' : List Action) (grown : List ℕ)
        → all_allowed (start inode) as' ≡ true
        → allowed (steps (start inode) as') (sync grown) ≡ true
        → ((step (steps (start inode) as') (sync grown)).db.rows
            ≡ upsert_each lower digest []
                (parsed parse (lines (step (steps (start inode) as') (sync grown)).written)))
          × (total_count (step (steps (start inode) as') (sync grown)).db.rows
              ≡ length (parsed parse (lines (step (steps (start inode) as') (sync grown)).written)))
    sync_error_log-whole inode as' grown a b =
        let w : World = steps (start inode) as' in
        let (read, r) = steps-IsRead (start inode) as' [] a (start-IsRead inode) in
        let s = sync-IsRead w read grown r b in
        let read' = read ++ drop (place w) (w.content ++ grown) in
        let all_read : read' ≡ (step w (sync grown)).written =
          sym (append-nil read') ∙ ap (λ ys. read' ++ ys) (sym (pending-sync w grown)) ∙ s.total in
        let rows : (step w (sync grown)).db.rows
            ≡ upsert_each lower digest [] (parsed parse (lines (step w (sync grown)).written)) =
          s.stored ∙ ap (λ ys. upsert_each lower digest [] (parsed parse (lines ys))) all_read in
        (
          rows,
          ap total_count rows
              ∙ total_count-upsert_each lower digest []
                  (parsed parse (lines (step w (sync grown)).written))
              ∙ add-zero _,
        )
