-- ===== src/Xray/Apply.antt =====
-- xray_vps_manager/xray/apply.py: a candidate of config.json is tested, written, started and, where
-- that fails, taken back. What each call of the outside does in one run stands in `Events`.
pub mod Stamp
pub mod Rollback
use xray_vps_manager.Base.{
  ℕ, suc, zero, ◌+◌, String, Bool, true, false, not, ◌&&◌, ◌||◌, Option, none, some, List, [], ◌∷◌,
  map, if◌then◌else◌, is_some, nat_eq, length, ltb,
}
use xray_vps_manager.Base.Assoc.{insert}

-- What raised: Ctrl-C, the failed start of a unit, anything else.
pub data Fault : Type 0 where
  interrupt start_error other : Fault

-- A call that returns or raises.
pub data Call : Type 0 where
  returns : Call
  raises : Fault → Call

-- A call of `fs.replace_file`: it may raise before its rename, or be interrupted after it.
pub data Write : Type 0 where
  written : Write
  raised_before raised_after : Fault → Write

-- A read that returns the file's content or raises.
pub data Read : Type 0 where
  reads : Read
  read_raises : Fault → Read

pub data Stage : Type 0 where
  invariants test write restart verify rollback : Stage

-- `ApplyConfigError`: its stage, its backup, `restored`, and whether the exit code is 130.
pub record Failure : Type 0 where
  pub stage : Stage
  pub backup : Option ℕ
  pub restored : Bool
  pub interrupted : Bool

-- `ApplyResult`; `verified_ports` are the loopback ports of the candidate.
pub record Applied : Type 0 where
  pub changed : Bool
  pub backup : Option ℕ
  pub restarted : Bool
  pub verified_ports : List ℕ

pub data Outcome : Type 0 where
  applied : Applied → Outcome
  failed : Failure → Outcome

-- One run: what the outside answers to each call, in the order of the calls.
pub record Events : Type 0 where
  pub validate : Call
  pub candidate_write : Write
  pub xray_test : Call
  pub failed_unlink : Call
  pub unlink : Call
  pub read : Call
  pub parse_old : Call
  pub backup_write : Write
  pub live_write : Write
  pub restart : Call
  pub reread : Call
  pub rollback_write : Write
  pub rollback_restart : Call

-- The files, by the type of their content, and what Xray was last started with successfully.
-- A backup is named by the number in its suffix.
pub record Disk {ℓ} (Bytes : Type ℓ) : Type ℓ where
  pub live : Bytes
  pub candidate : Option Bytes
  pub backups : List (ℕ × Bytes)
  pub running : Option Bytes

abbrev pub is_interrupt : Fault → Bool
is_interrupt interrupt = true
is_interrupt _ = false

abbrev pub taken : List ℕ → ℕ → Bool
taken [] n = false
taken (m ∷ ms) n = nat_eq m n || taken ms n

-- The loop of `_backup_path`: the first number from `stamp` on that no backup has. The fuel is one
-- more than the number of backups.
unfoldable pub free_stamp : ℕ → List ℕ → ℕ → ℕ
free_stamp zero used stamp = stamp
free_stamp (suc fuel) used stamp =
    let rest = free_stamp fuel used (suc stamp) in if taken used stamp then rest else stamp

abbrev pub backup_names {ℓ} : {Bytes : Type ℓ} → Disk Bytes → List ℕ
backup_names d = map (λ (n, _). n) d.backups

unfoldable pub backup_path {ℓ} : {Bytes : Type ℓ} → Disk Bytes → ℕ → ℕ
unfolding free_stamp
backup_path d stamp = free_stamp (suc (length d.backups)) (backup_names d) stamp

-- The handlers at the end of `apply_config`: an error becomes an `ApplyConfigError` of the stage.
abbrev pub fail : Stage → Option ℕ → Fault → Outcome
fail stage backup f =
    failed
      (record { stage = stage; backup = backup; restored = false; interrupted = is_interrupt f })

abbrev pub failed_stage : Stage → Fault → Stage
failed_stage stage start_error = verify
failed_stage stage _ = stage

module _ {ℓ} {Bytes : Type ℓ} (same : Bytes → Bytes → Bool) where
  -- What a write leaves in a file, and the fault that it raises.
  abbrev pub after_write : Write → Bytes → Bytes → Bytes × Option Fault
  after_write written new old = (new, none)
  after_write (raised_before f) new old = (old, some f)
  after_write (raised_after f) new old = (new, some f)

  abbrev pub after_call : Call → Option Fault
  after_call returns = none
  after_call (raises f) = some f

  -- `restart_unit`: a successful start runs what is in the file, a failed one nothing.
  abbrev pub after_restart : Call → Disk Bytes → Disk Bytes × Option Fault
  after_restart returns d = (record d { running = some d.live }, none)
  after_restart (raises f) d = (record d { running = none }, some f)

  -- `if restart: systemd.restart_unit(...)`
  abbrev pub maybe_restart : Bool → Call → Disk Bytes → Disk Bytes × Option Fault
  maybe_restart true call d = after_restart call d
  maybe_restart false call d = (d, none)

  module _ (events : Events) (with_restart : Bool) (backup : ℕ) (original : Bytes) where
    abbrev rollback_failure : Failure
    rollback_failure = record {
      stage = rollback;
      backup = some backup;
      restored = false;
      interrupted = false;
    }

    abbrev rolled_failure : Stage → Fault → Failure
    rolled_failure stage f = record {
      stage = failed_stage stage f;
      backup = some backup;
      restored = with_restart;
      interrupted = is_interrupt f;
    }

    -- The original is written back and started again; a failure of that is the stage `rollback`.
    unfoldable pub roll_back : Stage → Fault → Disk Bytes → Outcome × Disk Bytes
    roll_back stage f d =
        let (live, write_fault) = after_write events.rollback_write original d.live in
        let d' = record d { live = live } in
        let (d'', restart_fault) = maybe_restart with_restart events.rollback_restart d' in
        elim write_fault [
          | some _ ↦ (failed rollback_failure, d')
          | none ↦ elim restart_fault [
            | some _ ↦ (failed rollback_failure, d'')
            | none ↦ (failed (rolled_failure stage f), d'')
          ]
        ]

    -- The handler around the write and the restart. After a failed write the file is read again, and
    -- is taken to be changed where that fails.
    unfoldable pub handle : Stage → Fault → Disk Bytes → Outcome × Disk Bytes
    handle write f d =
        let rolled = roll_back write f d in
        elim events.reread [
          | returns ↦ if same d.live original then (fail write (some backup) f, d) else rolled
          | raises _ ↦ rolled
        ]
    handle stage f d = roll_back stage f d

  -- The write of the file, the restart, and the result. `verifies` says `verify_timeout > 0`.
  unfoldable pub write_live :
      Events → Bool → Bool → List ℕ → ℕ → Bytes → Bytes → Disk Bytes → Outcome × Disk Bytes
  write_live events with_restart verifies ports backup new original d =
      let (live, write_fault) = after_write events.live_write new d.live in
      let d' = record d { live = live } in
      let (d'', restart_fault) = maybe_restart with_restart events.restart d' in
      let result : Applied = record {
        changed = true;
        backup = some backup;
        restarted = with_restart;
        verified_ports = if with_restart && verifies then ports else [];
      } in
      elim write_fault [
        | some f ↦ handle events with_restart backup original write f d'
        | none ↦ elim restart_fault [
          | some f ↦ handle events with_restart backup original restart f d''
          | none ↦ (applied result, d'')
        ]
      ]

  abbrev unchanged_result : Applied
  unchanged_result = record {
    changed = false;
    backup = none;
    restarted = false;
    verified_ports = [];
  }

  -- From the read of the original on.
  unfoldable pub apply_tested :
      Events → Bool → Bool → List ℕ → ℕ → Bytes → Disk Bytes → Outcome × Disk Bytes
  apply_tested events with_restart verifies ports stamp new d =
      let original = d.live in
      let name = backup_path d stamp in
      let copied = record d { backups = (name, original) ∷ d.backups } in
      let go_on = write_live events with_restart verifies ports name new original copied in
      elim events.read [
        | raises f ↦ (fail write none f, d)
        | returns ↦
            if same new original then (applied unchanged_result, d) else elim events.parse_old [
              | raises f ↦ (fail write none f, d)
              | returns ↦ elim events.backup_write [
                | written ↦ go_on
                | raised_before f ↦ (fail write none f, d)
                | raised_after f ↦ (fail write none f, copied)
              ]
            ]
      ]

  -- The handler around the write and the test of the candidate.
  abbrev drop_candidate : Events → Fault → Disk Bytes → Outcome × Disk Bytes
  drop_candidate events f d = elim events.failed_unlink [
    | returns ↦ (fail test none f, record d { candidate = none })
    | raises g ↦ (fail test none g, d)
  ]

  -- The candidate is written and tested; a failure removes it, and a failure of that is an error of
  -- the same stage. It is removed after a successful test too.
  unfoldable pub apply_config :
      Events → Bool → Bool → List ℕ → ℕ → Bytes → Disk Bytes → Outcome × Disk Bytes
  apply_config events with_restart verifies ports stamp new d =
      let present = record d { candidate = some new } in
      let absent = record d { candidate = none } in
      let go_on = apply_tested events with_restart verifies ports stamp new absent in
      elim events.validate [
        | raises f ↦ (fail invariants none f, d)
        | returns ↦ elim events.candidate_write [
          | raised_before f ↦ drop_candidate events f d
          | raised_after f ↦ drop_candidate events f present
          | written ↦ elim events.xray_test [
            | raises f ↦ drop_candidate events f present
            | returns ↦ elim events.unlink [
              | raises f ↦ (fail test none f, present)
              | returns ↦ go_on
            ]
          ]
        ]
      ]
