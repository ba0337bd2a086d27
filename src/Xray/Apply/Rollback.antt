-- ===== src/Xray/Apply/Rollback.antt =====
-- What each outcome of `apply_config` says of the files (apply.py).
use xray_vps_manager.Xray.Apply.{
  Call, Disk, Fault, Stage, write, restart, after_write, maybe_restart, backup_path, handle,
  write_live, apply_tested, apply_config, roll_back, Events, Failure, Applied, Outcome, applied,
  failed, rollback,
}
use xray_vps_manager.Base.{
  arith, true, refl, Option-cases, inl, inr, ◌∙◌, ℕ, ◌≡◌, Bool, Option, none, some, List, [], ◌∷◌,
  if◌then◌else◌, nat_eq,
}

-- The content of the first backup with the number.
abbrev pub copy_of {ℓ} : {Bytes : Type ℓ} → List (ℕ × Bytes) → Option ℕ → Option Bytes
copy_of backups none = none
copy_of [] (some n) = none
copy_of ((m, bytes) ∷ rest) (some n) = if nat_eq m n then some bytes else copy_of rest (some n)

module _ {ℓ} {Bytes : Type ℓ} (with_restart : Bool) (original new : Bytes)
    (running : Option Bytes) where
  -- Success: either the new content is live, its predecessor is in the named copy, and it runs if a
  -- restart was asked for; or nothing changed, and the new content is the live one.
  abbrev pub AppliedRight : Applied → Disk Bytes → Type ℓ
  AppliedRight a d =
      if a.changed
      then (d.live ≡ new)
        × (copy_of d.backups a.backup ≡ some original)
        × (d.running ≡ (if with_restart then some new else running))
      else (d.live ≡ new) × (d.live ≡ original) × (d.running ≡ running)

  -- The original is live, and it runs if the error says that it was restored.
  abbrev pub Untouched : Failure → Disk Bytes → Type ℓ
  Untouched f d = (d.live ≡ original) × (if f.restored then d.running ≡ some original else Unit)

  -- Failure: if the stage is `rollback` the named copy holds the original, else it is live.
  abbrev pub FailedRight : Failure → Disk Bytes → Type ℓ
  FailedRight f d = elim f.stage [
    | rollback ↦ copy_of d.backups f.backup ≡ some original
    | _ ↦ Untouched f d
  ]

  abbrev pub Right : Outcome → Disk Bytes → Type ℓ
  Right (applied a) d = AppliedRight a d
  Right (failed f) d = FailedRight f d

module _ {ℓ} {Bytes : Type ℓ} (same : Bytes → Bytes → Bool)
    (same-sound : (a b : Bytes) → same a b ≡ true → a ≡ b) (events : Events)
    (with_restart : Bool) where
  roll_back-Right :
      (backup : ℕ) (original new : Bytes) (running : Option Bytes) (stage : Stage) (f : Fault)
      (d : Disk Bytes)
      → copy_of d.backups (some backup) ≡ some original
      → let (r, d') = roll_back same events with_restart backup original stage f d in
        Right with_restart original new running r d'
  unfolding roll_back
  roll_back-Right backup original new running stage f d h = ground arith

  backups-maybe_restart :
      (call : Call) (d : Disk Bytes) (n : Option ℕ)
      → copy_of (maybe_restart same with_restart call d).0.backups n ≡ copy_of d.backups n
  backups-maybe_restart call d n = ground arith

  module _ (backup : ℕ) (original new : Bytes) (running : Option Bytes) where
    handle-Right :
        (stage : Stage) (f : Fault) (d : Disk Bytes)
        → copy_of d.backups (some backup) ≡ some original
        → let (r, d') = handle same events with_restart backup original stage f d in
          Right with_restart original new running r d'
    unfolding handle
    handle-Right write f d h =
        ground (
          arith,
          roll_back-Right backup original new running write f d h,
          same-sound d.live original,
        )
    handle-Right stage f d h = roll_back-Right backup original new running stage f d h

    write_live-Right :
        (verifies : Bool) (ports : List ℕ) (d : Disk Bytes)
        → copy_of d.backups (some backup) ≡ some original
        → d.running ≡ running
        → let (r, d') = write_live same events with_restart verifies ports backup new original d in
          Right with_restart original new running r d'
    unfolding write_live
    write_live-Right verifies ports d h k =
        let (live, write_fault) = after_write same events.live_write new d.live in
        let d' = record d { live = live } in
        let (d'', restart_fault) = maybe_restart same with_restart events.restart d' in
        let copied : copy_of d''.backups (some backup) ≡ some original =
          backups-maybe_restart events.restart d' (some backup) ∙ h in
        elim (Option-cases write_fault) [
          | inr (f, e) ↦ rw (e, write_live) (handle-Right write f d' h)
          | inl e ↦ elim (Option-cases restart_fault) [
            | inr (f, e') ↦ rw (e, e', write_live) (handle-Right restart f d'' copied)
            | inl e' ↦ ground (arith, e, e')
          ]
        ]

  apply_tested-Right :
      (verifies : Bool) (ports : List ℕ) (stamp : ℕ) (new : Bytes) (d : Disk Bytes)
      → let (r, d') = apply_tested same events with_restart verifies ports stamp new d in
        Right with_restart d.live new d.running r d'
  unfolding apply_tested
  apply_tested-Right verifies ports stamp new d =
      let name = backup_path d stamp in
      let copied = record d { backups = (name, d.live) ∷ d.backups } in
      ground (
        arith,
        same-sound new d.live,
        write_live-Right name d.live new d.running verifies ports copied (ground arith) refl,
      )

  -- Whatever the calls of one run of `apply_config` answer: after a success with a change the new
  -- content is live, the named copy holds the original, and the new content runs if a restart was
  -- asked for; after a success without one the original is live and is the new content; after an
  -- error of the stage `rollback` the named copy holds the original; after any other error the
  -- original is live, and it runs if the error says that it was restored.
  pub apply_config-Right :
      (verifies : Bool) (ports : List ℕ) (stamp : ℕ) (new : Bytes) (d : Disk Bytes)
      → let (r, d') = apply_config same events with_restart verifies ports stamp new d in
        Right with_restart d.live new d.running r d'
  unfolding apply_config
  apply_config-Right verifies ports stamp new d =
      ground (arith, apply_tested-Right verifies ports stamp new (record d { candidate = none }))
