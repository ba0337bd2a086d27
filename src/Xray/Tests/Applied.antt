-- ===== src/Xray/Tests/Applied.antt =====
-- One run of `apply_config` in which the restart fails and the original is taken back.
use xray_vps_manager.Base.{
  ◌≡◌, refl, true, false, ◌≤◌, Bool, String, none, some, [], ◌∷◌, ◌==◌, eq_iff,
}
use xray_vps_manager.Xray.Apply.{
  Disk, Events, returns, raises, written, other, backup_names, backup_path, taken, apply_config,
}
use xray_vps_manager.Xray.Apply.Rollback.{Right, apply_config-Right}
use xray_vps_manager.Xray.Apply.Stamp.{backup_path-free}

abbrev disk : Disk String
disk = record { live = "old"; candidate = none; backups = (7, "older") ∷ []; running = some "old" }

abbrev restart_fails : Events
restart_fails = record {
  validate = returns;
  candidate_write = written;
  xray_test = returns;
  failed_unlink = returns;
  unlink = returns;
  read = returns;
  parse_old = returns;
  backup_write = written;
  live_write = written;
  restart = raises other;
  reread = returns;
  rollback_write = written;
  rollback_restart = returns;
}

same_text : String → String → Bool
same_text a b = a == b

same_text_sound : (a b : String) → same_text a b ≡ true → a ≡ b
unfolding same_text
same_text_sound a b = (eq_iff a b).0

apply_config-Right_example :
    let (r, d') = apply_config same_text restart_fails true true [] 7 "new" disk in
    Right true "old" "new" (some "old") r d'
apply_config-Right_example =
    apply_config-Right same_text same_text_sound restart_fails true true [] 7 "new" disk

backup_path-free_example :
    (taken (backup_names disk) (backup_path disk 7) ≡ false) × (7 ≤ backup_path disk 7)
backup_path-free_example = backup_path-free disk 7

next_backup : backup_path disk 7 ≡ 8
unfolding backup_path
next_backup = refl
