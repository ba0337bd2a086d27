-- ===== src/Xray/Apply/Stamp.antt =====
-- `_backup_path` of apply.py: the loop ends, at a name that no copy has.
use xray_vps_manager.Base.{
  inr, inl, Bool-cases, ap, ℕ, suc, zero, ◌≤◌, ◌<◌, ◌≡◌, refl, true, false, List, [], ◌∷◌, arith,
  if◌then◌else◌, leb, length, map,
}
use xray_vps_manager.Xray.Apply.{Disk, backup_names, backup_path, free_stamp, taken}

-- How many of the numbers are at least `n`.
above : List ℕ → ℕ → ℕ
above [] n = 0
above (m ∷ ms) n = if leb n m then suc (above ms n) else above ms n

above-le : (ms : List ℕ) (n : ℕ) → above ms n ≤ length ms
unfolding above
above-le [] n = omega arith
above-le (m ∷ ms) n = ground (arith, above-le ms n)

above-suc_le : (ms : List ℕ) (n : ℕ) → above ms (suc n) ≤ above ms n
unfolding above
above-suc_le [] n = omega arith
above-suc_le (m ∷ ms) n = ground (arith, above-suc_le ms n)

above-suc_lt : (ms : List ℕ) (n : ℕ) → taken ms n ≡ true → above ms (suc n) < above ms n
unfolding above
above-suc_lt [] n h = ground arith
above-suc_lt (m ∷ ms) n h = ground (arith, above-suc_lt ms n, above-suc_le ms n)

free_stamp-free :
    (fuel : ℕ) (used : List ℕ) (stamp : ℕ)
    → above used stamp < fuel
    → (taken used (free_stamp fuel used stamp) ≡ false) × (stamp ≤ free_stamp fuel used stamp)
unfolding free_stamp
free_stamp-free zero used stamp h = absurd (omega arith)
free_stamp-free (suc fuel) used stamp h = elim (Bool-cases (taken used stamp)) [
  | inl e ↦
      let (free, later) =
        free_stamp-free fuel used (suc stamp) (omega (arith, above-suc_lt used stamp e)) in
      rw e (free, omega arith)
  | inr e ↦ rw e (e, omega arith)
]

length-names {ℓ} :
    {Bytes : Type ℓ} (backups : List (ℕ × Bytes))
    → length (map (λ (n, _). n) backups) ≡ length backups
length-names [] = refl
length-names (b ∷ bs) = ap suc (length-names bs)

-- The name that `_backup_path` returns is not among the backups, and is not before the time stamp.
pub backup_path-free {ℓ} :
    {Bytes : Type ℓ} (d : Disk Bytes) (stamp : ℕ)
    → (taken (backup_names d) (backup_path d stamp) ≡ false) × (stamp ≤ backup_path d stamp)
unfolding backup_path
backup_path-free d stamp =
    free_stamp-free (suc (length d.backups)) (backup_names d) stamp
      (omega (arith, above-le (backup_names d) stamp, length-names d.backups))
