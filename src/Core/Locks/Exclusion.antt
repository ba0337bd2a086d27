-- ===== src/Core/Locks/Exclusion.antt =====
-- At most one process is in the body of `telegram_poller_lock` (core/locks.py).
use xray_vps_manager.Core.Locks.{
  step, here, next, nobody, Step, Reach, Phase, holding, inside, World, Action, enter, acquire,
  start, release, attempt,
}
use xray_vps_manager.Base.{sym, ◌∙◌, ℕ, ◌≡◌, arith, Bool, true, false, some}

abbrev pub has_lock : Phase → Bool
has_lock holding = true
has_lock inside = true
has_lock _ = false

-- Who is past `acquire_flock` is the holder of the lock.
abbrev pub Held : World → Type 0
Held w = (q : ℕ) → has_lock (w.phase q) ≡ true → w.flock ≡ some q

module _ (is_owner : ℕ → Bool) where
  attempt-Held :
      (a : Action) (p : ℕ) (w w' : World) → attempt is_owner a p w ≡ some w' → Held w → Held w'
  unfolding attempt
  attempt-Held enter p w w' e h q k = ground (arith, h q)
  attempt-Held acquire p w w' e h q k = ground (arith, h q)
  attempt-Held start p w w' e h q k = ground (arith, h q, h p)
  attempt-Held release p w w' e h q k = ground (arith, h q)

  Step-Held : {w w' : World} → Step is_owner w w' → Held w → Held w'
  Step-Held (step a p e) h = attempt-Held a p _ _ e h

  Reach-Held : {w w' : World} → Reach is_owner w w' → Held w → Held w'
  Reach-Held here h = h
  Reach-Held (next r s) h = Step-Held s (Reach-Held r h)

  -- Whatever the processes do, in any order, from no process on: two that are past the lock, in the
  -- body or before the second check, are the same one.
  pub Reach-exclusive :
      (w : World) (p q : ℕ)
      → Reach is_owner nobody w
      → has_lock (w.phase p) ≡ true
      → has_lock (w.phase q) ≡ true
      → p ≡ q
  Reach-exclusive w p q r hp hq =
      let held = Reach-Held r (λ s k. absurd (ground arith)) in
      let path = sym (held p hp) ∙ held q hq in ground arith
