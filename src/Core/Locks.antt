-- ===== src/Core/Locks.antt =====
-- xray_vps_manager/core/locks.py: the lock of the Telegram poller, which the service takes for each
-- batch and an owner (a setup command) waits for. Processes are numbers. Each `flock` or `lockf` is
-- one action; the kernel gives up the locks of a process when it closes its files or ends.
pub mod Exclusion
pub mod Priority
use xray_vps_manager.Base.{
  ℕ, Bool, true, false, not, Option, none, some, List, [], ◌∷◌, if◌then◌else◌, nat_eq, ◌||◌, ◌≡◌,
}

-- How far a process is in `telegram_poller_lock`: `entered` after it has registered or checked,
-- `holding` after `acquire_flock`, `inside` while the body runs.
pub data Phase : Type 0 where
  outside entered holding inside : Phase

-- The holder of the main lock, the owners that hold their byte of the entry file, and the phases.
pub record World : Type 0 where
  pub flock : Option ℕ
  pub waiting : List ℕ
  pub phase : ℕ → Phase

abbrev pub set_phase : ℕ → Phase → World → World
set_phase p f w = record w { phase = λ q. if nat_eq q p then f else w.phase q }

abbrev pub is_waiting : List ℕ → ℕ → Bool
is_waiting [] p = false
is_waiting (q ∷ qs) p = nat_eq q p || is_waiting qs p

abbrev pub no_one : List ℕ → Bool
no_one [] = true
no_one (_ ∷ _) = false

abbrev pub without : ℕ → List ℕ → List ℕ
without p [] = []
without p (q ∷ qs) = let rest = without p qs in if nat_eq q p then rest else q ∷ rest

abbrev pub freed : ℕ → Option ℕ → Option ℕ
freed p none = none
freed p (some q) = if nat_eq q p then none else some q

abbrev pub is_outside : Phase → Bool
is_outside outside = true
is_outside _ = false

-- `enter` registers an owner or makes the first check of `_check_waiting_owner`, `acquire` is
-- `acquire_flock`, `start` makes the second check and runs the body, `release` closes the files,
-- after the body, after an error anywhere or when the process is killed.
pub data Action : Type 0 where
  enter acquire start release : Action

module _ (is_owner : ℕ → Bool) where
  -- `none` is an action that the process does not take in its phase, or one that raises
  -- `LockTimeout` or still waits; what follows an error is `release`.
  unfoldable pub attempt : Action → ℕ → World → Option World
  attempt enter p w = elim (w.phase p) [
    | outside ↦
        if is_owner p
        then some (set_phase p entered (record w { waiting = p ∷ w.waiting }))
        else if no_one w.waiting
        then some (set_phase p entered w)
        else none
    | _ ↦ none
  ]
  attempt acquire p w = elim (w.phase p) [
    | entered ↦ elim w.flock [
      | none ↦ some (set_phase p holding (record w { flock = some p }))
      | some _ ↦ none
    ]
    | _ ↦ none
  ]
  attempt start p w = elim (w.phase p) [
    | holding ↦
        if is_owner p
        then some (set_phase p inside w)
        else if no_one w.waiting
        then some (set_phase p inside w)
        else none
    | _ ↦ none
  ]
  attempt release p w =
      some
        (set_phase p outside (record w { flock = freed p w.flock; waiting = without p w.waiting }))

  pub data Step : World → World → Type 0 where
    step : {w w' : World} (a : Action) (p : ℕ) → attempt a p w ≡ some w' → Step w w'

  pub data Reach : World → World → Type 0 where
    here : {w : World} → Reach w w
    next : {w v u : World} → Reach w v → Step v u → Reach w u

abbrev pub nobody : World
nobody = record { flock = none; waiting = []; phase = λ p. outside }
