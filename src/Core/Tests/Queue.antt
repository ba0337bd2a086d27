-- ===== src/Core/Tests/Queue.antt =====
-- A poll service (process 1) and an owner (process 2) at the lock of the poller.
use xray_vps_manager.Core.Locks.Priority.{
  wait_step, wait_next, is_inside, WaitRun, wait_here, WaitRun-inside,
}
use xray_vps_manager.Base.{ℕ, ◌≡◌, refl, Bool, true, none, some, [], ◌∷◌, nat_eq, ◌||◌}
use xray_vps_manager.Core.Locks.{
  World, outside, entered, holding, inside, enter, acquire, start, set_phase, attempt, step, Reach,
  here, next, nobody,
}
use xray_vps_manager.Core.Locks.Exclusion.{Reach-exclusive}

abbrev is_owner : ℕ → Bool
is_owner p = nat_eq p 2 || nat_eq p 3

abbrev service_entered : World
service_entered = set_phase 1 entered nobody

abbrev service_holding : World
service_holding = set_phase 1 holding (record service_entered { flock = some 1 })

abbrev service_inside : World
service_inside = set_phase 1 inside service_holding

-- The owner registers while the service is in the body.
abbrev owner_entered : World
owner_entered = set_phase 2 entered (record service_inside { waiting = 2 ∷ [] })

service_run : Reach is_owner nobody owner_entered
unfolding attempt
service_run =
    next (next (next (next here (step enter 1 refl)) (step acquire 1 refl)) (step start 1 refl))
      (step enter 2 refl)

abbrev service : ℕ
service = 1

Reach-exclusive_example : service ≡ service
Reach-exclusive_example =
    Reach-exclusive is_owner owner_entered service service service_run refl refl

-- The service cannot start another batch: its first check fails.
service_waits :
    attempt is_owner enter 1 (set_phase 1 outside (record owner_entered { flock = none })) ≡ none
unfolding attempt
service_waits = refl

-- Another owner registers too.
abbrev both_entered : World
both_entered = set_phase 3 entered (record owner_entered { waiting = 3 ∷ 2 ∷ [] })

owner_asks : WaitRun is_owner 2 owner_entered both_entered
unfolding attempt
owner_asks = wait_next wait_here (wait_step enter 3 refl refl)

WaitRun-inside_example : is_inside (owner_entered.phase 1) ≡ true
WaitRun-inside_example = WaitRun-inside is_owner 2 1 refl owner_asks refl refl
