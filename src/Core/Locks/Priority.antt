-- ===== src/Core/Locks/Priority.antt =====
-- A waiting owner goes before the next batch of the service (core/locks.py).
use xray_vps_manager.Base.{
  ℕ, ◌≡◌, refl, arith, Bool, true, false, some, nat_eq, ◌&&◌, List, [], ◌∷◌,
}
use xray_vps_manager.Core.Locks.{
  Phase, inside, World, Action, enter, acquire, start, release, attempt, is_waiting, without,
  no_one,
}

abbrev pub is_inside : Phase → Bool
is_inside inside = true
is_inside _ = false

abbrev pub is_release : Action → Bool
is_release release = true
is_release _ = false

module _ (is_owner : ℕ → Bool) where
  -- The steps of a time in which one owner does not close its files.
  pub data WaitStep (o : ℕ) : World → World → Type 0 where
    wait_step :
        {w w' : World} (a : Action) (p : ℕ)
        → (is_release a && nat_eq p o) ≡ false
        → attempt is_owner a p w ≡ some w'
        → WaitStep o w w'

  pub data WaitRun (o : ℕ) : World → World → Type 0 where
    wait_here : {w : World} → WaitRun o w w
    wait_next : {w v u : World} → WaitRun o w v → WaitStep o v u → WaitRun o w u

is_waiting-without :
    (o p : ℕ) (ps : List ℕ) → nat_eq p o ≡ false → is_waiting (without p ps) o ≡ is_waiting ps o
is_waiting-without o p [] h = refl
is_waiting-without o p (q ∷ ps) h = ground (arith, is_waiting-without o p ps h)

not-no_one : (o : ℕ) (ps : List ℕ) → is_waiting ps o ≡ true → no_one ps ≡ false
not-no_one o [] h = absurd (ground arith)
not-no_one o (p ∷ ps) h = refl

module _ (is_owner : ℕ → Bool) (o q : ℕ) (service : is_owner q ≡ false) where
  -- The owner is registered still.
  attempt-waiting :
      (a : Action) (p : ℕ) (w w' : World)
      → (is_release a && nat_eq p o) ≡ false
      → attempt is_owner a p w ≡ some w'
      → is_waiting w.waiting o ≡ true
      → is_waiting w'.waiting o ≡ true
  unfolding attempt
  attempt-waiting enter p w w' n e h = ground arith
  attempt-waiting acquire p w w' n e h = ground arith
  attempt-waiting start p w w' n e h = ground arith
  attempt-waiting release p w w' n e h = ground (arith, is_waiting-without o p w.waiting n)

  -- A service that is in the body was in it before.
  attempt-inside :
      (a : Action) (p : ℕ) (w w' : World)
      → attempt is_owner a p w ≡ some w'
      → is_waiting w.waiting o ≡ true
      → is_inside (w'.phase q) ≡ true
      → is_inside (w.phase q) ≡ true
  unfolding attempt
  attempt-inside enter p w w' e h k = ground arith
  attempt-inside acquire p w w' e h k = ground arith
  attempt-inside start p w w' e h k = ground (arith, not-no_one o w.waiting h)
  attempt-inside release p w w' e h k = ground arith

  run-waiting :
      {w w' : World}
      → WaitRun is_owner o w w'
      → is_waiting w.waiting o ≡ true
      → is_waiting w'.waiting o ≡ true
  run-waiting wait_here h = h
  run-waiting (wait_next r (wait_step a p n e)) h = attempt-waiting a p _ _ n e (run-waiting r h)

  -- As long as a registered owner does not close its files, no other process than an owner gets into
  -- the body: a service that is in it was in it when the owner had registered.
  pub WaitRun-inside :
      {w w' : World}
      → WaitRun is_owner o w w'
      → is_waiting w.waiting o ≡ true
      → is_inside (w'.phase q) ≡ true
      → is_inside (w.phase q) ≡ true
  WaitRun-inside wait_here h k = k
  WaitRun-inside (wait_next r (wait_step a p n e)) h k =
      WaitRun-inside r h (attempt-inside a p _ _ e (run-waiting r h) k)
