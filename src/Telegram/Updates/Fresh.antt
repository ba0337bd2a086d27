-- ===== src/Telegram/Updates/Fresh.antt =====
-- New updates are handled, also where their numbers begin anew.
use xray_vps_manager.Base.{
  Option-cases, ℕ, ◌≡◌, refl, arith, String, Bool, false, some, [], ◌∷◌, ltb, get_or, Bool-cases,
  inl, inr,
}
use xray_vps_manager.Telegram.Updates.{
  Update, Updates, keys, PollState, user_update_offset, sequence_of, lowest, lowest_below,
  is_repeated, update_signatures, starts_anew, Claim, claim_user_updates, dispatched,
}

dispatched-above :
    (k n : ℕ) (u : Update) (us : Updates)
    → ltb (lowest k (keys us)) n ≡ false
    → dispatched n ((k, u) ∷ us) ≡ (k, u) ∷ us
unfolding dispatched
dispatched-above k n u [] h = ground arith
dispatched-above k n u ((j, w) ∷ us) h = ground (arith, dispatched-above j n w us)

dispatched-all : (n : ℕ) (us : Updates) → lowest_below us n ≡ false → dispatched n us ≡ us
unfolding dispatched
dispatched-all n [] h = refl
dispatched-all n ((k, u) ∷ us) h = dispatched-above k n u us h

dispatched-zero : (us : Updates) → dispatched 0 us ≡ us
unfolding dispatched
dispatched-zero [] = refl
dispatched-zero ((k, u) ∷ us) = ground (arith, dispatched-zero us)

module _ (digest : String → String) (state snapshot : PollState) (updates : Updates)
    (stamp : String) {confirmed : Bool} (modern : state.offset_confirmed ≡ some confirmed)
    (current : user_update_offset snapshot ≡ user_update_offset state)
    (same_sequence : sequence_of snapshot ≡ sequence_of state)
    (unseen : is_repeated digest (get_or state.signatures []) (update_signatures digest updates)
      ≡ false) where
  -- A reader whose snapshot has the offset and the sequence of the state, in a database that has
  -- confirmations, claims the answer of the Bot API; if no update of it is one of those recorded
  -- last, all its updates are handled, whatever their numbers.
  pub claim_user_updates-handles_new :
      (c : Claim) × (claim_user_updates digest state snapshot updates stamp ≡ some c)
      × (dispatched c.dispatch_from updates ≡ updates)
  unfolding claim_user_updates starts_anew
  claim_user_updates-handles_new =
      elim (Option-cases (claim_user_updates digest state snapshot updates stamp)) [
        | inl e ↦ absurd (ground arith)
        | inr (c, e) ↦ (
          c,
          e,
          elim (Bool-cases (lowest_below updates (user_update_offset state))) [
            | inl low ↦
                let first : c.dispatch_from ≡ 0 = ground arith in rw first (dispatched-zero updates)
            | inr high ↦
                let first : c.dispatch_from ≡ user_update_offset state = ground arith in
                rw first (dispatched-all _ updates high)
          ],
        )
      ]
