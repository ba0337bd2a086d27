-- ===== src/Telegram/Updates/Repeat.antt =====
-- A batch that the Bot API sends again in its next answer is not handled again.
use xray_vps_manager.Base.{
  filter, false, sym, get_or, eq_iff, ltb, ◌∙◌, ℕ, suc, ◌-◌, ◌≤◌, ◌<◌, ◌≡◌, refl, arith, String,
  Bool, true, not, ◌||◌, some, [], ◌∷◌, if◌then◌else◌, nat_eq, is_some, all, Bool-cases,
  Option-cases, inl, inr,
}
use xray_vps_manager.Telegram.Updates.{
  dispatched, sequence_of, starts_anew, Claim, user_update_offset, lowest_below, recorded,
  PollState, claim_user_updates, lowest, is_repeated, update_signatures, Updates, Update, highest,
  Signatures, keys, at, update, last_hundred,
}
use xray_vps_manager.Telegram.Updates.Kept.{
  up_to, has-keys, at-last_hundred, up_to-update, once, at-update, below-le, has-lowest,
  has-highest, up_to-last_hundred, below-up_to, up_to-below, up_to-all,
}

module _ (digest : String → String) where
  at-signatures :
      (us : Updates) (k : ℕ) (u : Update)
      → at us k ≡ some u
      → at (update_signatures digest us) k ≡ some (digest u.text)
  at-signatures [] k u h = absurd (cc)
  at-signatures ((j, w) ∷ us) k u h = ground (arith, at-signatures us k u)

  at-signatures_none :
      (us : Updates) (k : ℕ) → is_some (at (update_signatures digest us) k) ≡ is_some (at us k)
  at-signatures_none [] k = refl
  at-signatures_none ((j, w) ∷ us) k = ground (arith, at-signatures_none us k)

  once-signatures : (us : Updates) → once us ≡ true → once (update_signatures digest us) ≡ true
  once-signatures [] h = refl
  once-signatures ((j, w) ∷ us) h = ground (arith, at-signatures_none us j, once-signatures us)

  is_repeated-at :
      (recent : Signatures) (us : Updates) (k : ℕ) (u : Update)
      → at us k ≡ some u
      → at recent k ≡ some (digest u.text)
      → is_repeated digest recent (update_signatures digest us) ≡ true
  is_repeated-at recent [] k u h r = absurd (cc)
  is_repeated-at recent ((j, w) ∷ us) k u h r = elim (Bool-cases (nat_eq j k)) [
    | inl e ↦
        let same : j ≡ k = ground arith in
        let there : at recent j ≡ some (digest w.text) = ground arith in
        rw there (ground (arith, eq_iff (digest w.text) (digest w.text)))
    | inr e ↦ ground (arith, is_repeated-at recent us k u)
  ]

  -- The batch is at or above the offset, or its numbers begin anew.
  abbrev pub is_fresh : PollState → PollState → Updates → Bool
  is_fresh state snapshot us =
      not (lowest_below us (user_update_offset state)) || starts_anew digest state snapshot us

  keys-signatures :
      (us : Updates) (m : ℕ) → up_to m (keys us) ≡ up_to m (keys (update_signatures digest us))
  keys-signatures [] m = refl
  keys-signatures ((j, w) ∷ us) m = ground (arith, keys-signatures us m)

  -- The signatures that are kept of a batch on top of older ones.
  kept :
      (recent : Signatures) (us : Updates) (m : ℕ) (u : Update)
      → up_to m (keys recent) ≡ true
      → once us ≡ true
      → at us m ≡ some u
      → up_to m (keys us) ≡ true
      → at (last_hundred (update recent (update_signatures digest us))) m ≡ some (digest u.text)
  kept recent us m u r o h t =
      at-last_hundred _ m _ (at-update recent _ m _ (once-signatures us o) (at-signatures us m u h))
        (up_to-update recent _ m r (sym (keys-signatures us m) ∙ t))

  older : PollState → PollState → Updates → Signatures
  older state snapshot us =
      if starts_anew digest state snapshot us then [] else get_or state.signatures []

  up_to-older :
      (state snapshot : PollState) (us : Updates) (m : ℕ) (u : Update)
      → all (λ k. ltb k (user_update_offset state)) (keys (get_or state.signatures [])) ≡ true
      → at us m ≡ some u
      → is_fresh state snapshot us ≡ true
      → up_to m (keys (older state snapshot us)) ≡ true
  unfolding older
  up_to-older state snapshot [] m u b h f = absurd (cc)
  up_to-older state snapshot ((k, w) ∷ us) m u b h f =
      elim (Bool-cases (starts_anew digest state snapshot ((k, w) ∷ us))) [
        | inl anew ↦ rw anew
        | inr old ↦
            let low : lowest k (keys us) ≤ m =
              has-lowest m k (keys us) (has-keys ((k, w) ∷ us) m u h) in
            let over : user_update_offset state ≤ m = ground arith in
            rw old
              (below-le (user_update_offset state) m (keys (get_or state.signatures [])) b over)
      ]

  recorded-at :
      (state snapshot : PollState) (us : Updates) (stamp : String) (c : Claim) (m : ℕ) (u : Update)
      → all (λ k. ltb k (user_update_offset state)) (keys (get_or state.signatures [])) ≡ true
      → once us ≡ true
      → at us m ≡ some u
      → up_to m (keys us) ≡ true
      → is_fresh state snapshot us ≡ true
      → claim_user_updates digest state snapshot us stamp ≡ some c
      → at (get_or c.state.signatures []) m ≡ some (digest u.text)
  unfolding claim_user_updates recorded older
  recorded-at state snapshot [] stamp c m u b o h t f e = absurd (cc)
  recorded-at state snapshot ((k, w) ∷ us) stamp c m u b o h t f e =
      let signed : get_or c.state.signatures []
          ≡ last_hundred (
              update (older state snapshot ((k, w) ∷ us))
                (update_signatures digest ((k, w) ∷ us))) =
        ground arith in
      rw signed (
        kept (older state snapshot ((k, w) ∷ us)) ((k, w) ∷ us) m u
          (up_to-older state snapshot ((k, w) ∷ us) m u b h f) o h t)

  offset-after :
      (state snapshot : PollState) (us : Updates) (stamp : String) (c : Claim) (m : ℕ) (u : Update)
      → at us m ≡ some u
      → claim_user_updates digest state snapshot us stamp ≡ some c
      → m < user_update_offset c.state
  unfolding claim_user_updates recorded
  offset-after state snapshot [] stamp c m u h e = absurd (cc)
  offset-after state snapshot ((k, w) ∷ us) stamp c m u h e =
      ground (arith, has-highest m k (keys us), has-keys ((k, w) ∷ us) m u h)

  not_anew :
      (state snapshot : PollState) (us : Updates)
      → is_repeated digest (get_or state.signatures []) (update_signatures digest us) ≡ true
      → starts_anew digest state snapshot us ≡ false
  unfolding starts_anew
  not_anew state snapshot us h = ground arith

  claim-old :
      (state snapshot : PollState) (us : Updates) (stamp : String) (c : Claim)
      → starts_anew digest state snapshot us ≡ false
      → claim_user_updates digest state snapshot us stamp ≡ some c
      → (c.dispatch_from ≡ user_update_offset state) × (sequence_of c.state ≡ sequence_of state)
  unfolding claim_user_updates recorded
  claim-old state snapshot [] stamp c h e = ground arith
  claim-old state snapshot ((k, w) ∷ us) stamp c h e = ground arith

-- Every claim keeps the signatures below the offset.
module _ (digest : String → String) where
  abbrev pub signatures_below : PollState → Bool
  signatures_below state =
      all (λ k. ltb k (user_update_offset state)) (keys (get_or state.signatures []))

  up_to-older_part :
      (state snapshot : PollState) (us : Updates) (n : ℕ)
      → signatures_below state ≡ true
      → (starts_anew digest state snapshot us ≡ false → user_update_offset state ≤ suc n)
      → up_to n (keys (older digest state snapshot us)) ≡ true
  unfolding older
  up_to-older_part state snapshot us n b h =
      elim (Bool-cases (starts_anew digest state snapshot us)) [
        | inl anew ↦ rw anew
        | inr old ↦ rw old (up_to-below (user_update_offset state) n _ b (h old))
      ]

  pub claim_user_updates-signatures_below :
      (state snapshot : PollState) (us : Updates) (stamp : String) (c : Claim)
      → signatures_below state ≡ true
      → claim_user_updates digest state snapshot us stamp ≡ some c
      → signatures_below c.state ≡ true
  unfolding claim_user_updates recorded older
  claim_user_updates-signatures_below state snapshot [] stamp c b e = ground arith
  claim_user_updates-signatures_below state snapshot ((k, w) ∷ us) stamp c b e =
      let batch : Updates = (k, w) ∷ us in
      let n = user_update_offset c.state - 1 in
      let signed : get_or c.state.signatures []
          ≡ last_hundred
              (update (older digest state snapshot batch) (update_signatures digest batch)) =
        ground arith in
      let above : highest k (keys us) < user_update_offset c.state = ground arith in
      rw signed (
        below-up_to (user_update_offset c.state) n _
          (up_to-last_hundred _ n (
            up_to-update (older digest state snapshot batch) (update_signatures digest batch) n
              (up_to-older_part state snapshot batch n b (λ old. ground arith))
              (sym (keys-signatures digest batch n) ∙ up_to-all n k (keys us) (omega arith))))
          (omega arith))

-- None of the updates of one batch is handled where another one is dispatched from a number.
dispatched-none :
    (n : ℕ) (us vs : Updates)
    → ((j : ℕ) (u : Update) → at us j ≡ some u → j < n)
    → filter (λ p. is_some (at us p.0)) (dispatched n vs) ≡ []
unfolding dispatched
dispatched-none n us [] h = refl
dispatched-none n us ((k, v) ∷ vs) h = elim (Option-cases (at us k)) [
  | inl e ↦ ground (arith, dispatched-none n us vs h)
  | inr (u, e) ↦ let low : k < n = h k u e in ground (arith, low, dispatched-none n us vs h)
]

module _ (digest : String → String) (state snapshot : PollState) (stamp : String) (us : Updates)
    (m : ℕ) (u : Update)
    (below : all (λ k. ltb k (user_update_offset state)) (keys (get_or state.signatures [])) ≡ true)
    (numbered : once us ≡ true) (last : at us m ≡ some u) (highest_one : up_to m (keys us) ≡ true)
    (fresh : is_fresh digest state snapshot us ≡ true) {c : Claim}
    (claimed : claim_user_updates digest state snapshot us stamp ≡ some c) (later : PollState)
    (again : Updates) (resent : at again m ≡ some u) (later_stamp : String) {d : Claim}
    (claimed_again : claim_user_updates digest c.state later again later_stamp ≡ some d) where
  -- A batch of different numbers that is at or above the offset, or whose numbers begin anew, is
  -- claimed from a state that has no signature at or above its offset. If the answer of the very
  -- next claim, by whichever reader and with whichever snapshot, has the last update of the batch
  -- once more, then that claim begins no new sequence of numbers, and none of the updates in its
  -- answer that the batch had is handled.
  pub claim_user_updates-not_again :
      (sequence_of d.state ≡ sequence_of c.state)
      × (filter (λ p. is_some (at us p.0)) (dispatched d.dispatch_from again) ≡ [])
  claim_user_updates-not_again =
      let known =
        recorded-at digest state snapshot us stamp c m u below numbered last highest_one fresh
          claimed in
      let old =
        not_anew digest c.state later again (is_repeated-at digest _ again m u resent known) in
      let parts = claim-old digest c.state later again later_stamp d old claimed_again in
      (
        parts.1,
        rw parts.0 (
            dispatched-none _ us again
              (λ j w h. offset-after digest state snapshot us stamp c j w h claimed)),
      )
