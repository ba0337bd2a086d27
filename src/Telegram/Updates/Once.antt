-- ===== src/Telegram/Updates/Once.antt =====
-- No update is handled twice, whichever readers claim in whichever order.
use xray_vps_manager.Telegram.Updates.{
  recorded, starts_anew, Claim, user_update_offset, Update, Updates, keys, at, store, updates_by_id,
  PollState, sequence_of, highest, claim_user_updates, dispatched,
}
use xray_vps_manager.Base.{
  ℕ, ◌≤◌, ◌<◌, ◌≡◌, refl, arith, String, Bool, true, false, not, ◌&&◌, ◌||◌, none, some, List, [],
  ◌∷◌, ◌++◌, if◌then◌else◌, nat_eq, leb, ltb, is_some, any, all, Option-cases, inl, inr,
}

-- One answer of the Bot API, with the snapshot of the state that its reader had read before.
pub record Poll : Type 0 where
  pub snapshot : PollState
  pub answer : List Update
  pub stamp : String

-- An update that is handled: the sequence of numbers that it belongs to, and its number.
abbrev pub Handled : Type 0
Handled = ℕ × ℕ

abbrev same_update : Handled → Handled → Bool
same_update (s, i) (t, j) = nat_eq s t && nat_eq i j

abbrev pub all_different : List Handled → Bool
all_different [] = true
all_different (p ∷ ps) = not (any (same_update p) ps) && all_different ps

abbrev tagged : ℕ → Updates → List Handled
tagged s [] = []
tagged s ((k, u) ∷ us) = (s, k) ∷ tagged s us

abbrev pub batch : Poll → Updates
batch poll = updates_by_id [] poll.answer

-- What the polls handle, one claim after the other.
pub handled : (String → String) → PollState → List Poll → List Handled
handled digest state [] = []
handled digest state (poll ∷ polls) =
    elim (claim_user_updates digest state poll.snapshot (batch poll) poll.stamp) [
      | none ↦ handled digest state polls
      | some c ↦
          tagged (sequence_of c.state) (dispatched c.dispatch_from (batch poll))
          ++ handled digest c.state polls
    ]

abbrev distinct : Updates → Bool
distinct [] = true
distinct ((k, u) ∷ us) = not (is_some (at us k)) && distinct us

at-store_new :
    (d : Updates) (k j : ℕ) (u : Update)
    → is_some (at (store d k u) j) ≡ (nat_eq k j || is_some (at d j))
at-store_new [] k j u = ground arith
at-store_new ((i, w) ∷ d) k j u = ground (arith, at-store_new d k j u)

distinct-store :
    (d : Updates) (k : ℕ) (u : Update) → distinct d ≡ true → distinct (store d k u) ≡ true
distinct-store [] k u h = refl
distinct-store ((i, w) ∷ d) k u h = ground (arith, distinct-store d k u, at-store_new d k i u)

distinct-updates_by_id :
    (seen : Updates) (us : List Update)
    → distinct seen ≡ true
    → distinct (updates_by_id seen us) ≡ true
unfolding updates_by_id
distinct-updates_by_id seen [] h = h
distinct-updates_by_id seen (u ∷ us) h = elim (Option-cases u.update_id) [
  | inl e ↦ rw e (distinct-updates_by_id seen us h)
  | inr (k, e) ↦ rw e (
      distinct-updates_by_id (if is_some (at seen k) then seen else store seen k u) us
        (ground (arith, distinct-store seen k u)))
]

-- A handled update that is recorded in a state, and one that is still open.
abbrev is_past : ℕ → ℕ → Handled → Bool
is_past sequence offset (s, i) = nat_eq s sequence && ltb i offset

abbrev is_open : ℕ → ℕ → Handled → Bool
is_open sequence offset (s, i) = ltb sequence s || (nat_eq s sequence && leb offset i)

past_open :
    (sequence offset : ℕ) (p : Handled) (ps : List Handled)
    → is_past sequence offset p ≡ true
    → all (is_open sequence offset) ps ≡ true
    → any (same_update p) ps ≡ false
past_open sequence offset p [] h k = refl
past_open sequence offset (s, i) ((t, j) ∷ ps) h k =
    ground (arith, past_open sequence offset (s, i) ps)

open_earlier :
    (s o t b : ℕ) (ps : List Handled)
    → s ≤ t
    → (t ≡ s → o ≤ b)
    → all (is_open t b) ps ≡ true
    → all (is_open s o) ps ≡ true
open_earlier s o t b [] h k a = refl
open_earlier s o t b ((x, i) ∷ ps) h k a = grind (arith, open_earlier s o t b ps h k)

first-le-highest : (k : ℕ) (js : List ℕ) → k ≤ highest k js
first-le-highest k [] = omega arith
first-le-highest k (j ∷ js) = omega arith

le-highest :
    (k : ℕ) (u : Update) (us : Updates) (o s from : ℕ)
    → highest k (keys us) < o
    → all (is_past s o) (tagged s (dispatched from ((k, u) ∷ us))) ≡ true
unfolding dispatched
le-highest k u [] o s from h = ground arith
le-highest k u ((j, w) ∷ us) o s from h =
    let below : k < o = omega (arith, first-le-highest k (j ∷ keys us)) in
    let rest : highest j (keys us) < o = omega arith in
    ground (arith, below, le-highest j w us o s from rest)

any-tagged :
    (s k from : ℕ) (us : Updates)
    → is_some (at us k) ≡ false
    → any (same_update (s, k)) (tagged s (dispatched from us)) ≡ false
unfolding dispatched
any-tagged s k from [] h = refl
any-tagged s k from ((j, u) ∷ us) h = ground (arith, any-tagged s k from us)

any-append_none :
    (p : Handled) (xs ys : List Handled)
    → any (same_update p) xs ≡ false
    → any (same_update p) ys ≡ false
    → any (same_update p) (xs ++ ys) ≡ false
any-append_none p [] ys h k = k
any-append_none p (x ∷ xs) ys h k = ground (arith, any-append_none p xs ys)

all_different-append :
    (s o from : ℕ) (us : Updates) (ys : List Handled)
    → distinct us ≡ true
    → all (is_past s o) (tagged s (dispatched from us)) ≡ true
    → all (is_open s o) ys ≡ true
    → all_different ys ≡ true
    → all_different (tagged s (dispatched from us) ++ ys) ≡ true
unfolding dispatched
all_different-append s o from [] ys h p q r = r
all_different-append s o from ((k, u) ∷ us) ys h p q r = ground (
  arith,
  all_different-append s o from us ys,
  any-append_none (s, k) (tagged s (dispatched from us)) ys,
  any-tagged s k from us,
  past_open s o (s, k) ys,
)

all_open-tagged :
    (s t o from : ℕ) (us : Updates)
    → (s ≤ t)
    → (t ≡ s → o ≤ from)
    → all (is_open s o) (tagged t (dispatched from us)) ≡ true
unfolding dispatched
all_open-tagged s t o from [] h k = refl
all_open-tagged s t o from ((j, u) ∷ us) h k = grind (arith, all_open-tagged s t o from us h k)

past_none : (s o from : ℕ) → all (is_past s o) (tagged s (dispatched from [])) ≡ true
unfolding dispatched
past_none s o from = refl

all-append_true :
    (p : Handled → Bool) (xs ys : List Handled)
    → all p xs ≡ true
    → all p ys ≡ true
    → all p (xs ++ ys) ≡ true
all-append_true p [] ys h k = k
all-append_true p (x ∷ xs) ys h k = ground (arith, all-append_true p xs ys)

module _ (digest : String → String) where
  not_anew : (state snapshot : PollState) → starts_anew digest state snapshot [] ≡ false
  unfolding starts_anew
  not_anew state snapshot = refl

  -- What a claim does to the sequence and the offset.
  claim_parts :
      (state snapshot : PollState) (updates : Updates) (stamp : String) (c : Claim)
      → claim_user_updates digest state snapshot updates stamp ≡ some c
      → (sequence_of state ≤ sequence_of c.state)
        × (sequence_of c.state ≡ sequence_of state → user_update_offset state ≤ c.dispatch_from)
        × (sequence_of c.state ≡ sequence_of state
            → user_update_offset state ≤ user_update_offset c.state)
        × (all
              (is_past (sequence_of c.state) (user_update_offset c.state))
              (tagged (sequence_of c.state) (dispatched c.dispatch_from updates))
            ≡ true)
  unfolding claim_user_updates recorded
  claim_parts state snapshot [] stamp c h = (
    ground (arith, not_anew state snapshot),
    ground (arith, not_anew state snapshot),
    ground (arith, not_anew state snapshot),
    past_none _ _ _,
  )
  claim_parts state snapshot ((k, u) ∷ us) stamp c h = (
    ground arith,
    ground arith,
    ground arith,
    ground (
      arith,
      le-highest k u us (user_update_offset c.state) (sequence_of c.state) c.dispatch_from,
    ),
  )

  handled-none :
      (state : PollState) (poll : Poll) (polls : List Poll)
      → claim_user_updates digest state poll.snapshot (batch poll) poll.stamp ≡ none
      → handled digest state (poll ∷ polls) ≡ handled digest state polls
  unfolding handled
  handled-none state poll polls e = rw (handled, e)

  handled-some :
      (state : PollState) (poll : Poll) (polls : List Poll) (c : Claim)
      → claim_user_updates digest state poll.snapshot (batch poll) poll.stamp ≡ some c
      → handled digest state (poll ∷ polls)
        ≡ tagged (sequence_of c.state) (dispatched c.dispatch_from (batch poll))
          ++ handled digest c.state polls
  unfolding handled
  handled-some state poll polls c e = rw (handled, e)

  all_open-handled :
      (state : PollState) (polls : List Poll)
      → all (is_open (sequence_of state) (user_update_offset state)) (handled digest state polls)
        ≡ true
  unfolding handled
  all_open-handled state [] = refl
  all_open-handled state (poll ∷ polls) =
      elim (Option-cases (claim_user_updates digest state poll.snapshot (batch poll) poll.stamp)) [
        | inl e ↦ rw (handled-none state poll polls e) (all_open-handled state polls)
        | inr (c, e) ↦
            let parts = claim_parts state poll.snapshot (batch poll) poll.stamp c e in
            rw (handled-some state poll polls c e) (
              all-append_true _
                (tagged (sequence_of c.state) (dispatched c.dispatch_from (batch poll))) _
                (all_open-tagged _ _ _ c.dispatch_from (batch poll) parts.0 parts.1)
                (open_earlier _ _ _ _ _ parts.0 parts.2 (all_open-handled c.state polls)))
      ]

  -- Readers claim one after the other, each with a snapshot that may be out of date and any answer
  -- of the Bot API, in any number and order. No update of one sequence is handled twice.
  pub handled-all_different :
      (state : PollState) (polls : List Poll) → all_different (handled digest state polls) ≡ true
  unfolding handled
  handled-all_different state [] = refl
  handled-all_different state (poll ∷ polls) =
      elim (Option-cases (claim_user_updates digest state poll.snapshot (batch poll) poll.stamp)) [
        | inl e ↦ rw (handled-none state poll polls e) (handled-all_different state polls)
        | inr (c, e) ↦ rw (handled-some state poll polls c e) (
            all_different-append _ (user_update_offset c.state) _ (batch poll) _
              (distinct-updates_by_id [] poll.answer refl)
              (claim_parts state poll.snapshot (batch poll) poll.stamp c e).3
              (all_open-handled c.state polls) (handled-all_different c.state polls))
      ]
