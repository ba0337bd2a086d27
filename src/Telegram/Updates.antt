-- ===== src/Telegram/Updates.antt =====
-- xray_vps_manager/telegram/settings.py and poller.py: the claim of a batch of updates by the state
-- in the database, and what the reader of updates does with the batch.
pub mod Once
pub mod Fresh
pub mod Kept
pub mod Repeat
use Prim.Native.Nat.{max, Ordering}
use Prim.Native.String.{compare}
use xray_vps_manager.Base.{
  ℕ, ◌+◌, ◌-◌, String, Bool, true, false, not, ◌&&◌, ◌||◌, Option, none, some, List, [], ◌∷◌, map,
  if◌then◌else◌, nat_eq, leb, ltb, get_or, is_some, filter, any, length, drop, ◌==◌,
}

-- An update as the Bot API sends it: its number, if it is one, and the JSON text of all of it.
pub record Update : Type 0 where
  pub update_id : Option ℕ
  pub text : String

-- A `dict` by the number of the update.
abbrev pub Updates : Type 0
Updates = List (ℕ × Update)

abbrev pub Signatures : Type 0
Signatures = List (ℕ × String)

module _ {ℓ} {V : Type ℓ} where
  abbrev pub keys : List (ℕ × V) → List ℕ
  keys d = map (λ p. p.0) d

  abbrev pub at : List (ℕ × V) → ℕ → Option V
  at [] k = none
  at ((j, v) ∷ d) k = if nat_eq j k then some v else at d k

  -- `d[k] = v`
  abbrev pub store : List (ℕ × V) → ℕ → V → List (ℕ × V)
  store [] k v = (k, v) ∷ []
  store ((j, w) ∷ d) k v =
      let rest = store d k v in if nat_eq j k then (j, v) ∷ d else (j, w) ∷ rest

  -- `d.update(e)`
  abbrev pub update : List (ℕ × V) → List (ℕ × V) → List (ℕ × V)
  update d [] = d
  update d ((k, v) ∷ e) = update (store d k v) e

-- `result.setdefault(update_id, update)` for each update that has a number; `seen` is the result.
unfoldable pub updates_by_id : Updates → List Update → Updates
updates_by_id seen [] = seen
updates_by_id seen (u ∷ us) =
    updates_by_id
      (elim u.update_id [
        | none ↦ seen
        | some k ↦ if is_some (at seen k) then seen else store seen k u
      ])
      us

-- `clientSubscriptionState`, as far as it is about the updates; `none` is a missing key.
pub record PollState : Type 0 where
  pub update_offset : Option ℕ
  pub offset_confirmed : Option Bool
  pub update_sequence : Option ℕ
  pub signatures : Option Signatures
  pub last_poll : Option String

abbrev pub user_update_offset : PollState → ℕ
user_update_offset state = get_or state.update_offset 0

abbrev pub sequence_of : PollState → ℕ
sequence_of state = get_or state.update_sequence 0

-- `min(updates)` and `max(updates)` of a batch that is not empty.
abbrev pub lowest : ℕ → List ℕ → ℕ
lowest k [] = k
lowest k (j ∷ js) = let rest = lowest j js in if ltb rest k then rest else k

abbrev pub highest : ℕ → List ℕ → ℕ
highest k [] = k
highest k (j ∷ js) = max k (highest j js)

abbrev pub lowest_below : Updates → ℕ → Bool
lowest_below [] n = false
lowest_below ((k, u) ∷ us) n = ltb (lowest k (keys us)) n

unfoldable pub insert_number : ℕ → List ℕ → List ℕ
insert_number k [] = k ∷ []
insert_number k (j ∷ js) = let rest = insert_number k js in if leb k j then k ∷ j ∷ js else j ∷ rest

-- `sorted(numbers)`
unfoldable pub sorted : List ℕ → List ℕ
unfolding insert_number
sorted [] = []
sorted (k ∷ ks) = insert_number k (sorted ks)

-- `{uid: recent[uid] for uid in sorted(recent, key=int)[-100:]}`
abbrev pub chosen : Signatures → List ℕ → Signatures
chosen recent [] = []
chosen recent (k ∷ ks) = elim (at recent k) [
  | none ↦ chosen recent ks
  | some digest ↦ (k, digest) ∷ chosen recent ks
]

unfoldable pub last_hundred : Signatures → Signatures
unfolding sorted
last_hundred recent = chosen recent (drop (length recent - 100) (sorted (keys recent)))

abbrev same_text : Option String → Option String → Bool
same_text none none = true
same_text (some a) (some b) = a == b
same_text _ _ = false

abbrev later_text : String → String → String
later_text a b = elim (compare a b) [ Ordering.lt ↦ b | _ ↦ a ]

-- `lastUserPoll` after a claim.
abbrev pub polled : PollState → PollState → Bool → String → String
polled state snapshot same_offset stamp =
    if same_offset && same_text state.last_poll snapshot.last_poll
    then stamp
    else later_text (get_or state.last_poll "") stamp

abbrev pub or_else {ℓ} : {A : Type ℓ} → Option A → Option A → Option A
or_else none b = b
or_else (some a) b = some a

-- `snapshot.update({key: state[key] for key in POLL_CURSOR_KEYS if key in state})`
unfoldable pub refreshed : PollState → PollState → PollState
refreshed snapshot state = record snapshot {
  update_offset = or_else state.update_offset snapshot.update_offset;
  offset_confirmed = or_else state.offset_confirmed snapshot.offset_confirmed;
  update_sequence = or_else state.update_sequence snapshot.update_sequence;
  last_poll = or_else state.last_poll snapshot.last_poll;
}

-- What a claim gives: the first number that is dispatched, the state and the snapshot after it.
pub record Claim : Type 0 where
  pub dispatch_from : ℕ
  pub state : PollState
  pub snapshot : PollState

-- The loop of `_poll_user_subscriptions`: the updates that are handled.
unfoldable pub dispatched : ℕ → Updates → Updates
dispatched previous updates = filter (λ p. not (ltb p.0 previous)) updates

-- `digest` is the SHA-256 of an update's JSON text.
module _ (digest : String → String) where
  abbrev pub update_signatures : Updates → Signatures
  update_signatures updates = map (λ p. (p.0, digest (p.1).text)) updates

  abbrev pub is_repeated : Signatures → Signatures → Bool
  is_repeated recent signatures =
      any (λ p. elim (at recent p.0) [ none ↦ false | some d ↦ d == p.1 ]) signatures

  -- The numbers of the batch begin anew.
  unfoldable pub starts_anew : PollState → PollState → Updates → Bool
  starts_anew state snapshot updates =
      lowest_below updates (user_update_offset state)
      && (nat_eq (user_update_offset state) (user_update_offset snapshot)
          && not (is_repeated (get_or state.signatures []) (update_signatures updates)))

  -- The state with the batch recorded, without `lastUserPoll`.
  unfoldable pub recorded : PollState → Bool → Bool → Updates → PollState
  recorded state same_offset anew [] =
      if same_offset
      then record state {
        update_sequence = some (sequence_of state);
        offset_confirmed = some true;
        signatures = none;
      }
      else record state { update_sequence = some (sequence_of state) }
  recorded state same_offset anew ((k, u) ∷ us) =
      let previous = if anew then 0 else user_update_offset state in
      let recent = if anew then [] else get_or state.signatures [] in
      record state {
        update_sequence = some (sequence_of state + (if anew then 1 else 0));
        signatures = some (last_hundred (update recent (update_signatures ((k, u) ∷ us))));
        update_offset = some (max previous (highest k (keys us) + 1));
        offset_confirmed = some false;
      }

  -- `none`: another reader has taken a new sequence meanwhile.
  unfoldable pub claim_user_updates : PollState → PollState → Updates → String → Option Claim
  claim_user_updates state snapshot updates stamp =
      let same_offset = nat_eq (user_update_offset state) (user_update_offset snapshot) in
      let anew = starts_anew state snapshot updates in
      let after = record (recorded state same_offset anew updates) {
        last_poll = some (polled state snapshot same_offset stamp);
      } in
      if not (nat_eq (sequence_of state) (sequence_of snapshot))
      then none
      else some (record {
        dispatch_from =
            if anew && is_some state.offset_confirmed then 0 else user_update_offset state;
        state = after;
        snapshot = refreshed snapshot after;
      })
