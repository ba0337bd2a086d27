-- ===== src/Telegram/Tests.antt =====
-- The claims of updates at concrete batches.
use xray_vps_manager.Base.{
  ◌≡◌, refl, String, true, false, none, some, List, [], ◌∷◌, filter, is_some,
}
use xray_vps_manager.Telegram.Updates.{
  Update, Updates, at, PollState, Claim, sequence_of, claim_user_updates, dispatched, updates_by_id,
  starts_anew, recorded, refreshed, last_hundred,
}
use xray_vps_manager.Telegram.Updates.Once.{Poll, handled, all_different, handled-all_different}
use xray_vps_manager.Telegram.Updates.Fresh.{claim_user_updates-handles_new}
use xray_vps_manager.Telegram.Updates.Repeat.{claim_user_updates-not_again}

-- The digest of a text is the text.
abbrev digest : String → String
digest text = text

abbrev hello : Update
hello = record { update_id = some 5; text = "hello" }

abbrev menu : Update
menu = record { update_id = some 6; text = "menu" }

abbrev start : PollState
start = record {
  update_offset = some 5;
  offset_confirmed = some false;
  update_sequence = some 0;
  signatures = some ((4, "old") ∷ []);
  last_poll = some "2026-01-01T00:00:00Z";
}

abbrev answer : List Update
answer = hello ∷ record { update_id = none; text = "broken" } ∷ menu ∷ hello ∷ []

abbrev batch : Updates
batch = (5, hello) ∷ (6, menu) ∷ []

abbrev stamp : String
stamp = "2026-01-01T00:01:00Z"

read_batch : updates_by_id [] answer ≡ batch
unfolding updates_by_id
read_batch = refl

abbrev poll : Poll
poll = record { snapshot = start; answer = answer; stamp = stamp }

-- Two readers with the same snapshot get the same answer.
handled-all_different_example : all_different (handled digest start (poll ∷ poll ∷ [])) ≡ true
handled-all_different_example = handled-all_different digest start (poll ∷ poll ∷ [])

-- Low numbers that are not known: a new sequence.
abbrev low : Updates
low = (2, record { update_id = some 2; text = "new" }) ∷ []

claim_user_updates-handles_new_example :
    (c : Claim) × (claim_user_updates digest start start low stamp ≡ some c)
    × (dispatched c.dispatch_from low ≡ low)
claim_user_updates-handles_new_example =
    claim_user_updates-handles_new digest start start low stamp {confirmed = false} refl refl refl
      refl

abbrev after : PollState
after = record {
  update_offset = some 7;
  offset_confirmed = some false;
  update_sequence = some 0;
  signatures = some ((4, "old") ∷ (5, "hello") ∷ (6, "menu") ∷ []);
  last_poll = some stamp;
}

abbrev first : Claim
first = record {
  dispatch_from = 5;
  state = after;
  snapshot = record after { signatures = start.signatures };
}

first_claim : claim_user_updates digest start start batch stamp ≡ some first
unfolding claim_user_updates starts_anew recorded refreshed last_hundred
first_claim = refl

abbrev second : Claim
second = record { dispatch_from = 7; state = after; snapshot = after }

second_claim : claim_user_updates digest after after batch stamp ≡ some second
unfolding claim_user_updates starts_anew recorded refreshed last_hundred
second_claim = refl

claim_user_updates-not_again_example :
    (sequence_of second.state ≡ sequence_of first.state)
    × (filter (λ p. is_some (at batch p.0)) (dispatched second.dispatch_from batch) ≡ [])
claim_user_updates-not_again_example =
    claim_user_updates-not_again digest start start stamp batch 6 menu refl refl refl refl refl
      {c = first} first_claim after batch refl stamp {d = second} second_claim
