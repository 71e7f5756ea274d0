-- ===== src/Server/Quorum/Count.antt =====
-- A request in flight is told once, by the answer that completes its quorum.
use sdle_shopping_list.Common.{
  ℕ, ◌+◌, leb, ltb, length, Bool, false, List, [], ◌∷◌, ◌≡◌, if◌then◌else◌, arith,
}
use sdle_shopping_list.Crdt.AworMap.{ShoppingList}
use sdle_shopping_list.Server.Quorum.{
  QuoromState, is_quorom_reached, take_responder, add_list, increment_received, on_ack, on_ack_list,
}

-- An answer to the request: `Ack`, or `AckList` with its list.
pub data Answer : Type 0 where
  ack : Answer
  ack_list : ShoppingList → Answer

unfoldable pub answer : QuoromState → Answer → QuoromState × Bool
unfolding on_ack on_ack_list
answer q ack = on_ack q
answer q (ack_list list) = on_ack_list q list

unfoldable pub after : QuoromState → List Answer → QuoromState
after q [] = q
after q (a ∷ as_) = after (answer q a).0 as_

-- How often the waiting request is told.
unfoldable pub told : QuoromState → List Answer → ℕ
unfolding answer
told q [] = 0
told q (a ∷ as_) = (if (answer q a).1 then 1 else 0) + told (answer q a).0 as_

-- The responder is there exactly while answers are missing.
abbrev pub IsWaiting : QuoromState → Type 0
IsWaiting q = q.responder ≡ ltb q.received q.needed

pub answer-IsWaiting : (q : QuoromState) (a : Answer) → IsWaiting q → IsWaiting (answer q a).0
unfolding answer take_responder is_quorom_reached increment_received add_list
answer-IsWaiting q ack h = ground arith
answer-IsWaiting q (ack_list list) h = ground arith

answer_counts :
    (q : QuoromState) (a : Answer)
    → IsWaiting q
    → ((answer q a).0.received ≡ q.received + 1)
      × ((answer q a).0.needed ≡ q.needed)
      × ((answer q a).1
          ≡ (if ltb q.received q.needed then leb q.needed (q.received + 1) else false))
unfolding answer take_responder is_quorom_reached increment_received add_list
answer_counts q ack h = ground arith
answer_counts q (ack_list list) h = ground arith

-- However many answers come, in whatever mixture, a request whose responder is there exactly while
-- answers are missing is told exactly once if they complete the quorum, and never otherwise.
pub told_lem :
    (q : QuoromState) (answers : List Answer)
    → IsWaiting q
    → told q answers ≡ (
        if ltb q.received q.needed
        then (if leb q.needed (q.received + length answers) then 1 else 0)
        else 0)
unfolding told
told_lem q [] h = ground arith
told_lem q (a ∷ as_) h =
    ground (arith, answer_counts q a h, told_lem (answer q a).0 as_ (answer-IsWaiting q a h))
