-- ===== src/Server/Quorum.antt =====
-- `QuoromState` of src/server.rs: the answers to a request that is in flight. The responder is there
-- until the quorum is reached, and is taken then.
pub mod Count
pub mod Lists
use sdle_shopping_list.Common.{
  ℕ, ◌+◌, leb, Bool, true, false, List, [], ◌∷◌, ◌++◌, if◌then◌else◌, ◌&&◌,
}
use sdle_shopping_list.Common.Result.{Result, ok, err}
use sdle_shopping_list.Crdt.AworMap
use sdle_shopping_list.Crdt.AworMap.{ShoppingList, AworMap}

pub record QuoromState : Type 0 where
  pub needed : ℕ
  pub received : ℕ
  -- whether `responder` is `Some`
  pub responder : Bool
  pub lists : List ShoppingList

unfoldable pub is_quorom_reached : QuoromState → Bool
is_quorom_reached q = leb q.needed q.received

-- The loop of `merge_lists` over the lists behind the first.
unfoldable pub merge_rest : AworMap → List ShoppingList → AworMap
merge_rest merged [] = merged
merge_rest merged (list ∷ rest) = merge_rest (AworMap.merge merged list.list) rest

unfoldable pub merge_lists : QuoromState → Result ShoppingList
unfolding merge_rest
merge_lists q = elim q.lists [
  | [] ↦ err
  | first ∷ rest ↦ ok (record first { list = merge_rest first.list rest })
]

unfoldable pub add_list : QuoromState → ShoppingList → QuoromState
add_list q list = record q { received = q.received + 1; lists = q.lists ++ list ∷ [] }

unfoldable pub increment_received : QuoromState → QuoromState
increment_received q = record q { received = q.received + 1 }

-- `if q.is_quorom_reached() { if let Some(tx) = q.responder.take() { tx.send(()) } }`: the state
-- after it, and whether the waiting request is told.
unfoldable pub take_responder : QuoromState → QuoromState × Bool
unfolding is_quorom_reached
take_responder q =
    if is_quorom_reached q then (record q { responder = false }, q.responder) else (q, false)

-- The arms `Ack` and `AckList` of `handle_incoming`, on the request that they answer.
unfoldable pub on_ack : QuoromState → QuoromState × Bool
on_ack q = take_responder (increment_received q)

unfoldable pub on_ack_list : QuoromState → ShoppingList → QuoromState × Bool
on_ack_list q list = take_responder (add_list q list)
