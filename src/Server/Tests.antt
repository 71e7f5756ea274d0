-- ===== src/Server/Tests.antt =====
-- Runs of the failure table and of a quorum, and the theorems at them.
use mathlib.Core.List.Perm
use sdle_shopping_list.Common.{ℕ, Uuid, true, List, [], ◌∷◌, ◌≡◌, refl}
use sdle_shopping_list.Common.Result.{ok}
use sdle_shopping_list.Crdt.AworMap.{ShoppingList}
use sdle_shopping_list.Crdt.AworMap.Convergence.{map_view}
use sdle_shopping_list.Crdt.Tests.{milk, history, milk-IsValid, milk-FollowsHistory}
use sdle_shopping_list.Server.Failure.{new, is_available}
use sdle_shopping_list.Server.Failure.Available.{mark, run, always_available}
use sdle_shopping_list.Server.Quorum.{QuoromState, merge_lists}
use sdle_shopping_list.Server.Quorum.Count.{Answer, ack, ack_list, told, told_lem}
use sdle_shopping_list.Server.Quorum.Lists.{IsReplica, merge_lists_order}

always_available_example : is_available (run (mark 10 4 ∷ mark 20 4 ∷ []) new) 4 ≡ true
always_available_example = always_available (mark 10 4 ∷ mark 20 4 ∷ []) 4

abbrev list : Uuid → ℕ → ℕ → ShoppingList
list actor n flag = record { id = 7; list = milk actor n flag }

abbrev waiting : List ShoppingList → QuoromState
waiting answers = record {
  needed = 2;
  received = 0;
  responder = true;
  lists = list 1 2 0 ∷ answers;
}

abbrev answers : List Answer
answers = ack_list (list 2 5 1) ∷ ack ∷ ack ∷ []

told_example : told (waiting []) answers ≡ 1
told_example = told_lem (waiting []) answers refl

replica : (actor : Uuid) (n flag : ℕ) → IsReplica history (list actor n flag)
replica actor n flag = (milk-IsValid actor n flag, milk-FollowsHistory actor n flag)

merge_lists_order_example :
    (merged merged' : ShoppingList) × (merge_lists (waiting (list 2 5 1 ∷ list 3 1 0 ∷ []))
      ≡ ok merged)
    × (merge_lists (waiting (list 3 1 0 ∷ list 2 5 1 ∷ [])) ≡ ok merged')
    × (map_view merged.list ≡ map_view merged'.list)
merge_lists_order_example =
    merge_lists_order history (waiting (list 2 5 1 ∷ list 3 1 0 ∷ []))
      (waiting (list 3 1 0 ∷ list 2 5 1 ∷ [])) (list 1 2 0) (list 2 5 1 ∷ list 3 1 0 ∷ [])
      (list 3 1 0 ∷ list 2 5 1 ∷ []) refl refl (Perm.swap (list 3 1 0) (list 2 5 1) [])
      (replica 2 5 1, (replica 3 1 0, tt))
