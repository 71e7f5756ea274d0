-- ===== src/Server/Peer/Requests.antt =====
-- The coordinator's side of a request in src/server.rs: `send_replicate`, `send_read_replicate`,
-- `handle_incoming_put` and `handle_incoming_proxy`. Each waits for its quorum, and other messages
-- are handled meanwhile: it is a function that starts it and one that ends it, in any state between.
use sdle_shopping_list.Common.{
  ℕ, Uuid, String, nat_eq, string_eq, Bool, true, false, Option, none, some, List, [], ◌∷◌,
  if◌then◌else◌,
}
use sdle_shopping_list.Common.Result.{Result, ok, err}
use sdle_shopping_list.HashMap.{get, insert, remove}
use sdle_shopping_list.HashRing.{write_nodes, read_nodes}
use sdle_shopping_list.External.{Platform}
use sdle_shopping_list.Crdt.AworMap
use sdle_shopping_list.Crdt.AworMap.{ShoppingList}
use sdle_shopping_list.Storage.Server.{get_shopping_list}
use sdle_shopping_list.Server.Quorum.{QuoromState, merge_lists}
use sdle_shopping_list.Server.Message.{
  Msg, nack, ack_list, get_list, put_list, replicate_list, handoff,
}
use sdle_shopping_list.Server.Peer.{
  Network, Peer, send_to, send_to_any, send_to_proxy, get_replicas, next_available,
}
use sdle_shopping_list.Server.Peer.Handlers.{Handled, done, failed, blocked, store}

-- `.last()`
unfoldable pub last : List Uuid → Option Uuid
last [] = none
last (u ∷ us) = elim (last us) [ none ↦ some u | some v ↦ some v ]

unfoldable pub quorom : ℕ → ShoppingList → QuoromState
quorom needed list = record { needed = needed; received = 0; responder = true; lists = list ∷ [] }

-- How the loop of `send_replicate` ends: with all messages tried, or not at all, since a search for
-- another node runs out of fuel. What it did before stays done.
pub data Writes (T : Type 0) : Type 0 where
  written : Peer T → Writes T
  searching : Peer T → Writes T

abbrev pub is_searching : {T : Type 0} → Writes T → Bool
is_searching (written p) = false
is_searching (searching p) = true

module _ {T : Type 0} (net : Network) where
  -- The loop of `send_replicate`, `fuel` the fuel of each search for another node.
  unfoldable pub send_writes :
      ℕ → Msg → String → ShoppingList → Uuid → List Uuid → Peer T → Writes T
  send_writes fuel msg request_id list last [] p = written p
  send_writes fuel msg request_id list last (replica ∷ replicas) p =
      let (after, sent) = send_to net p replica msg in
      if sent
      then send_writes fuel msg request_id list last replicas after
      else elim (next_available fuel after last last) [
        | none ↦ searching after
        | some err ↦ written after
        | some (ok next) ↦
            send_writes fuel msg request_id list last replicas
              (send_to_any net after next (handoff request_id list replica))
      ]

  unfoldable pub in_flight_with : Peer T → String → QuoromState → Peer T
  in_flight_with p request_id q = record p { in_flight = insert p.in_flight request_id q }

  -- `send_replicate` with `write`, up to the wait. `.expect("no replicas found")` panics on no
  -- replicas, which no caller gives: it does not come to its wait then.
  unfoldable pub send_write_replicate : ℕ → Peer T → String → ShoppingList → List Uuid → Writes T
  send_write_replicate fuel p request_id list replicas =
      let started = in_flight_with p request_id (quorom write_nodes list) in
      elim (last replicas) [
        | none ↦ searching started
        | some l ↦
            send_writes fuel (replicate_list request_id list true) request_id list l replicas
              started
      ]

  unfoldable pub send_all : Msg → List Uuid → Peer T → Peer T
  send_all msg [] p = p
  send_all msg (replica ∷ replicas) p = send_all msg replicas (send_to_any net p replica msg)

  unfoldable pub send_read_replicate : Peer T → String → ShoppingList → List Uuid → Peer T
  send_read_replicate p request_id list replicas =
      send_all (replicate_list request_id list false) replicas
        (in_flight_with p request_id (quorom read_nodes list))

  -- The end of the wait: the request is no longer in flight. `told` says whether the responder was
  -- told before the time was up.
  unfoldable pub end_write : Peer T → String → Bool → Peer T × Bool
  end_write p request_id told = (record p { in_flight = remove p.in_flight request_id }, told)

  unfoldable pub end_read : Peer T → String → Bool → Peer T × Result ShoppingList
  end_read p request_id told =
      let ended = record p { in_flight = remove p.in_flight request_id } in
      elim told [
        | false ↦ (ended, err)
        | true ↦ elim (get p.in_flight request_id) [
          | none ↦ (ended, err)
          | some q ↦ (ended, merge_lists q)
        ]
      ]

-- How the start of a request ends: at once, since there are no replicas or the table cannot be
-- read; with a wait; not at all, since a search goes on; or at once, since no client sends such a
-- message.
pub data Started (T : Type 0) : Type 0 where
  refused : Peer T → Started T
  waiting_write : Peer T → ShoppingList → Started T
  waiting_read : Peer T → ShoppingList → Started T
  stuck : Peer T → Started T
  unsupported : Peer T → Started T

abbrev pub is_stuck : {T : Type 0} → Started T → Bool
is_stuck (stuck p) = true
is_stuck _ = false

module _ (x : Platform) (net : Network) where
  -- `handle_incoming_put` up to its wait, and behind it.
  unfoldable pub start_put : ℕ → Peer x.Table → String → ShoppingList → Started x.Table
  start_put fuel p request_id list = elim (get_replicas x p list.id) [
    | [] ↦ refused p
    | r ∷ rs ↦ elim (send_write_replicate net fuel p request_id list (r ∷ rs)) [
      | searching after ↦ stuck after
      | written after ↦ waiting_write after list
    ]
  ]

  -- An answer to the client, if the list is stored: `let _ = self.send_to_proxy(…)`.
  unfoldable pub answer : List ℕ → ShoppingList → Handled x.Table → Handled x.Table
  answer client_id list (done p) = done (send_to_proxy net p client_id (ack_list "" list)).0
  answer client_id list (failed p) = failed p
  answer client_id list (blocked p) = blocked p

  unfoldable pub end_put : Peer x.Table → List ℕ → String → ShoppingList → Bool → Handled x.Table
  unfolding answer end_write
  end_put p client_id request_id list told =
      let (ended, in_time) = end_write net p request_id told in
      if in_time
      then answer client_id list (store x net ended list)
      else done (send_to_proxy net ended client_id (nack "")).0

  -- `handle_incoming_proxy` up to its wait. A list that is not stored is put.
  unfoldable pub start_proxy : ℕ → Peer x.Table → String → Msg → Started x.Table
  unfolding start_put
  start_proxy fuel p request_id (get_list list) = elim (get_shopping_list x p.storage list.id) [
    | err ↦ refused p
    | ok none ↦ start_put fuel p request_id list
    | ok (some l) ↦ elim (get_replicas x p list.id) [
      | [] ↦ refused p
      | r ∷ rs ↦ waiting_read (send_read_replicate net p request_id list (r ∷ rs)) l
    ]
  ]
  start_proxy fuel p request_id (put_list list) = start_put fuel p request_id list
  start_proxy fuel p request_id _ = unsupported p

  -- The end of a read: `l` is the list that was stored when it started.
  unfoldable pub end_get : Peer x.Table → List ℕ → String → ShoppingList → Bool → Handled x.Table
  unfolding answer end_read
  end_get p client_id request_id l told =
      let (ended, result) = end_read net p request_id told in
      elim result [
        | err ↦ done (send_to_proxy net ended client_id (nack "")).0
        | ok s ↦
            let merged = record l { list = AworMap.merge l.list s.list } in
            answer client_id merged (store x net ended merged)
      ]
