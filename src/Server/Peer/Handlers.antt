-- ===== src/Server/Peer/Handlers.antt =====
-- `handle_incoming` of src/server.rs: what a server does with a message of another one, and `leave`.
use sdle_shopping_list.Common.{
  ℕ, zero, suc, Uuid, String, nat_eq, string_eq, Bool, true, false, none, some, List, [], ◌∷◌,
  if◌then◌else◌,
}
use sdle_shopping_list.Common.Sets.{contains}
use sdle_shopping_list.Common.Result.{ok, err}
use sdle_shopping_list.HashMap.{get, contains_key, insert, keys}
use sdle_shopping_list.HashRing
use sdle_shopping_list.HashRing.{get_predecessors, prev_node_hash}
use sdle_shopping_list.External.{Platform}
use sdle_shopping_list.Crdt.AworMap
use sdle_shopping_list.Crdt.AworMap.{ShoppingList}
use sdle_shopping_list.Storage.Server.{
  get_shopping_list, write_shopping_list, write_shopping_list_handoff, delete_shopping_list,
  get_hinted_handoffs, get_old_data, get_all_rows,
}
use sdle_shopping_list.Server.Quorum.{on_ack, on_ack_list}
use sdle_shopping_list.Server.Message.{
  Msg, MembershipTable, hello, gossip, ping, ack, nack, ack_list, get_list, put_list,
  replicate_list, merge_list, list_response, handoff, leave,
}
use sdle_shopping_list.Server.Peer.{
  Network, Peer, add_nodes, send_to, send_to_any, send_gossip, send_gossip_to,
}

-- How a handler ends: it returns `Ok` or an error, or it waits for a lock that it holds itself, and
-- never returns. What it did before stays done.
pub data Handled (T : Type 0) : Type 0 where
  done : Peer T → Handled T
  failed : Peer T → Handled T
  blocked : Peer T → Handled T

abbrev pub is_blocked : {T : Type 0} → Handled T → Bool
is_blocked (done p) = false
is_blocked (failed p) = false
is_blocked (blocked p) = true

abbrev pub max_retries : ℕ
max_retries = 3

-- The entries of a table that are not in another one.
unfoldable pub new_entries : MembershipTable → MembershipTable → MembershipTable
new_entries membership [] = []
new_entries membership ((u, addr) ∷ table) =
    let rest = new_entries membership table in
    if contains_key membership u then rest else (u, addr) ∷ rest

module _ {T : Type 0} where
  -- The arms `Ack` and `AckList`: the request is looked up, and its state replaced.
  unfoldable pub handle_ack : Peer T → String → Peer T
  handle_ack p request_id = elim (get p.in_flight request_id) [
    | none ↦ p
    | some q ↦ record p { in_flight = insert p.in_flight request_id ((on_ack q).0) }
  ]

  unfoldable pub handle_ack_list : Peer T → String → ShoppingList → Peer T
  handle_ack_list p request_id list = elim (get p.in_flight request_id) [
    | none ↦ p
    | some q ↦ record p { in_flight = insert p.in_flight request_id ((on_ack_list q list).0) }
  ]

  -- The loop of `leave` for one list: at most `left` attempts.
  unfoldable pub send_with_retries : Network → ℕ → Peer T → Uuid → Msg → Peer T
  send_with_retries net zero p id msg = p
  send_with_retries net (suc left) p id msg =
      let first = send_to net p id msg in
      let rest = send_with_retries net left (first.0) id msg in if first.1 then first.0 else rest

  unfoldable pub handle_hello : Network → Peer T → Uuid → String → Peer T
  handle_hello net p uuid addr =
      let known = record p { membership = insert p.membership uuid addr } in
      (send_gossip net ((send_gossip_to net known uuid).0)).0

module _ (x : Platform) (net : Network) where
  -- The lists of `leave`, each to the coordinator that it has without this server.
  unfoldable pub leave_lists : Peer x.Table → List (ℕ × ShoppingList) → Peer x.Table
  leave_lists p [] = p
  leave_lists p ((hash, list) ∷ rows) = elim (HashRing.get_preference_list_hash p.hashring hash) [
    | [] ↦ leave_lists p rows
    | id ∷ _ ↦
        leave_lists (send_with_retries net max_retries p id (replicate_list "" list true)) rows
  ]

  -- `leave`, whose result no caller looks at but `main`.
  unfoldable pub leave_ring : Peer x.Table → Peer x.Table × Bool
  unfolding leave_lists
  leave_ring p =
      let alone = record p { hashring = HashRing.remove_node x.hashing p.hashring p.uuid } in
      elim (get_all_rows x p.storage) [
        | err ↦ (alone, false)
        | ok rows ↦ (leave_lists alone rows, true)
      ]

  -- The loop of the arm `Gossip` over the new entries. The guard of the membership table is held
  -- there, and `send_to` locks the same table: with a list to send, the handler is blocked.
  unfoldable pub gossip_entries : Peer x.Table → List Uuid → MembershipTable → Handled x.Table
  gossip_entries p predecessors [] = done p
  gossip_entries p predecessors ((u, addr) ∷ entries) =
      let known = record p { membership = insert p.membership u addr } in
      let rest = gossip_entries known predecessors entries in
      if contains predecessors u
      then elim (prev_node_hash p.hashring p.uuid) [
        | none ↦ rest
        | some h ↦ elim (get_old_data x p.storage p.uuid h) [
          | err ↦ failed known
          | ok [] ↦ rest
          | ok (_ ∷ _) ↦ blocked known
        ]
      ]
      else rest

  unfoldable pub handle_gossip : Peer x.Table → MembershipTable → Handled x.Table
  unfolding gossip_entries
  handle_gossip p table =
      let grown = record p { hashring = add_nodes x p.hashring (keys table) } in
      gossip_entries grown (get_predecessors grown.hashring p.uuid) (new_entries p.membership table)

  unfoldable pub handle_replicate_list :
      Peer x.Table → Uuid → String → ShoppingList → Bool → Peer x.Table
  handle_replicate_list p identity id list true = elim (write_shopping_list x p.storage list) [
    | err ↦ p
    | ok db ↦ send_to_any net (record p { storage = db }) identity (ack id)
  ]
  handle_replicate_list p identity id list false = elim (get_shopping_list x p.storage list.id) [
    | err ↦ p
    | ok none ↦ p
    | ok (some l) ↦ send_to_any net p identity (ack_list id l)
  ]

  -- `let _ = …write_shopping_list_handoff(…)`: the answer is sent whether it is stored or not.
  unfoldable pub handle_handoff : Peer x.Table → Uuid → String → ShoppingList → Uuid → Peer x.Table
  handle_handoff p identity request_id list original_node =
      elim (write_shopping_list_handoff x p.storage list original_node) [
        | err ↦ send_to_any net p identity (ack request_id)
        | ok db ↦ send_to_any net (record p { storage = db }) identity (ack request_id)
      ]

  -- A write of which an error is passed on.
  unfoldable pub store : Peer x.Table → ShoppingList → Handled x.Table
  store p list = elim (write_shopping_list x p.storage list) [
    | err ↦ failed p
    | ok db ↦ done (record p { storage = db })
  ]

  unfoldable pub handle_merge_list : Peer x.Table → ShoppingList → Handled x.Table
  unfolding store
  handle_merge_list p list = elim (get_shopping_list x p.storage list.id) [
    | err ↦ failed p
    | ok none ↦ store p list
    | ok (some existing) ↦
        store p (record existing { list = AworMap.merge existing.list list.list })
  ]

  unfoldable pub handle_incoming : Peer x.Table → Uuid → Msg → Handled x.Table
  handle_incoming p identity leave = done ((leave_ring p).0)
  handle_incoming p identity (gossip table) = handle_gossip p table
  handle_incoming p identity (hello uuid addr) = done (handle_hello net p uuid addr)
  handle_incoming p identity (replicate_list id list write) =
      done (handle_replicate_list p identity id list write)
  handle_incoming p identity (ack request_id) = done (handle_ack p request_id)
  handle_incoming p identity (ack_list request_id list) = done (handle_ack_list p request_id list)
  handle_incoming p identity (handoff request_id list original_node) =
      done (handle_handoff p identity request_id list original_node)
  handle_incoming p identity (merge_list list) = handle_merge_list p list
  handle_incoming p identity (list_response list) = done p
  handle_incoming p identity ping = done p
  handle_incoming p identity (nack id) = done p
  handle_incoming p identity (get_list list) = done p
  handle_incoming p identity (put_list list) = done p

  -- One round of `hinted_handoff`: each hinted list is sent where it belongs and, once sent, deleted.
  -- `ids` are the fresh identifiers of the messages, and end no sooner than the lists.
  unfoldable pub deliver : List (Uuid × ShoppingList) → List String → Peer x.Table → Peer x.Table
  deliver [] ids p = p
  deliver (h ∷ handoffs) [] p = p
  deliver ((dest, list) ∷ handoffs) (id ∷ ids) p =
      let (after, sent) = send_to net p dest (replicate_list id list true) in
      if sent
      then elim (delete_shopping_list x after.storage list.id) [
        | err ↦ deliver handoffs ids after
        | ok db ↦ deliver handoffs ids (record after { storage = db })
      ]
      else deliver handoffs ids after

  unfoldable pub hinted_handoff : List String → Peer x.Table → Peer x.Table
  unfolding deliver
  hinted_handoff ids p = elim (get_hinted_handoffs x p.storage) [
    | err ↦ p
    | ok handoffs ↦ deliver handoffs ids p
  ]
