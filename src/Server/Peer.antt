-- ===== src/Server/Peer.antt =====
-- `Peer` of src/server.rs: the state of a server, and what sends a message. The sockets are ZeroMQ's:
-- a `Network` says what becomes of each attempt to send, and a peer keeps what it has put on them.
pub mod Handlers
pub mod Requests
pub mod Tables
pub mod Startup
pub mod Detection
pub mod Search
pub mod Delivery
pub mod Ready
pub mod Keeps
pub mod Answers
pub mod Tests
pub mod Sending
pub mod Waiting
pub mod Invariant
use sdle_shopping_list.Common.{
  ℕ, zero, suc, ◌+◌, Uuid, String, nat_eq, string_eq, ◌==◌, Bool, true, false, ◌&&◌, Option, none,
  some, List, [], ◌∷◌, ◌++◌, if◌then◌else◌,
}
use sdle_shopping_list.Common.Result.{Result, ok, err}
use sdle_shopping_list.HashMap.{HashMap, get, contains_key, insert, keys}
use sdle_shopping_list.HashRing
use sdle_shopping_list.HashRing.{HashRing, vnodes, replicas_count, next_node}
use sdle_shopping_list.External.{Platform}
use sdle_shopping_list.Server.Failure
use sdle_shopping_list.Server.Failure.{FailureTable}
use sdle_shopping_list.Server.Quorum.{QuoromState}
use sdle_shopping_list.Server.Message.{Msg, MembershipTable, gossip}

-- How an attempt to send ends: no socket, no empty frame, a message that serde does not write, no
-- data frame, a message that is sent on a connection that does not close, or all well.
pub data Outcome : Type 0 where
  no_socket : Outcome
  no_frame : Outcome
  not_written : Outcome
  no_data : Outcome
  not_closed : Outcome
  sent_ok : Outcome

-- How `send_to_proxy` ends: with a message that serde does not write, or one that ZeroMQ does not
-- send, or well.
pub data ProxyOutcome : Type 0 where
  unwritten : ProxyOutcome
  unsent : ProxyOutcome
  passed_on : ProxyOutcome

pub record Network : Type 0 where
  -- of the n-th attempt, to an address
  pub outcome : ℕ → String → Msg → Outcome
  -- of the n-th attempt, to a client through the proxy
  pub to_client : ℕ → List ℕ → Msg → ProxyOutcome
  -- `Instant::now()` at the n-th attempt
  pub now : ℕ → ℕ
  -- `choose` of the `rand` crate, at the n-th attempt
  pub choose : ℕ → List Uuid → Option Uuid

pub record Peer (Table : Type 0) : Type 0 where
  pub uuid : Uuid
  pub addr : String
  pub storage : Table
  pub membership : MembershipTable
  pub hashring : HashRing
  pub failure : FailureTable
  pub in_flight : HashMap String QuoromState
  -- the attempts so far, the messages to peers and the messages to clients through the proxy
  pub attempts : ℕ
  pub sent : List (Uuid × Msg)
  pub to_proxy : List (List ℕ × Msg)

module _ {T : Type 0} where
  unfoldable pub mark_peer_failed : Network → Peer T → Uuid → Peer T
  mark_peer_failed net p uuid = record p {
    failure = Failure.mark_failure p.failure (net.now p.attempts) uuid;
  }

  unfoldable pub clear_peer_failure : Peer T → Uuid → Peer T
  clear_peer_failure p uuid =
      if contains_key p.failure.peers uuid
      then record p { failure = Failure.clear_failure p.failure uuid }
      else p

  unfoldable pub is_peer_available : Peer T → Uuid → Bool
  is_peer_available p uuid =
      if contains_key p.membership uuid then Failure.is_available p.failure uuid else false

  -- `send_to` with the address that `connect_to_peer` looks up, and what becomes of the attempt: the
  -- state after it, and whether it returns `Ok`.
  unfoldable pub send_attempt : Network → Peer T → Uuid → Msg → Outcome → Peer T × Bool
  send_attempt net p uuid msg no_socket = (mark_peer_failed net p uuid, false)
  send_attempt net p uuid msg no_frame = (mark_peer_failed net p uuid, false)
  send_attempt net p uuid msg not_written = (p, false)
  send_attempt net p uuid msg no_data = (mark_peer_failed net p uuid, false)
  send_attempt net p uuid msg not_closed =
      (record (clear_peer_failure p uuid) { sent = p.sent ++ (uuid, msg) ∷ [] }, false)
  send_attempt net p uuid msg sent_ok =
      (record (clear_peer_failure p uuid) { sent = p.sent ++ (uuid, msg) ∷ [] }, true)

  unfoldable pub send_to : Network → Peer T → Uuid → Msg → Peer T × Bool
  unfolding send_attempt
  send_to net p uuid msg =
      let tried = record p { attempts = p.attempts + 1 } in
      elim (get p.membership uuid) [
        | none ↦ (mark_peer_failed net tried uuid, false)
        | some peer_addr ↦ send_attempt net tried uuid msg (net.outcome p.attempts peer_addr msg)
      ]

  -- Where the source does not look at the result.
  unfoldable pub send_to_any : Network → Peer T → Uuid → Msg → Peer T
  send_to_any net p uuid msg = (send_to net p uuid msg).0

  -- The message is on its way to the proxy only where nothing fails.
  unfoldable pub send_to_proxy : Network → Peer T → List ℕ → Msg → Peer T × Bool
  send_to_proxy net p client_id msg =
      let tried = record p { attempts = p.attempts + 1 } in
      elim (net.to_client p.attempts client_id msg) [
        | unwritten ↦ (tried, false)
        | unsent ↦ (tried, false)
        | passed_on ↦ (record tried { to_proxy = p.to_proxy ++ (client_id, msg) ∷ [] }, true)
      ]

  unfoldable pub send_gossip : Network → Peer T → Peer T × Bool
  send_gossip net p = elim (net.choose p.attempts (keys p.membership)) [
    | none ↦ (p, false)
    | some u ↦ if u == p.uuid then (p, true) else send_to net p u (gossip p.membership)
  ]

  unfoldable pub send_gossip_to : Network → Peer T → Uuid → Peer T × Bool
  send_gossip_to net p uuid =
      if contains_key p.membership uuid
      then send_to net p uuid (gossip p.membership)
      else (p, false)

  -- The loop of `get_next_available_node` on fuel: `none` where the fuel runs out.
  unfoldable pub next_available : ℕ → Peer T → Uuid → Uuid → Option (Result Uuid)
  next_available zero p start current = none
  next_available (suc fuel) p start current = elim (next_node p.hashring current) [
    | none ↦ some err
    | some next ↦
        let rest = next_available fuel p start next in
        if is_peer_available p next
        then some (ok next)
        else if next == start
        then some err
        else rest
  ]

  -- `ids.iter().filter_map(…)`
  unfoldable pub get_addresses : Peer T → List Uuid → List String
  get_addresses p [] = []
  get_addresses p (id ∷ ids) = elim (get p.membership id) [
    | none ↦ get_addresses p ids
    | some a ↦ a ∷ get_addresses p ids
  ]

module _ (x : Platform) where
  unfoldable pub add_nodes : HashRing → List Uuid → HashRing
  add_nodes ring [] = ring
  add_nodes ring (n ∷ nodes) = add_nodes (HashRing.add_node x.hashing ring n) nodes

  -- `Peer::new`, its sockets bound and its database open.
  unfoldable pub new : Uuid → String → x.Table → Peer x.Table
  new uuid bind_addr storage = record {
    uuid = uuid;
    addr = bind_addr;
    storage = storage;
    membership = (uuid, bind_addr) ∷ [];
    hashring = HashRing.add_node x.hashing (HashRing.new vnodes replicas_count) uuid;
    failure = Failure.new;
    in_flight = [];
    attempts = 0;
    sent = [];
    to_proxy = [];
  }

  -- `.expect("must have coordinator")` panics on an empty ring: an error here.
  unfoldable pub is_coordinator : Peer x.Table → Uuid → Result Bool
  is_coordinator p list_id = elim (HashRing.get_coordinator x.hashing p.hashring list_id) [
    | none ↦ err
    | some node_id ↦ ok (node_id == p.uuid)
  ]

  -- `.iter().skip(1)` of the preference list.
  unfoldable pub get_replicas : Peer x.Table → Uuid → List Uuid
  get_replicas p list_id = elim (HashRing.get_preference_list x.hashing p.hashring list_id) [
    | [] ↦ []
    | _ ∷ replicas ↦ replicas
  ]
