-- ===== src/Server/Peer/Ready.antt =====
-- A server that has the address of every server of its ring, and records no recovery.
pub mod Search
pub mod Ring
pub mod Storing
pub mod Handling
use sdle_shopping_list.Common.{
  ℕ, suc, ◌+◌, Uuid, All, ap, eqb_iff, String, nat_eq, string_eq, ◌==◌, true, false, Option, none,
  some, List, [], ◌∷◌, ◌≡◌, ◌≢◌, refl, sym, ◌∙◌, arith, Bool, if◌then◌else◌,
}
use sdle_shopping_list.Common.Sets.{contains, contains-collect}
use sdle_shopping_list.Common.Result.{Result, ok, err}
use sdle_shopping_list.HashMap.{get, contains_key, insert}
use sdle_shopping_list.BTreeMap.{BTreeMap, values}
use sdle_shopping_list.HashRing.{next_node, get_all_servers}
use sdle_shopping_list.HashRing.Neighbours.{next_node_found}
use sdle_shopping_list.Crdt.AworMap.{ShoppingList}
use sdle_shopping_list.External.{Platform}
use sdle_shopping_list.Storage.Server.{get_shopping_list}
use sdle_shopping_list.Server.Failure
use sdle_shopping_list.Server.Failure.Available.{
  AllFailed, mark-AllFailed, clear-AllFailed, is_available_lem,
}
use sdle_shopping_list.Server.Message.{
  Msg, MembershipTable, hello, gossip, ping, ack, nack, ack_list, get_list, put_list,
  replicate_list, merge_list, list_response, handoff, leave,
}
use sdle_shopping_list.Server.Peer.{
  Network, Peer, Outcome, no_socket, no_frame, not_written, no_data, not_closed, sent_ok, send_to,
  send_attempt, send_to_any, mark_peer_failed, clear_peer_failure, is_peer_available,
  next_available, get_replicas,
}
use sdle_shopping_list.Server.Peer.Requests.{
  Started, refused, waiting_write, waiting_read, stuck, unsupported, last, in_flight_with, quorom,
  send_writes, send_write_replicate, start_put, start_proxy,
}

-- Every server of the ring has an address, and no record of the failure table says that its server
-- has recovered.
pub record IsReady {T : Type 0} (p : Peer T) : Type 0 where
  pub failures : AllFailed p.failure
  pub members : All (λ (e : ℕ × Uuid). contains_key p.membership e.1 ≡ true) p.hashring.ring

module _ {T : Type 0} (net : Network) where
  mark-IsReady : (p : Peer T) (u : Uuid) → IsReady p → IsReady (mark_peer_failed net p u)
  unfolding mark_peer_failed
  mark-IsReady p u v = record {
    failures = mark-AllFailed p.failure _ u v.failures;
    members = v.members;
  }

  clear-IsReady : (p : Peer T) (u : Uuid) → IsReady p → IsReady (clear_peer_failure p u)
  unfolding clear_peer_failure
  clear-IsReady p u v = go (contains_key p.failure.peers u)
    where
      go :
          (b : Bool)
          → IsReady (if b then record p { failure = Failure.clear_failure p.failure u } else p)
      go true = record { failures = clear-AllFailed p.failure u v.failures; members = v.members }
      go false = v

  sent-IsReady :
      (p : Peer T) (sent : List (Uuid × Msg)) → IsReady p → IsReady (record p { sent = sent })
  sent-IsReady p sent v = record { failures = v.failures; members = v.members }

  attempt-IsReady :
      (p : Peer T) (u : Uuid) (msg : Msg) (o : Outcome)
      → IsReady p
      → IsReady (send_attempt net p u msg o).0
  unfolding send_attempt
  attempt-IsReady p u msg no_socket v = mark-IsReady p u v
  attempt-IsReady p u msg no_frame v = mark-IsReady p u v
  attempt-IsReady p u msg not_written v = v
  attempt-IsReady p u msg no_data v = mark-IsReady p u v
  attempt-IsReady p u msg not_closed v = sent-IsReady _ _ (clear-IsReady p u v)
  attempt-IsReady p u msg sent_ok v = sent-IsReady _ _ (clear-IsReady p u v)

  pub send_to-IsReady :
      (p : Peer T) (u : Uuid) (msg : Msg) → IsReady p → IsReady (send_to net p u msg).0
  unfolding send_to
  send_to-IsReady p u msg v = go (get p.membership u) refl
    where
      tried : IsReady (record p { attempts = p.attempts + 1 })
      tried = record { failures = v.failures; members = v.members }

      go : (o : Option String) → get p.membership u ≡ o → IsReady (send_to net p u msg).0
      go none e = rw (e, send_to) (mark-IsReady _ u tried)
      go (some addr) e =
          rw (e, send_to) (attempt-IsReady _ u msg (net.outcome p.attempts addr msg) tried)
