-- ===== src/Server/Cluster.antt =====
-- The servers of a cluster, `listen`, `listen_proxy` and the timers of src/server.rs on each of them:
-- every handler is one step. A message that is sent may arrive late, twice or never.
pub mod Sound
mod Tests
use sdle_shopping_list.Common.{
  ℕ, Uuid, String, nat_eq, ◌==◌, Bool, Option, none, some, List, [], ◌∷◌, ◌++◌, ◌≡◌, if◌then◌else◌,
}
use sdle_shopping_list.Crdt.AworMap.{ShoppingList}
use sdle_shopping_list.External.{Platform, Row}
use sdle_shopping_list.Server.Message.{Msg, Frame, Wire, put_list, get_list}
use sdle_shopping_list.Server.Peer.{Network, Peer, new as new_peer, send_gossip}
use sdle_shopping_list.Server.Peer.Handlers.{
  Handled, done, failed, blocked, handle_incoming, leave_ring, hinted_handoff,
}
use sdle_shopping_list.Server.Peer.Requests.{
  Started, refused, waiting_write, waiting_read, stuck, unsupported, start_proxy, end_put, end_get,
}
use sdle_shopping_list.Server.Peer.Startup.{join_hello, join, failure_detection}
use sdle_shopping_list.Server.Sound.{Holds}

-- A server that has not started, or that runs.
pub data Node (T : Type 0) : Type 0 where
  absent : Node T
  running : Peer T → Node T

-- A handler that waits for the answers of the replicas: the client, the request and the list.
pub data Task : Type 0 where
  putting : List ℕ → String → ShoppingList → Task
  getting : List ℕ → String → ShoppingList → Task

pub record Cluster (T : Type 0) : Type 0 where
  pub nodes : Uuid → Node T
  pub tasks : List (Uuid × Task)

module _ {T : Type 0} where
  unfoldable pub with_node : Cluster T → Uuid → Node T → Cluster T
  with_node c u n = record c { nodes = λ v. if u == v then n else c.nodes v }

  -- What a handler of a server leaves. It is a task of its own: where it never returns, what it did
  -- before stays, and the server goes on.
  unfoldable pub settle : Cluster T → Uuid → Handled T → Cluster T
  unfolding with_node
  settle c u (done q) = with_node c u (running q)
  settle c u (failed q) = with_node c u (running q)
  settle c u (blocked q) = with_node c u (running q)

  -- The same of a handler that may wait.
  unfoldable pub settle_started : Cluster T → Uuid → List ℕ → String → Started T → Cluster T
  unfolding with_node
  settle_started c u client_id id (refused q) = with_node c u (running q)
  settle_started c u client_id id (waiting_write q list) =
      with_node (record c { tasks = (u, putting client_id id list) ∷ c.tasks }) u (running q)
  settle_started c u client_id id (waiting_read q l) =
      with_node (record c { tasks = (u, getting client_id id l) ∷ c.tasks }) u (running q)
  settle_started c u client_id id (stuck q) = with_node c u (running q)
  settle_started c u client_id id (unsupported q) = with_node c u (running q)

  unfoldable pub sent_of : Node T → List (Uuid × Msg)
  sent_of absent = []
  sent_of (running p) = p.sent

-- `Given` says which lists clients send.
module _ (Given : ShoppingList → Type 0) (x : Platform) where
  -- The steps of a cluster: a server starts, its hello arrives at another one, and it joins; a
  -- message of a server arrives; a client asks, and its handler's wait ends, with the responder told
  -- or not; and the rounds of the timers, and `leave`. A server of which a handler never returns takes
  -- all of these steps, also those that would wait in the source for a lock of that handler.
  pub data Step (c : Cluster x.Table) : Cluster x.Table → Type 0 where
    starts :
        (u : Uuid) (addr : String) (storage : x.Table)
        → c.nodes u ≡ absent
        → ((k : ℕ) → x.content storage k ≡ none)
        → Step c (with_node c u (running (new_peer x u addr storage)))
    joins :
        (w : Wire) (u : Uuid) (p : Peer x.Table) (hello_sent : Bool) (rounds : List (Option Frame))
        (disconnected : Bool)
        → c.nodes u ≡ running p
        → Step c (with_node c u (running (join w p hello_sent rounds disconnected).0))
    greets :
        (net : Network) (u v : Uuid) (p q : Peer x.Table)
        → c.nodes u ≡ running p
        → c.nodes v ≡ running q
        → Step c (settle c u (handle_incoming x net p v (join_hello q)))
    arrives :
        (net : Network) (u v : Uuid) (p : Peer x.Table) (msg : Msg)
        (before after : List (Uuid × Msg))
        → c.nodes u ≡ running p
        → sent_of (c.nodes v) ≡ before ++ (u, msg) ∷ after
        → Step c (settle c u (handle_incoming x net p v msg))
    asks :
        (net : Network) (fuel : ℕ) (u : Uuid) (p : Peer x.Table) (client_id : List ℕ) (id : String)
        (msg : Msg)
        → c.nodes u ≡ running p
        → Holds Given msg
        → Step c (settle_started c u client_id id (start_proxy x net fuel p id msg))
    ends_put :
        (net : Network) (u : Uuid) (p : Peer x.Table) (client_id : List ℕ) (id : String)
        (list : ShoppingList) (told : Bool) (before after : List (Uuid × Task))
        → c.nodes u ≡ running p
        → c.tasks ≡ before ++ (u, putting client_id id list) ∷ after
        → Step c (
            settle
              (record c { tasks = before ++ after })
              u
              (end_put x net p client_id id list told))
    ends_get :
        (net : Network) (u : Uuid) (p : Peer x.Table) (client_id : List ℕ) (id : String)
        (l : ShoppingList) (told : Bool) (before after : List (Uuid × Task))
        → c.nodes u ≡ running p
        → c.tasks ≡ before ++ (u, getting client_id id l) ∷ after
        → Step c
            (settle (record c { tasks = before ++ after }) u (end_get x net p client_id id l told))
    gossips :
        (net : Network) (u : Uuid) (p : Peer x.Table)
        → c.nodes u ≡ running p
        → Step c (with_node c u (running (send_gossip net p).0))
    hands_off :
        (net : Network) (u : Uuid) (p : Peer x.Table) (ids : List String)
        → c.nodes u ≡ running p
        → Step c (with_node c u (running (hinted_handoff x net ids p)))
    detects :
        (net : Network) (u : Uuid) (p : Peer x.Table)
        → c.nodes u ≡ running p
        → Step c (settle c u (failure_detection net p))
    leaves :
        (net : Network) (u : Uuid) (p : Peer x.Table)
        → c.nodes u ≡ running p
        → Step c (with_node c u (running (leave_ring x net p).0))

  abbrev pub init : Cluster x.Table
  init = record { nodes = λ u. absent; tasks = [] }

  pub data Reach : Cluster x.Table → Type 0 where
    start : Reach init
    later : {c d : Cluster x.Table} → Reach c → Step c d → Reach d
