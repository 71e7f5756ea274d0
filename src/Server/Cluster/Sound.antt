-- ===== src/Server/Cluster/Sound.antt =====
-- A property of lists that merging keeps holds of every list in a cluster, if the lists of the
-- clients have it.
use sdle_shopping_list.Common.{
  ℕ, Uuid, nat_eq, ◌==◌, Bool, true, false, List, ◌∷◌, ◌++◌, ◌≡◌, subst, All, All-middle, String,
  if◌then◌else◌,
}
use sdle_shopping_list.Crdt.AworMap.{ShoppingList}
use sdle_shopping_list.External.{Platform}
use sdle_shopping_list.Server.Message.{Msg}
use sdle_shopping_list.Server.Peer.{Network, Peer, new as new_peer, send_gossip}
use sdle_shopping_list.Server.Peer.Handlers.{
  Handled, done, failed, blocked, leave_ring, hinted_handoff,
}
use sdle_shopping_list.Server.Peer.Requests.{
  Started, refused, waiting_write, waiting_read, stuck, unsupported,
}
use sdle_shopping_list.Server.Peer.Startup.{join_hello, join}
use sdle_shopping_list.Server.Sound.{IsClosed, Holds, HoldsAll, IsSound, EndsSound}
use sdle_shopping_list.Server.Sound.Sending.{keeps, leave_ring-IsSound}
use sdle_shopping_list.Server.Peer.Keeps.{send_gossip-keeps}
use sdle_shopping_list.Server.Sound.Handling.{handle_incoming-EndsSound}
use sdle_shopping_list.Server.Sound.Delivering.{hinted_handoff-IsSound}
use sdle_shopping_list.Server.Sound.Answering.{end_put-EndsSound, end_get-EndsSound}
use sdle_shopping_list.Server.Sound.Requesting.{StartsSound, start_proxy-StartsSound}
use sdle_shopping_list.Server.Cluster.{
  Node, absent, running, Task, putting, getting, Cluster, with_node, settle, settle_started,
  sent_of, Step, starts, joins, greets, arrives, asks, ends_put, ends_get, gossips, hands_off,
  detects, leaves, Reach, start, later,
}
use sdle_shopping_list.Server.Sound.Starting.{
  new_peer-IsSound, join-IsSound, failure_detection-EndsSound,
}

module _ (P : ShoppingList → Type 0) (x : Platform) where
  -- The server has only lists with the property.
  abbrev pub NodeSound : Node x.Table → Type 0
  NodeSound absent = Unit
  NodeSound (running p) = IsSound P x p

  abbrev pub TaskSound : Uuid × Task → Type 0
  TaskSound (u, putting client_id id list) = P list
  TaskSound (u, getting client_id id l) = P l

  pub record ClusterSound (c : Cluster x.Table) : Type 0 where
    pub nodes : (u : Uuid) → NodeSound (c.nodes u)
    pub tasks : All TaskSound c.tasks

  with_node-ClusterSound :
      (c : Cluster x.Table) (u : Uuid) (n : Node x.Table)
      → ClusterSound c
      → NodeSound n
      → ClusterSound (with_node c u n)
  unfolding with_node
  with_node-ClusterSound c u n v h = record { nodes = λ w. go (u == w) w; tasks = v.tasks }
    where
      go : (b : Bool) (w : Uuid) → NodeSound (if b then n else c.nodes w)
      go true w = h
      go false w = v.nodes w

  settle-ClusterSound :
      (c : Cluster x.Table) (u : Uuid) (r : Handled x.Table)
      → ClusterSound c
      → EndsSound P x r
      → ClusterSound (settle c u r)
  unfolding settle
  settle-ClusterSound c u (done q) v h = with_node-ClusterSound c u (running q) v h
  settle-ClusterSound c u (failed q) v h = with_node-ClusterSound c u (running q) v h
  settle-ClusterSound c u (blocked q) v h = with_node-ClusterSound c u (running q) v h

  with_task-ClusterSound :
      (c : Cluster x.Table) (t : Uuid × Task)
      → ClusterSound c
      → TaskSound t
      → ClusterSound (record c { tasks = t ∷ c.tasks })
  with_task-ClusterSound c t v h = record { nodes = v.nodes; tasks = (h, v.tasks) }

  settle_started-ClusterSound :
      (net : Network) (c : Cluster x.Table) (u : Uuid) (client_id : List ℕ) (id : String)
      (r : Started x.Table)
      → ClusterSound c
      → StartsSound P x net r
      → ClusterSound (settle_started c u client_id id r)
  unfolding settle_started
  settle_started-ClusterSound net c u client_id id (refused q) v h =
      with_node-ClusterSound c u (running q) v h
  settle_started-ClusterSound net c u client_id id (waiting_write q list) v h =
      with_node-ClusterSound _ u (running q)
        (with_task-ClusterSound c (u, putting client_id id list) v h.1) h.0
  settle_started-ClusterSound net c u client_id id (waiting_read q l) v h =
      with_node-ClusterSound _ u (running q)
        (with_task-ClusterSound c (u, getting client_id id l) v h.1) h.0
  settle_started-ClusterSound net c u client_id id (stuck q) v h =
      with_node-ClusterSound c u (running q) v h
  settle_started-ClusterSound net c u client_id id (unsupported q) v h =
      with_node-ClusterSound c u (running q) v h

  running_lem :
      (c : Cluster x.Table) (u : Uuid) (p : Peer x.Table)
      → ClusterSound c
      → c.nodes u ≡ running p
      → IsSound P x p
  running_lem c u p v e = subst NodeSound e (v.nodes u)

  -- The message in the middle of those that a server has sent.
  sent-Holds :
      (c : Cluster x.Table) (v u : Uuid) (msg : Msg) (before after : List (Uuid × Msg))
      → ClusterSound c
      → sent_of (c.nodes v) ≡ before ++ (u, msg) ∷ after
      → Holds P msg
  unfolding sent_of
  sent-Holds c v u msg before after s e =
      (All-middle _ before (u, msg) after (subst (HoldsAll P) e (all (c.nodes v) (s.nodes v)))).0
    where
      all : (n : Node x.Table) → NodeSound n → HoldsAll P (sent_of n)
      all absent h = tt
      all (running p) h = h.sent

  without-ClusterSound :
      (c : Cluster x.Table) (t : Uuid × Task) (before after : List (Uuid × Task))
      → ClusterSound c
      → c.tasks ≡ before ++ t ∷ after
      → TaskSound t × ClusterSound (record c { tasks = before ++ after })
  without-ClusterSound c t before after v e =
      let split = All-middle TaskSound before t after (subst (All TaskSound) e v.tasks) in
      (split.0, record { nodes = v.nodes; tasks = split.1 })

  -- One step of the cluster.
  Step-ClusterSound :
      {c d : Cluster x.Table} → IsClosed P → Step P x c d → ClusterSound c → ClusterSound d
  unfolding join_hello
  Step-ClusterSound closed (starts u addr storage e empty) v =
      with_node-ClusterSound _ u (running (new_peer x u addr storage)) v
        (new_peer-IsSound P x u addr storage empty)
  Step-ClusterSound closed (joins w u p hs rounds d e) v =
      with_node-ClusterSound _ u (running (join w p hs rounds d).0) v
        (join-IsSound P x w p hs rounds d (running_lem _ u p v e))
  Step-ClusterSound closed (greets net u s p q e _) v =
      let sound = running_lem _ u p v e in
      settle-ClusterSound _ u _ v
        (handle_incoming-EndsSound P x net closed p s (join_hello q) sound tt)
  Step-ClusterSound closed (arrives net u s p msg before after e m) v =
      let sound = running_lem _ u p v e in
      settle-ClusterSound _ u _ v (
        handle_incoming-EndsSound P x net closed p s msg sound
          (sent-Holds _ s u msg before after v m))
  Step-ClusterSound closed (asks net fuel u p client_id id msg e h) v =
      let sound = running_lem _ u p v e in
      settle_started-ClusterSound net _ u client_id id _ v
        (start_proxy-StartsSound P x net fuel p id msg sound h)
  Step-ClusterSound closed (ends_put net u p client_id id list told before after e m) v =
      let sound = running_lem _ u p v e in
      let rest = without-ClusterSound _ (u, putting client_id id list) before after v m in
      settle-ClusterSound _ u _ rest.1
        (end_put-EndsSound P x net p client_id id list told sound rest.0)
  Step-ClusterSound closed (ends_get net u p client_id id l told before after e m) v =
      let sound = running_lem _ u p v e in
      let rest = without-ClusterSound _ (u, getting client_id id l) before after v m in
      settle-ClusterSound _ u _ rest.1
        (end_get-EndsSound P x net closed p client_id id l told sound rest.0)
  Step-ClusterSound closed (gossips net u p e) v =
      with_node-ClusterSound _ u (running (send_gossip net p).0) v
        (send_gossip-keeps (keeps P x net) p (running_lem _ u p v e))
  Step-ClusterSound closed (hands_off net u p ids e) v =
      with_node-ClusterSound _ u (running (hinted_handoff x net ids p)) v
        (hinted_handoff-IsSound P x net ids p (running_lem _ u p v e))
  Step-ClusterSound closed (detects net u p e) v =
      let sound = running_lem _ u p v e in
      settle-ClusterSound _ u _ v (failure_detection-EndsSound P x net p sound)
  Step-ClusterSound closed (leaves net u p e) v =
      with_node-ClusterSound _ u (running (leave_ring x net p).0) v
        (leave_ring-IsSound P x net p (running_lem _ u p v e))

  -- Where each handler is one step, a property of lists that merging two lists keeps holds of every
  -- list that a cluster has, in its tables, its requests in flight, its messages to servers and to
  -- clients, and its waiting handlers, if every list that a client sends has it: whatever servers
  -- start, join, fail and leave, however late, often or seldom their messages arrive, and whatever
  -- handlers never return.
  pub Reach-ClusterSound : {c : Cluster x.Table} → IsClosed P → Reach P x c → ClusterSound c
  Reach-ClusterSound closed start = record { nodes = λ u. tt; tasks = tt }
  Reach-ClusterSound closed (later r s) = Step-ClusterSound closed s (Reach-ClusterSound closed r)
