-- ===== src/Server/Cluster/Tests.antt =====
-- Two servers that meet, and a client that puts a list through one of them.
use sdle_shopping_list.Common.{nat_eq, string_eq, true, false, [], ◌∷◌, ◌≡◌, refl, subst}
use sdle_shopping_list.HashMap.{Distinct, contains_key, get, insert, remove}
use sdle_shopping_list.Crdt.AworMap.{ShoppingList}
use sdle_shopping_list.Crdt.AworMap.Merge.{IsValid, merge-IsValid}
use sdle_shopping_list.Crdt.Tests.{milk-IsValid}
use sdle_shopping_list.Storage.Tests.{stored}
use sdle_shopping_list.Sample.{platform, Rows}
use sdle_shopping_list.Server.Failure
use sdle_shopping_list.HashRing
use sdle_shopping_list.BTreeMap
use sdle_shopping_list.Common.Sets
use sdle_shopping_list.Storage.Server.{get_old_data, old_rows, key_of}
use sdle_shopping_list.HashRing.{add_node, add_vnodes, get_predecessors}
use sdle_shopping_list.Common.Sets.{contains}
use sdle_shopping_list.Server.Message.{MembershipTable, put_list, gossip, replicate_list}
use sdle_shopping_list.Server.Peer.{
  Peer, new as new_peer, get_replicas, send_attempt, add_nodes, send_gossip, send_gossip_to,
  send_to, clear_peer_failure,
}
use sdle_shopping_list.Server.Peer.Tests.{network}
use sdle_shopping_list.Server.Peer.Startup.{join_hello}
use sdle_shopping_list.Server.Peer.Handlers.{
  handle_hello, handle_gossip, gossip_entries, new_entries, handle_incoming, done,
}
use sdle_shopping_list.Server.Peer.Requests.{
  is_stuck, Started, send_write_replicate, last, send_writes, in_flight_with, quorom, start_proxy,
  start_put, waiting_write, end_put,
}
use sdle_shopping_list.Server.Peer.Ready.{IsReady}
use sdle_shopping_list.Server.Peer.Ready.Search.{start_proxy-returns}
use sdle_shopping_list.Server.Peer.Ready.Storing.{EndsReady}
use sdle_shopping_list.Server.Peer.Ready.Handling.{new-IsReady, handle_incoming-EndsReady}
use sdle_shopping_list.Server.Cluster.{
  running, Cluster, with_node, settle, settle_started, sent_of, init, starts, greets, arrives, asks,
  ends_put, Reach, start, later,
}
use sdle_shopping_list.Server.Cluster.Sound.{ClusterSound, Reach-ClusterSound}

abbrev ValidList : ShoppingList → Type 0
ValidList l = IsValid l.list

abbrev seed : Peer Rows
seed = new_peer platform 3 "tcp" []

abbrev guest : Peer Rows
guest = new_peer platform 4 "udp" []

abbrev two : Cluster Rows
two = with_node (with_node (init ValidList platform) 3 (running seed)) 4 (running guest)

two-Reach : Reach ValidList platform two
unfolding with_node get
two-Reach =
    later (later start (starts 3 "tcp" [] refl (λ k. refl))) (starts 4 "udp" [] refl (λ k. refl))

-- The seed answers the hello with its table, which the guest reads.
abbrev seed_met : Peer Rows
seed_met = record seed {
  membership = (3, "tcp") ∷ (4, "udp") ∷ [];
  attempts = 1;
  sent = (4, gossip ((3, "tcp") ∷ (4, "udp") ∷ [])) ∷ [];
}

abbrev met : Cluster Rows
met = settle two 3 (done seed_met)

seed_lem : handle_incoming platform network seed 4 (join_hello guest) ≡ done seed_met
unfolding handle_incoming join_hello handle_hello send_gossip send_gossip_to contains_key insert
    new_peer send_to clear_peer_failure Failure.new
seed_lem = refl

met-Reach : Reach ValidList platform met
unfolding with_node
met-Reach =
    subst (λ r. Reach ValidList platform (settle two 3 r)) seed_lem
      (later two-Reach (greets network 3 4 seed guest refl refl))

abbrev guest_met : Peer Rows
guest_met = record guest {
  membership = (4, "udp") ∷ (3, "tcp") ∷ [];
  hashring = add_nodes platform guest.hashring (3 ∷ 4 ∷ []);
}

abbrev table : MembershipTable
table = (3, "tcp") ∷ (4, "udp") ∷ []

table-Distinct : Distinct table
unfolding get
table-Distinct = (refl, (refl, tt))

abbrev known : Cluster Rows
known = settle met 4 (done guest_met)

guest_lem : handle_incoming platform network guest 3 (gossip table) ≡ done guest_met
unfolding handle_incoming handle_gossip gossip_entries new_entries insert contains_key get contains
    get_predecessors add_nodes add_node add_vnodes new_peer HashRing.new BTreeMap.insert
    HashRing.vnode_hash Sets.insert HashRing.prev_node_hash BTreeMap.range_to get_old_data old_rows
guest_lem = refl

known-Reach : Reach ValidList platform known
unfolding with_node settle sent_of
known-Reach =
    subst (λ r. Reach ValidList platform (settle met 4 r)) guest_lem
      (later met-Reach (arrives network 4 3 guest (gossip table) [] [] refl refl))

abbrev guest_asked : Peer Rows
guest_asked = record guest_met {
  in_flight =
      ("r", record { needed = 2; received = 0; responder = true; lists = stored ∷ [] }) ∷ [];
  attempts = 1;
  sent = (4, replicate_list "r" stored true) ∷ [];
}

abbrev asked : Cluster Rows
asked = settle_started known 4 [] "r" (waiting_write guest_asked stored)

start_lem :
    start_proxy platform network 5 guest_met "r" (put_list stored)
    ≡ waiting_write guest_asked stored
unfolding start_proxy start_put get_replicas HashRing.get_preference_list add_nodes add_node
    add_vnodes new_peer HashRing.new BTreeMap.insert HashRing.vnode_hash BTreeMap.range_from
    contains Sets.insert send_write_replicate last send_writes send_to get contains_key insert
    remove HashRing.clockwise HashRing.hash HashRing.walk Failure.new in_flight_with quorom
    clear_peer_failure send_attempt key_of
start_lem = refl

asked-Reach : Reach ValidList platform asked
unfolding settle with_node
asked-Reach =
    subst (λ (r : Started Rows). Reach ValidList platform (settle_started known 4 [] "r" r))
      start_lem
      (later known-Reach
        (asks network 5 4 guest_met [] "r" (put_list stored) refl (milk-IsValid 1 2 0)))

-- The list is stored at the guest, and the client told so, before the seed has it.
abbrev put : Cluster Rows
put =
    settle (record asked { tasks = [] }) 4 (end_put platform network guest_asked [] "r" stored true)

put-Reach : Reach ValidList platform put
unfolding settle settle_started with_node
put-Reach = later asked-Reach (ends_put network 4 guest_asked [] "r" stored true [] [] refl refl)

Reach-ClusterSound_example : ClusterSound ValidList platform put
Reach-ClusterSound_example =
    Reach-ClusterSound ValidList platform (λ a b va vb. merge-IsValid a.list b.list va vb) put-Reach

guest-IsReady : IsReady guest_met
guest-IsReady = subst (EndsReady platform network) guest_lem (
    handle_incoming-EndsReady platform network guest 3 (gossip table)
      (new-IsReady platform 4 "udp" []) table-Distinct)

handle_incoming-EndsReady_example :
    EndsReady platform network (handle_incoming platform network guest 3 (gossip table))
handle_incoming-EndsReady_example =
    handle_incoming-EndsReady platform network guest 3 (gossip table)
      (new-IsReady platform 4 "udp" []) table-Distinct

start_proxy-returns_example :
    is_stuck (start_proxy platform network 1 guest_met "r" (put_list stored)) ≡ false
start_proxy-returns_example =
    start_proxy-returns platform network 0 guest_met "r" (put_list stored) guest-IsReady
