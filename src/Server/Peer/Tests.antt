-- ===== src/Server/Peer/Tests.antt =====
-- Servers that gossip, search and store, and the theorems at them.
use sdle_shopping_list.Common.{
  ◌+◌, min, length, Uuid, nat_eq, string_eq, true, false, none, some, [], ◌∷◌, ◌≡◌, refl, arith,
}
use sdle_shopping_list.Common.Sets.{contains, IsNodup, insert as insert_set}
use sdle_shopping_list.Common.Result.{ok}
use sdle_shopping_list.BTreeMap
use sdle_shopping_list.HashMap.{get, insert, remove, contains_key, keys}
use sdle_shopping_list.HashRing
use sdle_shopping_list.HashRing.{
  HashRing, next_node, vnodes_of, least, first_other, clockwise, hash, server_count, vnode_hash,
  prev_node_hash, get_predecessors, add_vnodes, add_node, last_key, back_walk, reverse_ring,
}
use sdle_shopping_list.HashRing.Tests as RingTests
use sdle_shopping_list.Storage.Server.{
  delete_shopping_list, hinted_rows, decode_handoff, get_hinted_handoffs, key_of, get_shopping_list,
  write_shopping_list, write_shopping_list_handoff, get_old_data, old_rows, in_old_range,
}
use sdle_shopping_list.Storage.Tests.{db, db', db-IsKeyed, stored, incoming, key_7}
use sdle_shopping_list.Sample.{platform, Rows}
use sdle_shopping_list.Server.Failure
use sdle_shopping_list.Server.Message.{MembershipTable, merge_list, ack_list, replicate_list}
use sdle_shopping_list.Server.Peer.{
  Network, sent_ok, passed_on, no_socket, send_to, send_attempt, clear_peer_failure, Peer,
  add_nodes, get_replicas, next_available, is_peer_available,
}
use sdle_shopping_list.Server.Peer.Handlers.{
  done, is_blocked, new_entries, gossip_entries, handle_gossip, handle_incoming, hinted_handoff,
  handle_handoff, deliver,
}
use sdle_shopping_list.Server.Peer.Delivery.{IsSafe, hinted_handoff-IsSafe}
use sdle_shopping_list.Server.Peer.Delivery.Promise.{IsHandedOver}
use sdle_shopping_list.Server.Peer.Delivery.Kept.{handoff_delivered}
use sdle_shopping_list.Storage.Server.Writes.{stored_row}
use sdle_shopping_list.Server.Peer.Startup.{failure_detection}
use sdle_shopping_list.Server.Peer.Detection.{WritesPings, failed_send_blocks}
use sdle_shopping_list.Server.Peer.Tables.{
  known_or, handle_gossip_members, handle_gossip_blocked, get_replicas_lem,
}
use sdle_shopping_list.Server.Peer.Search.{next_available_never}
use sdle_shopping_list.Server.Peer.Invariant.{KeepsKeys, handle_incoming-KeepsKeys}
use sdle_shopping_list.Server.Peer.Requests.{
  waiting_write, start_put, end_put, send_write_replicate, send_writes, last, in_flight_with,
  quorom,
}
use sdle_shopping_list.Server.Peer.Answers.{seen, is_told, after_acks, put_answered}

abbrev pub network : Network
network = record {
  outcome = λ n addr msg. sent_ok;
  now = λ n. n;
  to_client = λ n client msg. passed_on;
  choose = λ n us. elim us [ [] ↦ none | u ∷ _ ↦ some u ];
}

abbrev peer : Uuid → Peer Rows
peer uuid = record {
  uuid = uuid;
  addr = "tcp";
  storage = db;
  membership = (uuid, "tcp") ∷ [];
  hashring = RingTests.ring;
  failure = record { peers = [] };
  in_flight = [];
  attempts = 0;
  sent = [];
  to_proxy = [];
}

get_replicas_example :
    (contains (get_replicas platform (peer 3) 7) 3 ≡ false)
    × IsNodup (get_replicas platform (peer 3) 7)
    × (length (get_replicas platform (peer 3) 7) + 1
        ≡ min RingTests.ring.replicas (server_count RingTests.ring))
get_replicas_example =
    get_replicas_lem platform network (peer 3) 7 3 RingTests.two_replicas RingTests.ring_coordinator

-- A ring on which servers 2 and 3, that server 1 does not know, follow each other.
abbrev entries : BTreeMap.BTreeMap Uuid
entries = (10, 1) ∷ (20, 2) ∷ (30, 3) ∷ (40, 2) ∷ (50, 1) ∷ []

abbrev lonely : Peer Rows
lonely = record (peer 1) { hashring = record { ring = entries; virtual_nodes = 3; replicas = 3 } }

abbrev friendly : Peer Rows
friendly = record lonely { membership = (1, "tcp") ∷ (3, "tcp") ∷ [] }

found : next_available 3 friendly 1 1 ≡ some (ok 3)
unfolding next_available next_node is_peer_available contains_key get BTreeMap.range_from
    Failure.is_available
found = refl

next_available_never_example : next_available 100 lonely 1 2 ≡ none
unfolding next_node is_peer_available contains_key get BTreeMap.range_from
next_available_never_example =
    next_available_never 100 lonely 1 2 3 refl refl refl refl (omega arith) (omega arith)

handle_incoming_example :
    KeepsKeys platform network (handle_incoming platform network (peer 1) 2 (merge_list incoming))
handle_incoming_example =
    handle_incoming-KeepsKeys platform network (peer 1) 2 (merge_list incoming) db-IsKeyed

-- Server 3 coordinates list 7, and has server 1 for a replica.
abbrev coordinator : Peer Rows
coordinator = record (peer 3) { membership = (1, "tcp1") ∷ [] }

abbrev waiting : Peer Rows
waiting = record coordinator {
  in_flight =
      ("r", record { needed = 2; received = 0; responder = true; lists = incoming ∷ [] }) ∷ [];
  attempts = 1;
  sent = (1, replicate_list "r" incoming true) ∷ [];
}

put_started : start_put platform network 5 coordinator "r" incoming ≡ waiting_write waiting incoming
unfolding start_put get_replicas RingTests.ring HashRing.get_preference_list add_node add_vnodes
    HashRing.new BTreeMap.insert vnode_hash BTreeMap.range_from contains insert_set
    send_write_replicate last send_writes send_to get in_flight_with clear_peer_failure contains_key
    insert remove clockwise hash HashRing.walk quorom send_attempt
put_started = refl

put_answered_example :
    seen "r" (
      end_put platform network
        (after_acks 2 waiting "r")
        (9 ∷ [])
        "r"
        incoming
        (is_told (after_acks 2 waiting "r") "r"))
    ≡ (true, db', (9 ∷ [], ack_list "" incoming) ∷ [], false)
unfolding write_shopping_list get_shopping_list get insert remove key_of
put_answered_example =
    put_answered platform network 5 2 coordinator waiting (9 ∷ []) "r" incoming put_started

-- Server 3 learns of server 2, and has nothing to hand over.
abbrev table : MembershipTable
table = (3, "tcp") ∷ (2, "tcp2") ∷ []

abbrev alone : Uuid → Peer Rows
alone uuid = record (peer uuid) { hashring = add_node platform.hashing (HashRing.new 3 3) uuid }

abbrev joined : Peer Rows
joined = record (alone 3) {
  hashring = add_nodes platform (alone 3).hashring (keys table);
  membership = (3, "tcp") ∷ (2, "tcp2") ∷ [];
}

gossip_done : handle_gossip platform network (alone 3) table ≡ done joined
unfolding handle_gossip gossip_entries new_entries insert contains_key get contains get_predecessors
    add_nodes add_node add_vnodes HashRing.new BTreeMap.insert vnode_hash insert_set prev_node_hash
    BTreeMap.range_to get_old_data old_rows in_old_range key_of remove
gossip_done = refl

handle_gossip_members_example :
    ((u : Uuid) → get joined.membership u ≡ known_or (alone 3).membership table u)
    × (joined.hashring ≡ add_nodes platform (alone 3).hashring (keys table))
    × (joined.storage ≡ (alone 3).storage)
    × (joined.in_flight ≡ (alone 3).in_flight)
    × (joined.sent ≡ (alone 3).sent)
unfolding get
handle_gossip_members_example =
    handle_gossip_members platform network (alone 3) joined table (refl, (refl, tt)) gossip_done

-- Server 1 learns of server 2, which stands before it on the ring, and has a list to hand over.
handle_gossip_blocked_example :
    is_blocked (handle_gossip platform network (alone 1) ((2, "tcp2") ∷ [])) ≡ true
unfolding contains_key get contains get_predecessors add_nodes add_node add_vnodes HashRing.new
    BTreeMap.insert vnode_hash insert_set prev_node_hash BTreeMap.range_to get_old_data old_rows
    in_old_range key_of remove
handle_gossip_blocked_example =
    handle_gossip_blocked platform network (alone 1) ((2, "tcp2") ∷ []) 2 40 stored [] refl refl
      refl refl refl

-- No socket to any server.
abbrev cut_off : Network
cut_off = record network { outcome = λ n addr msg. no_socket }

cut_off-WritesPings : WritesPings cut_off
cut_off-WritesPings n addr = ground arith

failed_send_blocks_example :
    is_blocked (failure_detection cut_off (send_to cut_off (peer 1) 1 (merge_list incoming)).0)
    ≡ true
unfolding send_to send_attempt get
failed_send_blocks_example =
    failed_send_blocks cut_off cut_off-WritesPings (peer 1) 1 (merge_list incoming) refl
      (λ addr. ground arith) (λ addr. ground arith)

-- A list that is kept for server 1, which server 2 hands over.
abbrev keeper : Peer Rows
keeper = record (peer 2) {
  storage = (key_7, stored_row platform incoming (some (platform.uuid_string 1))) ∷ [];
  membership = (1, "tcp") ∷ [];
}

handed_over : (hinted_handoff platform network ("r" ∷ []) keeper).storage ≡ []
unfolding hinted_handoff deliver get_hinted_handoffs hinted_rows decode_handoff remove send_to get
    delete_shopping_list clear_peer_failure contains_key key_of
handed_over = refl

hinted_handoff-IsSafe_example :
    IsSafe platform
      ((1, incoming) ∷ [])
      key_7
      keeper
      (hinted_handoff platform network ("r" ∷ []) keeper)
unfolding get_hinted_handoffs hinted_rows decode_handoff remove
hinted_handoff-IsSafe_example =
    hinted_handoff-IsSafe platform network ("r" ∷ []) keeper ((1, incoming) ∷ []) key_7 refl

-- Server 2 holds a replica of the list, and is asked to keep the list for server 1.
abbrev replica : Peer Rows
replica = record (peer 2) { membership = (1, "tcp") ∷ [] }

handoff_delivered_example : IsHandedOver platform network 1 incoming (
    hinted_handoff platform network
      ("r" ∷ [])
      (handle_handoff platform network replica 1 "h" incoming 1))
unfolding get_hinted_handoffs hinted_rows decode_handoff remove get contains_key
    write_shopping_list_handoff insert key_of get_shopping_list
handoff_delivered_example =
    handoff_delivered platform network (λ n addr msg. refl) (λ t k. ground arith) replica 1 "h"
      incoming 1 ((key_7, stored_row platform incoming (some (platform.uuid_string 1))) ∷ [])
      ((1, incoming) ∷ []) ("r" ∷ []) db-IsKeyed refl refl (ground arith) (refl, tt)
