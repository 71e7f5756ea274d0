-- ===== src/HashRing/Tests.antt =====
-- A ring of three servers with two virtual nodes each, and the theorems at it.
use sdle_shopping_list.Common.{
  ℕ, zero, suc, ◌<◌, ◌≢◌, min, length, take, ◌≤◌, Uuid, nat_eq, true, false, some, [], ◌∷◌, ◌≡◌,
  ◌⊎◌, refl, arith,
}
use sdle_shopping_list.Common.Sets.{
  contains, IsNodup, insert as insert_set, collect, fresh, without,
}
use sdle_shopping_list.BTreeMap
use sdle_shopping_list.HashRing.{
  HashRing, new, add_vnodes, vnode_hash, hash, clockwise, add_node, remove_node, walk,
  get_preference_list, get_coordinator, get_all_servers, server_count, get_predecessors,
  reverse_ring, prev_node_hash, least, vnodes_of, next_node,
}
use sdle_shopping_list.HashRing.Preference.{
  first_servers, get_preference_list_lem, preference_list_servers,
}
use sdle_shopping_list.HashRing.Predecessors.{get_predecessors_lem}
use sdle_shopping_list.HashRing.Previous.{has_key, prev_node_hash_lem}
use sdle_shopping_list.HashRing.Stability.{add_node_moves}
use sdle_shopping_list.HashRing.Neighbours.{next_node_lem}
use sdle_shopping_list.HashRing.Placement.{
  IsValid, Apart, new-IsValid, add_node-IsValid, remove_node_moves, remove_node_gone,
}
use sdle_shopping_list.Sample.{hashing, unary}

unfoldable pub ring : HashRing
ring = add_node hashing (add_node hashing (add_node hashing (new 2 2) 1) 2) 3

ring-IsValid : IsValid hashing ring
unfolding ring
ring-IsValid =
    add_node-IsValid hashing _ 3
      (add_node-IsValid hashing _ 2 (add_node-IsValid hashing _ 1 (new-IsValid hashing 2 2)))

-- The ring runs: list 7 has server 3 for its coordinator and server 1 for its other replica.
ring_entries : (get_preference_list hashing ring 7 ≡ 3 ∷ 1 ∷ []) × (server_count ring ≡ 3)
unfolding ring new add_node add_vnodes vnode_hash BTreeMap.insert BTreeMap.range_from
    BTreeMap.values clockwise walk get_preference_list hash insert_set contains server_count collect
ring_entries = (refl, refl)

pub ring_coordinator : get_coordinator hashing ring 7 ≡ some 3
unfolding ring new add_node add_vnodes vnode_hash BTreeMap.insert BTreeMap.range_from
    BTreeMap.values clockwise walk get_preference_list hash insert_set contains get_coordinator
ring_coordinator = refl

pub two_replicas : 0 < ring.replicas
unfolding ring new add_node
two_replicas = omega arith

get_preference_list_example :
    get_preference_list hashing ring 7
    ≡ first_servers ring.replicas (clockwise ring.ring (hash hashing (unary 7)))
get_preference_list_example = get_preference_list_lem hashing ring 7 two_replicas

preference_list_servers_example :
    IsNodup (get_preference_list hashing ring 7)
    × (length (get_preference_list hashing ring 7) ≡ min ring.replicas (server_count ring))
    × ((a : Uuid)
        → contains (get_preference_list hashing ring 7) a ≡ true
        → contains (get_all_servers ring) a ≡ true)
preference_list_servers_example = preference_list_servers hashing ring 7 two_replicas

add_node_moves_example :
    (get_coordinator hashing (add_node hashing ring 4) 7 ≡ get_coordinator hashing ring 7)
    ⊎ (get_coordinator hashing (add_node hashing ring 4) 7 ≡ some 4)
add_node_moves_example = add_node_moves hashing ring 4 7 two_replicas

add_node-IsValid_example : IsValid hashing (add_node hashing ring 4)
add_node-IsValid_example = add_node-IsValid hashing ring 4 ring-IsValid

below_two : (P : ℕ → Type 0) → P 0 → P 1 → (i : ℕ) → i < 2 → P i
below_two P p q zero h = p
below_two P p q (suc zero) h = q
below_two P p q (suc (suc i)) h = absurd (omega arith)

-- The four places of two servers differ.
apart :
    (w n : Uuid)
    → (vnode_hash hashing w 0 ≢ vnode_hash hashing n 0)
    → (vnode_hash hashing w 0 ≢ vnode_hash hashing n 1)
    → (vnode_hash hashing w 1 ≢ vnode_hash hashing n 0)
    → (vnode_hash hashing w 1 ≢ vnode_hash hashing n 1)
    → (i j : ℕ) → i < 2
    → j < 2
    → vnode_hash hashing w i ≡ vnode_hash hashing n j
    → w ≡ n
apart w n a b c d i j hi hj =
    below_two (λ i. vnode_hash hashing w i ≡ vnode_hash hashing n j → w ≡ n)
      (below_two (λ j. vnode_hash hashing w 0 ≡ vnode_hash hashing n j → w ≡ n) (λ e. absurd (a e))
        (λ e. absurd (b e)) j hj)
      (below_two (λ j. vnode_hash hashing w 1 ≡ vnode_hash hashing n j → w ≡ n) (λ e. absurd (c e))
        (λ e. absurd (d e)) j hj)
      i hi

apart_3 :
    (i j : ℕ) → i < 2 → j < 2 → vnode_hash hashing 3 i ≡ vnode_hash hashing 2 j → ◌≡◌ {A = Uuid} 3 2
unfolding vnode_hash
apart_3 = apart 3 2 (omega arith) (omega arith) (omega arith) (omega arith)

apart_1 :
    (i j : ℕ) → i < 2 → j < 2 → vnode_hash hashing 1 i ≡ vnode_hash hashing 2 j → ◌≡◌ {A = Uuid} 1 2
unfolding vnode_hash
apart_1 = apart 1 2 (omega arith) (omega arith) (omega arith) (omega arith)

ring-Apart : Apart hashing 2 ring.virtual_nodes ring.ring
unfolding ring new add_node add_vnodes vnode_hash BTreeMap.insert
ring-Apart =
    ((λ i j p q e. refl), (apart_3, (apart_3, (apart_1, (apart_1, ((λ i j p q e. refl), tt))))))

-- A ring of one server, before server 2 joins it.
unfoldable pub ring_one : HashRing
ring_one = add_node hashing (new 2 2) 1

pub ring_one-IsValid : IsValid hashing ring_one
unfolding ring_one
ring_one-IsValid = add_node-IsValid hashing _ 1 (new-IsValid hashing 2 2)

pub ring_one-Apart : Apart hashing 2 ring_one.virtual_nodes ring_one.ring
unfolding ring_one new add_node add_vnodes vnode_hash BTreeMap.insert
ring_one-Apart = (apart_1, (apart_1, tt))

remove_node_moves_example :
    (get_coordinator hashing (remove_node hashing ring 2) 7 ≡ get_coordinator hashing ring 7)
    ⊎ (get_coordinator hashing ring 7 ≡ some 2)
remove_node_moves_example = remove_node_moves hashing ring 2 7 two_replicas ring-IsValid ring-Apart

ring_servers :
    (contains (get_all_servers ring) 2 ≡ true) × (contains (get_all_servers ring) 3 ≡ true)
unfolding ring new add_node add_vnodes vnode_hash BTreeMap.insert BTreeMap.values contains
    get_all_servers collect insert_set
ring_servers = (refl, refl)

next_node_example :
    (k : Uuid) × (next_node ring 2 ≡ some k) × (k ≢ 2) × (contains (get_all_servers ring) k ≡ true)
next_node_example = next_node_lem ring 2 3 ring_servers.0 ring_servers.1 (omega arith)

remove_node_gone_example : contains (get_all_servers (remove_node hashing ring 2)) 2 ≡ false
remove_node_gone_example = remove_node_gone hashing ring 2 ring-IsValid

-- Server 2 has the two other servers before it.
get_predecessors_example :
    (get_predecessors ring 2
      ≡ take ring.replicas (fresh (2 ∷ []) (BTreeMap.values (reverse_ring ring.ring))))
    × IsNodup (get_predecessors ring 2)
    × (length (get_predecessors ring 2)
        ≡ min ring.replicas (length (without (get_all_servers ring) 2)))
    × ((a : Uuid)
        → contains (get_predecessors ring 2) a ≡ true
        → (contains (get_all_servers ring) a ≡ true) × (a ≢ 2))
get_predecessors_example = get_predecessors_lem ring 2 two_replicas

-- The first place of server 2.
abbrev place_2 : ℕ
place_2 = 1

first_of_2 : least (vnodes_of ring.ring 2) ≡ some place_2
unfolding ring new add_node add_vnodes vnode_hash BTreeMap.insert vnodes_of least
first_of_2 = refl

prev_node_hash_example :
    (h : ℕ) × (prev_node_hash ring 2 ≡ some h)
    × (has_key ring.ring h ≡ true)
    × (((h < place_2) × ((k : ℕ) → has_key ring.ring k ≡ true → k < place_2 → k ≤ h))
        ⊎ ((k : ℕ) → has_key ring.ring k ≡ true → place_2 ≤ k × k ≤ h))
prev_node_hash_example = prev_node_hash_lem ring 2 place_2 (ring-IsValid.sorted) first_of_2
