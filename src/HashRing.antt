-- ===== src/HashRing.antt =====
-- src/hash_ring.rs: the consistent hash ring. `print_ring` only prints.
pub mod Preference
pub mod Placement
pub mod Predecessors
pub mod Previous
pub mod Stability
pub mod Members
pub mod Neighbours
pub mod Tests
use Prim.Native.String.{◌++◌ as append}
use sdle_shopping_list.Common.{
  ℕ, zero, suc, ◌+◌, ◌/◌, ◌%◌, ◌^◌, ◌==◌, nat_eq, ltb, leb, eqb, length, Uuid, String, Bool, true,
  false, Option, none, some, List, [], ◌∷◌, ◌++◌, if◌then◌else◌, not, ◌&&◌,
}
use sdle_shopping_list.Common.Sets.{contains, insert as insert_set, collect}
use sdle_shopping_list.Common.Text.Decimal.{decimal}
use sdle_shopping_list.BTreeMap
use sdle_shopping_list.BTreeMap.{BTreeMap}
use sdle_shopping_list.External.{Hashing}

abbrev pub vnodes : ℕ
vnodes = 3

abbrev pub replicas_count : ℕ
replicas_count = 3

abbrev pub write_nodes : ℕ
write_nodes = 2

abbrev pub read_nodes : ℕ
read_nodes = 2

pub record HashRing : Type 0 where
  pub ring : BTreeMap Uuid
  pub virtual_nodes : ℕ
  pub replicas : ℕ

unfoldable pub new : ℕ → ℕ → HashRing
new virtual_nodes replicas = record {
  ring = [];
  virtual_nodes = virtual_nodes;
  replicas = replicas;
}

-- The entries that a walk over the ring visits: clockwise from a hash, and then once round.
unfoldable pub clockwise : BTreeMap Uuid → ℕ → BTreeMap Uuid
clockwise ring hash = BTreeMap.range_from ring hash ++ ring

-- The loop of `get_preference_list`: the list so far, and the servers seen.
unfoldable pub walk : ℕ → BTreeMap Uuid → List Uuid → List Uuid → List Uuid
walk replicas [] preference_list seen = preference_list
walk replicas ((_, node_id) ∷ iter) preference_list seen = elim (contains seen node_id) [
  | true ↦ walk replicas iter preference_list seen
  | false ↦
      let longer = preference_list ++ node_id ∷ [] in
      elim (leb replicas (length longer)) [
        | true ↦ longer
        | false ↦ walk replicas iter longer (insert_set seen node_id)
      ]
]

unfoldable pub get_preference_list_hash : HashRing → ℕ → List Uuid
unfolding walk clockwise
get_preference_list_hash r hash = elim r.ring [
  | [] ↦ []
  | _ ∷ _ ↦ walk r.replicas (clockwise r.ring hash) [] []
]

unfoldable pub get_all_servers : HashRing → List Uuid
get_all_servers r = collect (BTreeMap.values r.ring)

unfoldable pub server_count : HashRing → ℕ
unfolding get_all_servers
server_count r = length (get_all_servers r)

-- The hashes of the virtual nodes of a server, in the order of the ring.
unfoldable pub vnodes_of : BTreeMap Uuid → Uuid → List ℕ
vnodes_of [] node_id = []
vnodes_of ((hash, id) ∷ ring) node_id =
    let rest = vnodes_of ring node_id in if id == node_id then hash ∷ rest else rest

-- `vnodes.sort_unstable(); vnodes[0]`
unfoldable pub least : List ℕ → Option ℕ
least [] = none
least (h ∷ hs) = elim (least hs) [ none ↦ some h | some k ↦ some (if ltb k h then k else h) ]

-- The loop of `next_node`: the first server that is another one.
unfoldable pub first_other : BTreeMap Uuid → Uuid → Option Uuid
first_other [] node_id = none
first_other ((_, id) ∷ iter) node_id = if id == node_id then first_other iter node_id else some id

abbrev pub u128_mod : ℕ
u128_mod = 2 ^ 128

unfoldable pub next_node : HashRing → Uuid → Option Uuid
unfolding vnodes_of least first_other clockwise
next_node r node_id = elim (least (vnodes_of r.ring node_id)) [
  | none ↦ none
  | some start ↦ first_other (clockwise r.ring ((start + 1) % u128_mod)) node_id
]

-- `.iter().next_back()`
unfoldable pub last_key : BTreeMap Uuid → Option ℕ
last_key [] = none
last_key ((h, id) ∷ m) = elim (last_key m) [ none ↦ some h | some k ↦ some k ]

unfoldable pub prev_node_hash : HashRing → Uuid → Option ℕ
unfolding vnodes_of last_key
prev_node_hash r node_id = elim (vnodes_of r.ring node_id) [
  | [] ↦ none
  | node_hash ∷ _ ↦ elim (last_key (BTreeMap.range_to r.ring node_hash)) [
    | none ↦ last_key r.ring
    | some h ↦ some h
  ]
]

-- The loop of `get_predecessors` over the reversed ring.
unfoldable pub back_walk : ℕ → Uuid → BTreeMap Uuid → List Uuid → List Uuid → List Uuid
back_walk replicas node_id [] predecessors seen = predecessors
back_walk replicas node_id ((_, id) ∷ iter) predecessors seen =
    elim (not (id == node_id) && not (contains seen id)) [
      | false ↦ back_walk replicas node_id iter predecessors seen
      | true ↦
          let longer = predecessors ++ id ∷ [] in
          elim (leb replicas (length longer)) [
            | true ↦ longer
            | false ↦ back_walk replicas node_id iter longer (insert_set seen id)
          ]
    ]

unfoldable pub reverse_ring : BTreeMap Uuid → BTreeMap Uuid
reverse_ring [] = []
reverse_ring (e ∷ m) = reverse_ring m ++ e ∷ []

unfoldable pub get_predecessors : HashRing → Uuid → List Uuid
unfolding back_walk reverse_ring
get_predecessors r node_id = back_walk r.replicas node_id (reverse_ring r.ring) [] []

module _ (c : Hashing) where
  open c use {uuid_string, md5}

  unfoldable pub hash : String → ℕ
  hash key = md5 key

  -- The place of the virtual node `i` of a server: `format!("{}-{}", node_id, i)`, hashed.
  unfoldable pub vnode_hash : Uuid → ℕ → ℕ
  unfolding hash decimal
  vnode_hash node_id i = hash (append (uuid_string node_id) (append "-" (decimal (suc i) i)))

  -- The loop of `add_node` from the virtual node `i`, with `left` of them to go.
  unfoldable pub add_vnodes : Uuid → ℕ → ℕ → BTreeMap Uuid → BTreeMap Uuid
  add_vnodes node_id i zero ring = ring
  add_vnodes node_id i (suc left) ring =
      add_vnodes node_id (i + 1) left (BTreeMap.insert ring (vnode_hash node_id i) node_id)

  unfoldable pub remove_vnodes : Uuid → ℕ → ℕ → BTreeMap Uuid → BTreeMap Uuid
  remove_vnodes node_id i zero ring = ring
  remove_vnodes node_id i (suc left) ring =
      remove_vnodes node_id (i + 1) left (BTreeMap.remove ring (vnode_hash node_id i))

  unfoldable pub add_node : HashRing → Uuid → HashRing
  add_node r node_id = record r { ring = add_vnodes node_id 0 r.virtual_nodes r.ring }

  unfoldable pub remove_node : HashRing → Uuid → HashRing
  remove_node r node_id = record r { ring = remove_vnodes node_id 0 r.virtual_nodes r.ring }

  unfoldable pub get_preference_list : HashRing → Uuid → List Uuid
  unfolding walk clockwise hash
  get_preference_list r list_id = elim r.ring [
    | [] ↦ []
    | _ ∷ _ ↦ walk r.replicas (clockwise r.ring (hash (uuid_string list_id))) [] []
  ]

  unfoldable pub get_coordinator : HashRing → Uuid → Option Uuid
  get_coordinator r list_id = elim (get_preference_list r list_id) [ [] ↦ none | id ∷ _ ↦ some id ]
