-- ===== src/Server/Peer/Ready/Ring.antt =====
-- The servers of a ring whose address a membership table has.
use sdle_shopping_list.Common.{
  ℕ, zero, suc, ◌+◌, Uuid, String, nat_eq, string_eq, eqb_iff, ◌⊎◌, true, List, [], ◌∷◌, ◌≡◌, All,
  arith,
}
use sdle_shopping_list.BTreeMap.{BTreeMap}
use sdle_shopping_list.BTreeMap.Laws.{insert-All, remove-All}
use sdle_shopping_list.HashMap.{get, contains_key, insert, keys}
use sdle_shopping_list.HashMap.Laws.{get-insert}
use sdle_shopping_list.HashRing
use sdle_shopping_list.HashRing.{add_vnodes, remove_vnodes, vnode_hash, get_predecessors}
use sdle_shopping_list.External.{Platform}
use sdle_shopping_list.Server.Message.{MembershipTable}
use sdle_shopping_list.Server.Peer.{add_nodes}
use sdle_shopping_list.Server.Peer.Tables.{known_or}

-- Every entry of a ring is of a server in the table.
abbrev pub Known : MembershipTable → ℕ × Uuid → Type 0
Known m e = contains_key m e.1 ≡ true

pub insert-Known :
    (m : MembershipTable) (u v : Uuid) (addr : String)
    → contains_key m v ≡ true
    → contains_key (insert m u addr) v ≡ true
unfolding contains_key
insert-Known m u v addr h = ground (arith, get-insert m u addr v)

pub known_of :
    (m table after : MembershipTable) (u : Uuid)
    → get after u ≡ known_or m table u
    → (contains_key m u ≡ true) ⊎ (contains_key table u ≡ true)
    → contains_key after u ≡ true
unfolding contains_key
known_of m table after u e h = ground (arith, e, h)

pub single_key :
    (u : Uuid) (addr : String) (t : MembershipTable) → contains_key ((u, addr) ∷ t) u ≡ true
unfolding contains_key get
single_key u addr t = ground (arith, eqb_iff u u)

pub later_key :
    (u v : Uuid) (addr : String) (t : MembershipTable)
    → contains_key t v ≡ true
    → contains_key ((u, addr) ∷ t) v ≡ true
unfolding contains_key get
later_key u v addr t h = ground (arith, h)

pub keys-All :
    (table m : MembershipTable)
    → ((u : Uuid) → contains_key table u ≡ true → contains_key m u ≡ true)
    → All (λ u. contains_key m u ≡ true) (keys table)
keys-All [] m f = tt
keys-All ((u, addr) ∷ table) m f =
    (f u (single_key u addr table), keys-All table m (λ v h. f v (later_key u v addr table h)))

module _ (x : Platform) where
  pub add_vnodes-Known :
      (m : MembershipTable) (n : Uuid) (i left : ℕ) (ring : BTreeMap Uuid)
      → contains_key m n ≡ true
      → All (Known m) ring
      → All (Known m) (add_vnodes x.hashing n i left ring)
  unfolding add_vnodes
  add_vnodes-Known m n i zero ring h a = a
  add_vnodes-Known m n i (suc left) ring h a =
      add_vnodes-Known m n (i + 1) left _ h (insert-All (Known m) ring _ n h a)

  pub remove_vnodes-Known :
      (m : MembershipTable) (n : Uuid) (i left : ℕ) (ring : BTreeMap Uuid)
      → All (Known m) ring
      → All (Known m) (remove_vnodes x.hashing n i left ring)
  unfolding remove_vnodes
  remove_vnodes-Known m n i zero ring a = a
  remove_vnodes-Known m n i (suc left) ring a =
      remove_vnodes-Known m n (i + 1) left _ (remove-All (Known m) ring _ a)

  pub add_nodes-Known :
      (m : MembershipTable) (r : HashRing.HashRing) (nodes : List Uuid)
      → All (λ n. contains_key m n ≡ true) nodes
      → All (Known m) r.ring
      → All (Known m) (add_nodes x r nodes).ring
  unfolding add_nodes HashRing.add_node
  add_nodes-Known m r [] h a = a
  add_nodes-Known m r (n ∷ nodes) h a =
      add_nodes-Known m (HashRing.add_node x.hashing r n) nodes h.1
        (add_vnodes-Known m n 0 r.virtual_nodes r.ring h.0 a)
