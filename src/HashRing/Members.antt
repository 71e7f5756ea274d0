-- ===== src/HashRing/Members.antt =====
-- Which servers a ring has after one more has joined.
use sdle_shopping_list.Common.{
  ℕ, zero, suc, ◌+◌, ◌<◌, ltb, Uuid, eqb_iff, nat_eq, ◌||◌, ◌&&◌, [], ◌∷◌, ◌≡◌, refl, ◌==◌, arith,
}
use sdle_shopping_list.Common.Sets.{contains, contains-collect}
use sdle_shopping_list.BTreeMap.{BTreeMap, values, insert}
use sdle_shopping_list.External.{Hashing}
use sdle_shopping_list.HashRing.{HashRing, vnode_hash, add_vnodes, add_node, get_all_servers}
use sdle_shopping_list.HashRing.Stability.{OwnsKey, OwnsPlaces}
use sdle_shopping_list.HashRing.Placement.{IsValid, Apart, owns_places}

values-insert :
    (ring : BTreeMap Uuid) (k : ℕ) (n u : Uuid)
    → OwnsKey n k ring
    → contains (values (insert ring k n)) u ≡ (n == u || contains (values ring) u)
unfolding insert values contains
values-insert [] k n u o = refl
values-insert ((j, w) ∷ ring) k n u o =
    ground (arith, values-insert ring k n u o.1, eqb_iff j k, eqb_iff k j, eqb_iff n u, eqb_iff w u)

OwnsKey-insert :
    (n : Uuid) (k j : ℕ) (ring : BTreeMap Uuid) → OwnsKey n k ring → OwnsKey n k (insert ring j n)
unfolding insert
OwnsKey-insert n k j [] o = ((λ e. refl), tt)
OwnsKey-insert n k j ((i, w) ∷ ring) o = ground (arith, OwnsKey-insert n k j ring o.1)

module _ (c : Hashing) where
  OwnsPlaces-insert :
      (n : Uuid) (i left j : ℕ) (ring : BTreeMap Uuid)
      → OwnsPlaces c n i left ring
      → OwnsPlaces c n i left (insert ring j n)
  OwnsPlaces-insert n i zero j ring o = tt
  OwnsPlaces-insert n i (suc left) j ring o =
      (OwnsKey-insert n (vnode_hash c n i) j ring o.0, OwnsPlaces-insert n (i + 1) left j ring o.1)

  values-add_vnodes :
      (n u : Uuid) (i left : ℕ) (ring : BTreeMap Uuid)
      → OwnsPlaces c n i left ring
      → contains (values (add_vnodes c n i left ring)) u
        ≡ (ltb 0 left && n == u || contains (values ring) u)
  unfolding add_vnodes
  values-add_vnodes n u i zero ring o = refl
  values-add_vnodes n u i (suc left) ring o = ground (
    arith,
    values-add_vnodes n u (i + 1) left (insert ring (vnode_hash c n i) n)
        (OwnsPlaces-insert n (i + 1) left (vnode_hash c n i) ring o.1),
    values-insert ring (vnode_hash c n i) n u o.0,
  )

  -- The servers of a valid ring after one more has joined, at places that are no other server's:
  -- that one, and those of before.
  pub add_node_members :
      (r : HashRing) (n u : Uuid)
      → 0 < r.virtual_nodes
      → IsValid c r
      → Apart c n r.virtual_nodes r.ring
      → contains (get_all_servers (add_node c r n)) u ≡ (n == u || contains (get_all_servers r) u)
  unfolding add_node get_all_servers
  add_node_members r n u h v a = ground (
    arith,
    contains-collect (values (add_vnodes c n 0 r.virtual_nodes r.ring)) u,
    contains-collect (values r.ring) u,
    values-add_vnodes n u 0 r.virtual_nodes r.ring
        (owns_places c r.virtual_nodes n 0 r.virtual_nodes r.ring (omega arith) v.placed a),
  )
