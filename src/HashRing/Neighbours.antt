-- ===== src/HashRing/Neighbours.antt =====
-- The server that `next_node` finds.
use sdle_shopping_list.Common.{
  ℕ, ◌+◌, ◌%◌, Uuid, nat_eq, eqb, eqb_iff, true, false, Option, none, some, [], ◌∷◌, ◌≡◌, ◌≢◌, refl,
  ◌∙◌, sym, arith,
}
use sdle_shopping_list.Common.Sets.{contains, contains-collect}
use sdle_shopping_list.BTreeMap.{BTreeMap, values}
use sdle_shopping_list.HashRing.{
  HashRing, next_node, vnodes_of, least, first_other, clockwise, get_all_servers, u128_mod,
}
use sdle_shopping_list.HashRing.Preference.{contains-clockwise}

first_other_found :
    (iter : BTreeMap Uuid) (n m : Uuid)
    → first_other iter n ≡ some m
    → (eqb m n ≡ false) × (contains (values iter) m ≡ true)
unfolding first_other values contains
first_other_found [] n m h = absurd (ground arith)
first_other_found ((k, id) ∷ iter) n m h = ground (arith, first_other_found iter n m, eqb_iff id m)

first_other_finds :
    (iter : BTreeMap Uuid) (n m : Uuid)
    → eqb m n ≡ false
    → contains (values iter) m ≡ true
    → first_other iter n ≢ none
unfolding first_other values contains
first_other_finds [] n m e c = ground arith
first_other_finds ((k, id) ∷ iter) n m e c =
    ground (arith, first_other_finds iter n m, eqb_iff id m)

-- A server of the ring has a first place.
least_found :
    (ring : BTreeMap Uuid) (n : Uuid)
    → contains (values ring) n ≡ true
    → least (vnodes_of ring n) ≢ none
unfolding least vnodes_of values contains
least_found [] n c = absurd (ground arith)
least_found ((k, id) ∷ ring) n c = ground (arith, least_found ring n)

-- The next node is another server of the ring.
pub next_node_found :
    (r : HashRing) (n m : Uuid)
    → next_node r n ≡ some m
    → (m ≢ n) × (contains (get_all_servers r) m ≡ true)
unfolding next_node get_all_servers
next_node_found r n m h = found (least (vnodes_of r.ring n)) refl
  where
    found :
        (o : Option ℕ)
        → least (vnodes_of r.ring n) ≡ o
        → (m ≢ n) × (contains (get_all_servers r) m ≡ true)
    found none e = absurd (ground (arith, rw (e, next_node) at h))
    found (some start) e =
        let from = (start + 1) % u128_mod in
        let (other, c) = first_other_found (clockwise r.ring from) n m (rw (e, next_node) at h) in
        (
          ground (arith, eqb_iff m n),
          contains-collect (values r.ring) m ∙ sym (contains-clockwise r.ring from m) ∙ c,
        )

next_node_finds :
    (r : HashRing) (n m : Uuid)
    → contains (values r.ring) n ≡ true
    → contains (values r.ring) m ≡ true
    → m ≢ n
    → next_node r n ≢ none
unfolding next_node
next_node_finds r n m on c other none_found = finds (least (vnodes_of r.ring n)) refl
  where
    finds : (o : Option ℕ) → least (vnodes_of r.ring n) ≡ o → ⊥
    finds none e = least_found r.ring n on e
    finds (some start) e =
        let from = (start + 1) % u128_mod in
        first_other_finds (clockwise r.ring from) n m (ground (arith, eqb_iff m n))
          (contains-clockwise r.ring from m ∙ c) (rw (e, next_node) at none_found)

-- For a server of the ring, if the ring has another one, the next node exists, is another server,
-- and is on the ring.
pub next_node_lem :
    (r : HashRing) (n m : Uuid)
    → contains (get_all_servers r) n ≡ true
    → contains (get_all_servers r) m ≡ true
    → m ≢ n
    → (k : Uuid) × (next_node r n ≡ some k) × (k ≢ n) × (contains (get_all_servers r) k ≡ true)
unfolding get_all_servers
next_node_lem r n m on c other = found (next_node r n) refl
  where
    found :
        (o : Option Uuid)
        → next_node r n ≡ o
        → (k : Uuid) × (next_node r n ≡ some k) × (k ≢ n) × (contains (get_all_servers r) k ≡ true)
    found none e = absurd (
        next_node_finds r n m (sym (contains-collect (values r.ring) n) ∙ on)
          (sym (contains-collect (values r.ring) m) ∙ c) other e)
    found (some k) e = let (diff, there) = next_node_found r n k e in (k, e, diff, there)
