-- ===== src/HashRing/Stability.antt =====
-- Consistent hashing: which lists change their coordinator when a server comes or goes.
use sdle_shopping_list.Common.{
  ℕ, zero, suc, ◌+◌, ◌<◌, Uuid, eqb_iff, nat_eq, Option, none, some, List, [], ◌∷◌, ◌++◌, ◌≡◌, ◌⊎◌,
  inl, inr, refl, ap, ◌∙◌, arith,
}
use sdle_shopping_list.Common.Sets.{fresh, contains}
use sdle_shopping_list.BTreeMap.{BTreeMap, values, range_from, insert, remove}
use sdle_shopping_list.External.{Hashing}
use sdle_shopping_list.HashRing.{
  HashRing, clockwise, hash, vnode_hash, add_vnodes, remove_vnodes, add_node, get_coordinator,
}
use sdle_shopping_list.HashRing.Preference.{first_servers, get_preference_list_lem}

-- The server of the first entry.
abbrev pub first_value : BTreeMap Uuid → Option Uuid
first_value [] = none
first_value ((k, w) ∷ m) = some w

abbrev first_of : List Uuid → Option Uuid
first_of l = elim l [ [] ↦ none | id ∷ _ ↦ some id ]

abbrev or_else : Option Uuid → Option Uuid → Option Uuid
or_else none o = o
or_else (some a) o = some a

first_value-append :
    (xs ys : BTreeMap Uuid) → first_value (xs ++ ys) ≡ or_else (first_value xs) (first_value ys)
first_value-append [] ys = refl
first_value-append ((k, w) ∷ xs) ys = refl

-- The owner of a hash: the first server clockwise.
abbrev pub owner : BTreeMap Uuid → ℕ → Option Uuid
owner ring from = or_else (first_value (range_from ring from)) (first_value ring)

head_first : (n : ℕ) (m : BTreeMap Uuid) → 0 < n → first_of (first_servers n m) ≡ first_value m
unfolding fresh values contains
head_first (suc n) [] p = refl
head_first (suc n) ((k, w) ∷ m) p = refl
head_first zero m p = elim p [ ]

module _ (c : Hashing) where
  -- The coordinator of a list is the owner of its hash.
  pub get_coordinator_lem :
      (r : HashRing) (list_id : Uuid)
      → 0 < r.replicas
      → get_coordinator c r list_id ≡ owner r.ring (hash c (c.uuid_string list_id))
  unfolding get_coordinator clockwise
  get_coordinator_lem r list_id h =
      ap first_of (get_preference_list_lem c r list_id h)
      ∙ head_first r.replicas (clockwise r.ring (hash c (c.uuid_string list_id))) h
      ∙ first_value-append (range_from r.ring (hash c (c.uuid_string list_id))) r.ring

-- One virtual node more: the owner of a hash stays or is the new server.
range_first-insert :
    (ring : BTreeMap Uuid) (k : ℕ) (n : Uuid) (from : ℕ)
    → (first_value (range_from (insert ring k n) from) ≡ first_value (range_from ring from))
      ⊎ (first_value (range_from (insert ring k n) from) ≡ some n)
unfolding range_from insert
range_first-insert [] k n from = ground arith
range_first-insert ((j, w) ∷ ring) k n from = ground (arith, range_first-insert ring k n from)

first-insert :
    (ring : BTreeMap Uuid) (k : ℕ) (n : Uuid)
    → (first_value (insert ring k n) ≡ first_value ring) ⊎ (first_value (insert ring k n) ≡ some n)
unfolding insert
first-insert [] k n = inr refl
first-insert ((j, w) ∷ ring) k n = ground arith

owner-insert :
    (ring : BTreeMap Uuid) (k : ℕ) (n : Uuid) (from : ℕ)
    → (owner (insert ring k n) from ≡ owner ring from) ⊎ (owner (insert ring k n) from ≡ some n)
owner-insert ring k n from = ground (arith, range_first-insert ring k n from, first-insert ring k n)

-- The entries at a place are those of one server.
abbrev pub OwnsKey : Uuid → ℕ → BTreeMap Uuid → Type 0
OwnsKey n k [] = Unit
OwnsKey n k ((j, w) ∷ ring) = (j ≡ k → w ≡ n) × OwnsKey n k ring

-- One virtual node less: the owner of a hash stays unless it was the server that loses the node.
range_first-remove :
    (ring : BTreeMap Uuid) (k : ℕ) (n : Uuid) (from : ℕ)
    → OwnsKey n k ring
    → (first_value (range_from (remove ring k) from) ≡ first_value (range_from ring from))
      ⊎ (first_value (range_from ring from) ≡ some n)
unfolding range_from remove
range_first-remove [] k n from o = inl refl
range_first-remove ((j, w) ∷ ring) k n from o =
    ground (arith, range_first-remove ring k n from o.1, eqb_iff j k)

first-remove :
    (ring : BTreeMap Uuid) (k : ℕ) (n : Uuid)
    → OwnsKey n k ring
    → (first_value (remove ring k) ≡ first_value ring) ⊎ (first_value ring ≡ some n)
unfolding remove
first-remove [] k n o = inl refl
first-remove ((j, w) ∷ ring) k n o = ground (arith, first-remove ring k n o.1, eqb_iff j k)

owner-remove :
    (ring : BTreeMap Uuid) (k : ℕ) (n : Uuid) (from : ℕ)
    → OwnsKey n k ring
    → (owner (remove ring k) from ≡ owner ring from) ⊎ (owner ring from ≡ some n)
owner-remove ring k n from o =
    ground (arith, range_first-remove ring k n from o, first-remove ring k n o)

OwnsKey-remove :
    (n : Uuid) (k j : ℕ) (ring : BTreeMap Uuid) → OwnsKey n k ring → OwnsKey n k (remove ring j)
unfolding remove
OwnsKey-remove n k j [] o = tt
OwnsKey-remove n k j ((i, w) ∷ ring) o = ground (arith, OwnsKey-remove n k j ring o.1)

module _ (c : Hashing) where
  owner-add_vnodes :
      (n : Uuid) (i left : ℕ) (ring : BTreeMap Uuid) (from : ℕ)
      → (owner (add_vnodes c n i left ring) from ≡ owner ring from)
        ⊎ (owner (add_vnodes c n i left ring) from ≡ some n)
  unfolding add_vnodes
  owner-add_vnodes n i zero ring from = inl refl
  owner-add_vnodes n i (suc left) ring from = ground (
    arith,
    owner-add_vnodes n (i + 1) left (insert ring (vnode_hash c n i) n) from,
    owner-insert ring (vnode_hash c n i) n from,
  )

  -- With at least one replica, a server that joins the ring becomes the coordinator of a list or
  -- leaves the coordinator of that list as it was.
  pub add_node_moves :
      (r : HashRing) (n list_id : Uuid)
      → 0 < r.replicas
      → (get_coordinator c (add_node c r n) list_id ≡ get_coordinator c r list_id)
        ⊎ (get_coordinator c (add_node c r n) list_id ≡ some n)
  unfolding add_node
  add_node_moves r n list_id h = ground (
    arith,
    get_coordinator_lem c r list_id h,
    get_coordinator_lem c (record r { ring = add_vnodes c n 0 r.virtual_nodes r.ring }) list_id h,
    owner-add_vnodes n 0 r.virtual_nodes r.ring (hash c (c.uuid_string list_id)),
  )

  -- Every entry at a place of the server's first `left` virtual nodes from `i` on is the server's.
  abbrev pub OwnsPlaces : Uuid → ℕ → ℕ → BTreeMap Uuid → Type 0
  OwnsPlaces n i zero ring = Unit
  OwnsPlaces n i (suc left) ring =
      OwnsKey n (vnode_hash c n i) ring × OwnsPlaces n (i + 1) left ring

  OwnsPlaces-remove :
      (n : Uuid) (i left j : ℕ) (ring : BTreeMap Uuid)
      → OwnsPlaces n i left ring
      → OwnsPlaces n i left (remove ring j)
  OwnsPlaces-remove n i zero j ring o = tt
  OwnsPlaces-remove n i (suc left) j ring o =
      (OwnsKey-remove n (vnode_hash c n i) j ring o.0, OwnsPlaces-remove n (i + 1) left j ring o.1)

  pub owner-remove_vnodes :
      (n : Uuid) (i left : ℕ) (ring : BTreeMap Uuid) (from : ℕ)
      → OwnsPlaces n i left ring
      → (owner (remove_vnodes c n i left ring) from ≡ owner ring from) ⊎ (owner ring from ≡ some n)
  unfolding remove_vnodes
  owner-remove_vnodes n i zero ring from o = inl refl
  owner-remove_vnodes n i (suc left) ring from o = ground (
    arith,
    owner-remove_vnodes n (i + 1) left (remove ring (vnode_hash c n i)) from
        (OwnsPlaces-remove n (i + 1) left (vnode_hash c n i) ring o.1),
    owner-remove ring (vnode_hash c n i) n from o.0,
  )
