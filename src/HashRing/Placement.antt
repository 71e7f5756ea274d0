-- ===== src/HashRing/Placement.antt =====
-- Each entry of the ring stands at the hash of a virtual node of its server; so `remove_node` takes
-- all entries of a server, and nothing of the other servers where hashes do not collide.
use sdle_shopping_list.Common.{
  ℕ, zero, suc, ◌+◌, ◌<◌, ◌≤◌, Uuid, eqb, eqb_iff, nat_eq, false, some, [], ◌∷◌, ◌≡◌, ◌⊎◌, inl, inr,
  refl, sym, ap, subst, ◌∙◌, arith, All, All-imp, Bool-cases,
}
use sdle_shopping_list.Common.Sets.{contains, contains-collect}
use native.Mathlib.Nat.{add-zero}
use sdle_shopping_list.BTreeMap.{BTreeMap, values, insert, remove, IsSorted}
use sdle_shopping_list.BTreeMap.Laws.{insert-IsSorted, remove-IsSorted, insert-All, remove-All}
use sdle_shopping_list.External.{Hashing}
use sdle_shopping_list.HashRing.{
  HashRing, new, hash, vnode_hash, add_vnodes, remove_vnodes, add_node, remove_node,
  get_coordinator, get_all_servers,
}
use sdle_shopping_list.HashRing.Stability.{
  OwnsKey, OwnsPlaces, owner-remove_vnodes, get_coordinator_lem,
}

module _ (c : Hashing) where
  abbrev PlacedEntry : ℕ → ℕ × Uuid → Type 0
  PlacedEntry v e = (i : ℕ) × (i < v) × (e.0 ≡ vnode_hash c e.1 i)

  abbrev pub IsPlaced : ℕ → BTreeMap Uuid → Type 0
  IsPlaced v ring = All (PlacedEntry v) ring

  -- The invariant of a ring: in order, and each entry at a virtual node of its server.
  pub record IsValid (r : HashRing) : Type 0 where
    pub sorted : IsSorted r.ring
    pub placed : IsPlaced r.virtual_nodes r.ring

  add_vnodes-IsValid :
      (v : ℕ) (n : Uuid) (i left : ℕ) (ring : BTreeMap Uuid)
      → i + left ≤ v
      → IsSorted ring
      → IsPlaced v ring
      → IsSorted (add_vnodes c n i left ring) × IsPlaced v (add_vnodes c n i left ring)
  unfolding add_vnodes
  add_vnodes-IsValid v n i zero ring h s p = (s, p)
  add_vnodes-IsValid v n i (suc left) ring h s p =
      add_vnodes-IsValid v n (i + 1) left (insert ring (vnode_hash c n i) n) (omega arith)
        (insert-IsSorted ring (vnode_hash c n i) n s)
        (insert-All (PlacedEntry v) ring (vnode_hash c n i) n (i, omega arith, refl) p)

  remove_vnodes-IsValid :
      (v : ℕ) (n : Uuid) (i left : ℕ) (ring : BTreeMap Uuid)
      → IsSorted ring
      → IsPlaced v ring
      → IsSorted (remove_vnodes c n i left ring) × IsPlaced v (remove_vnodes c n i left ring)
  unfolding remove_vnodes
  remove_vnodes-IsValid v n i zero ring s p = (s, p)
  remove_vnodes-IsValid v n i (suc left) ring s p =
      remove_vnodes-IsValid v n (i + 1) left (remove ring (vnode_hash c n i))
        (remove-IsSorted ring (vnode_hash c n i) s)
        (remove-All (PlacedEntry v) ring (vnode_hash c n i) p)

  pub new-IsValid : (v n : ℕ) → IsValid (new v n)
  unfolding new
  new-IsValid v n = record { sorted = tt; placed = tt }

  -- Adding a server to a valid ring keeps the ring in order and every entry in its place.
  pub add_node-IsValid : (r : HashRing) (n : Uuid) → IsValid r → IsValid (add_node c r n)
  unfolding add_node
  add_node-IsValid r n v =
      let (s, p) =
        add_vnodes-IsValid r.virtual_nodes n 0 r.virtual_nodes r.ring (omega arith) v.sorted
          v.placed in
      record { sorted = s; placed = p }

  pub remove_node-IsValid : (r : HashRing) (n : Uuid) → IsValid r → IsValid (remove_node c r n)
  unfolding remove_node
  remove_node-IsValid r n v =
      let (s, p) =
        remove_vnodes-IsValid r.virtual_nodes n 0 r.virtual_nodes r.ring v.sorted v.placed in
      record { sorted = s; placed = p }

  -- What is left of a server's entries after the rounds before `i`: those of later virtual nodes.
  abbrev Later : ℕ → ℕ → Uuid → ℕ × Uuid → Type 0
  Later i v n e = e.1 ≡ n → (j : ℕ) × (i ≤ j) × (j < v) × (e.0 ≡ vnode_hash c n j)

  Later-step :
      (v : ℕ) (n : Uuid) (i : ℕ) (e : ℕ × Uuid)
      → eqb e.0 (vnode_hash c n i) ≡ false
      → Later i v n e
      → Later (i + 1) v n e
  Later-step v n i e ne l h =
      let (j, from, lt, at) = l h in
      (j, ground (arith, at, ap (vnode_hash c n) {x = i} {y = j}, eqb_iff i j), lt, at)

  remove-Later :
      (v : ℕ) (n : Uuid) (i : ℕ) (ring : BTreeMap Uuid)
      → All (Later i v n) ring
      → All (Later (i + 1) v n) (remove ring (vnode_hash c n i))
  unfolding remove
  remove-Later v n i [] a = tt
  remove-Later v n i ((k, w) ∷ ring) a = elim (Bool-cases (eqb k (vnode_hash c n i))) [
    | inl e ↦ rw e (remove-Later v n i ring a.1)
    | inr e ↦ rw e (Later-step v n i (k, w) e a.0, remove-Later v n i ring a.1)
  ]

  remove_vnodes-Later :
      (v : ℕ) (n : Uuid) (i left : ℕ) (ring : BTreeMap Uuid)
      → All (Later i v n) ring
      → All (Later (i + left) v n) (remove_vnodes c n i left ring)
  unfolding remove_vnodes
  remove_vnodes-Later v n i zero ring a = rw add-zero a
  remove_vnodes-Later v n i (suc left) ring a =
      subst
        (λ (k : ℕ).
          All (Later k v n) (remove_vnodes c n (i + 1) left (remove ring (vnode_hash c n i))))
        (omega arith)
        (remove_vnodes-Later v n (i + 1) left (remove ring (vnode_hash c n i))
          (remove-Later v n i ring a))

  none-Later :
      (v : ℕ) (n : Uuid) (ring : BTreeMap Uuid)
      → All (Later v v n) ring
      → contains (values ring) n ≡ false
  unfolding contains values
  none-Later v n [] a = refl
  none-Later v n ((k, w) ∷ ring) a = elim (Bool-cases (eqb w n)) [
    | inl e ↦ let (j, from, lt, at) = a.0 ((eqb_iff w n).0 e) in absurd (omega arith)
    | inr e ↦ rw e (none-Later v n ring a.1)
  ]

  placed-Later : (v : ℕ) (n : Uuid) (e : ℕ × Uuid) → PlacedEntry v e → Later 0 v n e
  placed-Later v n e (i, lt, at) h =
      (i, omega arith, lt, at ∙ ap (λ (u : Uuid). vnode_hash c u i) h)

  -- A server that leaves a valid ring has no entry left there.
  pub remove_node_gone :
      (r : HashRing) (n : Uuid)
      → IsValid r
      → contains (get_all_servers (remove_node c r n)) n ≡ false
  unfolding remove_node get_all_servers
  remove_node_gone r n v =
      contains-collect (values (remove_vnodes c n 0 r.virtual_nodes r.ring)) n
      ∙ none-Later r.virtual_nodes n (remove_vnodes c n 0 r.virtual_nodes r.ring) (
          subst
            (λ (k : ℕ).
              All (Later k r.virtual_nodes n) (remove_vnodes c n 0 r.virtual_nodes r.ring))
            (omega arith)
            (remove_vnodes-Later r.virtual_nodes n 0 r.virtual_nodes r.ring
              (All-imp (placed-Later r.virtual_nodes n) r.ring v.placed)))

  -- The virtual nodes of a server collide with those of no other server of the ring.
  abbrev pub Apart : Uuid → ℕ → BTreeMap Uuid → Type 0
  Apart n v [] = Unit
  Apart n v ((k, w) ∷ ring) =
      ((i j : ℕ) → i < v → j < v → vnode_hash c w i ≡ vnode_hash c n j → w ≡ n) × Apart n v ring

  owns_key :
      (v : ℕ) (n : Uuid) (j : ℕ) (ring : BTreeMap Uuid)
      → j < v
      → IsPlaced v ring
      → Apart n v ring
      → OwnsKey n (vnode_hash c n j) ring
  owns_key v n j [] h p a = tt
  owns_key v n j ((k, w) ∷ ring) h p a =
      (λ e. let (i, lt, at) = p.0 in a.0 i j lt h (sym at ∙ e), owns_key v n j ring h p.1 a.1)

  pub owns_places :
      (v : ℕ) (n : Uuid) (i left : ℕ) (ring : BTreeMap Uuid)
      → i + left ≤ v
      → IsPlaced v ring
      → Apart n v ring
      → OwnsPlaces c n i left ring
  owns_places v n i zero ring h p a = tt
  owns_places v n i (suc left) ring h p a =
      (owns_key v n i ring (omega arith) p a, owns_places v n (i + 1) left ring (omega arith) p a)

  -- With at least one replica, on a valid ring and without a collision between the places of the
  -- server and of another one, a server that leaves leaves the coordinator of a list as it was,
  -- unless it was that coordinator itself.
  pub remove_node_moves :
      (r : HashRing) (n list_id : Uuid)
      → 0 < r.replicas
      → IsValid r
      → Apart n r.virtual_nodes r.ring
      → (get_coordinator c (remove_node c r n) list_id ≡ get_coordinator c r list_id)
        ⊎ (get_coordinator c r list_id ≡ some n)
  unfolding remove_node
  remove_node_moves r n list_id h v a = ground (
    arith,
    get_coordinator_lem c r list_id h,
    get_coordinator_lem c (record r { ring = remove_vnodes c n 0 r.virtual_nodes r.ring }) list_id
        h,
    owner-remove_vnodes c n 0 r.virtual_nodes r.ring (hash c (c.uuid_string list_id))
        (owns_places r.virtual_nodes n 0 r.virtual_nodes r.ring (omega arith) v.placed a),
  )
