-- ===== src/HashRing/Previous.antt =====
-- What `prev_node_hash` finds.
use sdle_shopping_list.Common.{
  ℕ, zero, suc, ◌+◌, ◌<◌, ◌≤◌, ltb, eqb, eqb_iff, length, take, Uuid, nat_eq, Bool, true, false,
  ◌&&◌, ◌||◌, Option, none, some, List, [], ◌∷◌, ◌++◌, ◌≡◌, ◌⊎◌, inl, inr, refl, ap, sym, ◌∙◌,
  arith, length-append, Bool-cases, if◌then◌else◌, some_inj,
}
use sdle_shopping_list.Common.Sets.{contains, insert, fresh, contains-insert}
use sdle_shopping_list.BTreeMap.{BTreeMap, values, range_to, IsSorted, Above}
use sdle_shopping_list.HashRing.{HashRing, back_walk, vnodes_of, least, last_key, prev_node_hash}
use sdle_shopping_list.HashRing.Preference.{append-suc, append-nil, fresh-ext}

back_walk_left :
    (left replicas : ℕ) (n : Uuid) (iter : BTreeMap Uuid) (list seen : List Uuid)
    → length list + suc left ≡ replicas
    → back_walk replicas n iter list seen ≡ list ++ take (suc left) (fresh (n ∷ seen) (values iter))
unfolding back_walk values fresh contains
back_walk_left left replicas n [] list seen h = sym (append-nil list)
back_walk_left zero replicas n ((k, id) ∷ iter) list seen h = ground (
  arith,
  eqb_iff id n,
  eqb_iff n id,
  length-append list (id ∷ []),
  back_walk_left zero replicas n iter list seen,
)
back_walk_left (suc left) replicas n ((k, id) ∷ iter) list seen h = ground (
  arith,
  eqb_iff id n,
  eqb_iff n id,
  length-append list (id ∷ []),
  back_walk_left (suc left) replicas n iter list seen,
  back_walk_left left replicas n iter (list ++ id ∷ []) (insert seen id),
  append-suc list id (take (suc left) (fresh (id ∷ n ∷ seen) (values iter))),
  fresh-ext (n ∷ insert seen id) (id ∷ n ∷ seen) (values iter) (swapped seen id),
)
  where
    swapped :
        (seen : List Uuid) (id a : Uuid)
        → contains (n ∷ insert seen id) a ≡ contains (id ∷ n ∷ seen) a
    swapped seen id a = ground (arith, contains-insert seen id a)

-- A key of an ordered map.
abbrev pub has_key : BTreeMap Uuid → ℕ → Bool
has_key [] k = false
has_key ((j, _) ∷ m) k = eqb j k || has_key m k

Above-has_key : (j k : ℕ) (m : BTreeMap Uuid) → Above j m → has_key m k ≡ true → j < k
Above-has_key j k [] a h = absurd (ground (arith, h))
Above-has_key j k ((i, _) ∷ m) a h = ground (arith, Above-has_key j k m a.1, eqb_iff i k)

has_key-range_to :
    (m : BTreeMap Uuid) (to k : ℕ) → has_key (range_to m to) k ≡ (ltb k to && has_key m k)
unfolding range_to
has_key-range_to [] to k = ground arith
has_key-range_to ((j, w) ∷ m) to k = ground (arith, has_key-range_to m to k, eqb_iff j k)

range_to-Above : (b : ℕ) (m : BTreeMap Uuid) (to : ℕ) → Above b m → Above b (range_to m to)
unfolding range_to
range_to-Above b [] to a = tt
range_to-Above b ((j, w) ∷ m) to a = ground (arith, range_to-Above b m to a.1)

range_to-IsSorted : (m : BTreeMap Uuid) (to : ℕ) → IsSorted m → IsSorted (range_to m to)
unfolding range_to
range_to-IsSorted [] to s = tt
range_to-IsSorted ((j, w) ∷ m) to s =
    ground (arith, range_to-IsSorted m to s.1, range_to-Above j m to s.0)

-- The last key is the greatest; there is none in an empty map.
abbrev IsGreatest : BTreeMap Uuid → ℕ → Type 0
IsGreatest m h = (has_key m h ≡ true) × ((k : ℕ) → has_key m k ≡ true → k ≤ h)

last_key_lem :
    (m : BTreeMap Uuid)
    → IsSorted m
    → ((last_key m ≡ none) × ((k : ℕ) → has_key m k ≡ false))
      ⊎ ((h : ℕ) × (last_key m ≡ some h) × IsGreatest m h)
unfolding last_key
last_key_lem [] s = inl (refl, λ k. refl)
last_key_lem ((j, w) ∷ m) s = elim (last_key_lem m s.1) [
  | inl (e, empty) ↦
      inr (
        j,
        rw e refl,
        (ground (arith, eqb_iff j j), λ k g. ground (arith, eqb_iff j k, empty k, g)),
      )
  | inr (h, e, (there, most)) ↦ inr (
    h,
    rw e refl,
    (
      ground (arith, there),
      λ k g. ground (arith, eqb_iff j k, most k, Above-has_key j h m s.0 there, g),
    ),
  )
]

-- The least of a place and of those behind it.
or_less : ℕ → Option ℕ → ℕ
or_less j none = j
or_less j (some k) = if ltb k j then k else j

least-cons : (j : ℕ) (hs : List ℕ) → least (j ∷ hs) ≡ some (or_less j (least hs))
unfolding least or_less
least-cons j hs = go (least hs) refl
  where
    go : (o : Option ℕ) → least hs ≡ o → least (j ∷ hs) ≡ some (or_less j o)
    go none e = rw (e, least) refl
    go (some k) e = rw (e, least) refl

or_less_either : (j : ℕ) (o : Option ℕ) → (or_less j o ≡ j) ⊎ (o ≡ some (or_less j o))
unfolding or_less
or_less_either j none = inl refl
or_less_either j (some k) = elim (Bool-cases (ltb k j)) [
  | inl h ↦ inr (rw h refl)
  | inr h ↦ inl (rw h refl)
]

or_less_bound : (j : ℕ) (o : Option ℕ) → or_less j o ≤ j
unfolding or_less
or_less_bound j none = omega arith
or_less_bound j (some k) = ground arith

chosen :
    (j p : ℕ) (id : Uuid) (m : BTreeMap Uuid) (n : Uuid)
    → eqb id n ≡ true
    → least (vnodes_of ((j, id) ∷ m) n) ≡ some p
    → or_less j (least (vnodes_of m n)) ≡ p
unfolding vnodes_of
chosen j p id m n own h = some_inj (sym (least-cons j (vnodes_of m n)) ∙ (rw own at h))

-- The first place of a server is a place of the ring.
least-has_key :
    (m : BTreeMap Uuid) (n : Uuid) (p : ℕ) → least (vnodes_of m n) ≡ some p → has_key m p ≡ true
unfolding vnodes_of least
least-has_key [] n p h = absurd (ground (arith, h))
least-has_key ((j, id) ∷ m) n p h = elim (Bool-cases (eqb id n)) [
  | inl own ↦
      let c = chosen j p id m n own h in
      elim (or_less_either j (least (vnodes_of m n))) [
        | inl e ↦ ground (arith, eqb_iff j p, sym e ∙ c)
        | inr e ↦ ground (arith, least-has_key m n p (e ∙ ap some c))
      ]
  | inr other ↦ ground (arith, least-has_key m n p (rw other at h))
]

least-Above :
    (b p : ℕ) (m : BTreeMap Uuid) (n : Uuid) → Above b m → least (vnodes_of m n) ≡ some p → b < p
least-Above b p m n a h = Above-has_key b p m a (least-has_key m n p h)

-- In a ring in order, the first place of a server is the first one on the way round.
first_place :
    (m : BTreeMap Uuid) (n : Uuid) (p : ℕ)
    → IsSorted m
    → least (vnodes_of m n) ≡ some p
    → (ps : List ℕ) × (vnodes_of m n ≡ p ∷ ps)
unfolding least vnodes_of
first_place [] n p s h = absurd (ground (arith, h))
first_place ((j, id) ∷ m) n p s h = elim (Bool-cases (eqb id n)) [
  | inl own ↦ (vnodes_of m n, rw own (ap (λ q. q ∷ vnodes_of m n) (own_first own)))
  | inr other ↦ let (ps, e) = first_place m n p s.1 (rw other at h) in (ps, rw (other, e) refl)
]
  where
    own_first : eqb id n ≡ true → j ≡ p
    own_first own =
        let c = chosen j p id m n own h in
        elim (or_less_either j (least (vnodes_of m n))) [
          | inl e ↦ sym e ∙ c
          | inr e ↦ absurd (
              ground (
                arith,
                least-Above j p m n s.0 (e ∙ ap some c),
                c,
                or_less_bound j (least (vnodes_of m n)),
              ))
        ]

-- For a server with a first place on a ring in order, the hash of the node before it exists and is
-- a place of the ring: the greatest one below the first place of the server or, if there is none
-- below, the greatest of all.
pub prev_node_hash_lem :
    (r : HashRing) (n : Uuid) (p : ℕ)
    → IsSorted r.ring
    → least (vnodes_of r.ring n) ≡ some p
    → (h : ℕ) × (prev_node_hash r n ≡ some h)
      × (has_key r.ring h ≡ true)
      × (((h < p) × ((k : ℕ) → has_key r.ring k ≡ true → k < p → k ≤ h))
          ⊎ ((k : ℕ) → has_key r.ring k ≡ true → p ≤ k × k ≤ h))
unfolding prev_node_hash
prev_node_hash_lem r n p s first =
    let (ps, e) = first_place r.ring n p s first in
    elim (last_key_lem (range_to r.ring p) (range_to-IsSorted r.ring p s)) [
      | inl (none_before, empty) ↦ elim (last_key_lem r.ring s) [
        | inl (_, no_key) ↦ absurd (ground (arith, no_key p, least-has_key r.ring n p first))
        | inr (h, last, (there, most)) ↦ (
          h,
          rw (prev_node_hash, e, none_before) last,
          there,
          inr (λ k g. (ground (arith, has_key-range_to r.ring p k, empty k, g), most k g)),
        )
      ]
      | inr (h, last, (there, most)) ↦ (
        h,
        rw (prev_node_hash, e, last) refl,
        ground (arith, has_key-range_to r.ring p h, there),
        inl (
          ground (arith, has_key-range_to r.ring p h, there),
          λ k g below. most k (ground (arith, has_key-range_to r.ring p k, g, below)),
        ),
      )
    ]
