-- ===== src/HashRing/Predecessors.antt =====
-- What `get_predecessors` finds.
use sdle_shopping_list.Common.{
  ℕ, zero, suc, ◌+◌, ◌<◌, eqb_iff, min, length, take, Uuid, nat_eq, true, List, [], ◌∷◌, ◌++◌, ◌≡◌,
  ◌≢◌, refl, ap, sym, ◌∙◌, arith, length-append, length-take,
}
use sdle_shopping_list.Common.Sets.{
  contains, IsNodup, insert, collect, fresh, without, contains-append, contains-insert,
  contains-collect, contains-without, collect-IsNodup, without-IsNodup, contains-fresh,
  fresh-IsNodup, length-ext, take-contains, take-IsNodup,
}
use sdle_shopping_list.BTreeMap.{BTreeMap, values}
use sdle_shopping_list.HashRing.{
  HashRing, back_walk, reverse_ring, get_predecessors, get_all_servers,
}
use sdle_shopping_list.HashRing.Preference.{append-suc, append-nil, fresh-ext, values-append}

back_walk_left :
    (left replicas : ℕ) (n : Uuid) (iter : BTreeMap Uuid) (list seen : List Uuid)
    → length list + suc left ≡ replicas
    → back_walk replicas n iter list seen ≡ list ++ take (suc left) (fresh (n ∷ seen) (values iter))
unfolding back_walk values fresh contains
back_walk_left left replicas n [] list seen h = sym (append-nil list)
back_walk_left zero replicas n ((k, id) ∷ iter) list seen h = ground (
  arith,
  eqb_iff id n,
  eqb_iff n id,
  length-append list (id ∷ []),
  back_walk_left zero replicas n iter list seen,
)
back_walk_left (suc left) replicas n ((k, id) ∷ iter) list seen h = ground (
  arith,
  eqb_iff id n,
  eqb_iff n id,
  length-append list (id ∷ []),
  back_walk_left (suc left) replicas n iter list seen,
  back_walk_left left replicas n iter (list ++ id ∷ []) (insert seen id),
  append-suc list id (take (suc left) (fresh (id ∷ n ∷ seen) (values iter))),
  fresh-ext (n ∷ insert seen id) (id ∷ n ∷ seen) (values iter) (swapped seen id),
)
  where
    swapped :
        (seen : List Uuid) (id a : Uuid)
        → contains (n ∷ insert seen id) a ≡ contains (id ∷ n ∷ seen) a
    swapped seen id a = ground (arith, contains-insert seen id a)

walked :
    (replicas : ℕ) (n : Uuid) (iter : BTreeMap Uuid)
    → 0 < replicas
    → back_walk replicas n iter [] [] ≡ take replicas (fresh (n ∷ []) (values iter))
walked (suc left) n iter h = back_walk_left left (suc left) n iter [] [] (omega arith)
walked zero n iter h = elim h [ ]

contains-reverse :
    (ring : BTreeMap Uuid) (a : Uuid)
    → contains (values (reverse_ring ring)) a ≡ contains (values ring) a
unfolding values reverse_ring contains
contains-reverse [] a = refl
contains-reverse ((k, id) ∷ ring) a = ground (
  arith,
  ap (λ l. contains l a) (values-append (reverse_ring ring) ((k, id) ∷ [])),
  contains-append (values (reverse_ring ring)) (id ∷ []) a,
  contains-reverse ring a,
)

module _ (r : HashRing) (n : Uuid) where
  -- The other servers, from the end of the ring.
  abbrev others : List Uuid
  others = fresh (n ∷ []) (values (reverse_ring r.ring))

  contains-others : (a : Uuid) → contains others a ≡ contains (without (get_all_servers r) n) a
  unfolding get_all_servers contains
  contains-others a = ground (
    arith,
    contains-fresh (n ∷ []) (values (reverse_ring r.ring)) a,
    contains-without (collect (values r.ring)) n a,
    contains-collect (values r.ring) a,
    contains-reverse r.ring a,
  )

  others_count : length others ≡ length (without (get_all_servers r) n)
  unfolding get_all_servers
  others_count =
      length-ext others (without (collect (values r.ring)) n)
        (fresh-IsNodup (n ∷ []) (values (reverse_ring r.ring)))
        (without-IsNodup (collect (values r.ring)) n (collect-IsNodup (values r.ring)))
        contains-others

  found-contains :
      (a : Uuid)
      → contains (take r.replicas others) a ≡ true
      → (contains (get_all_servers r) a ≡ true) × (a ≢ n)
  found-contains a m =
      let there = sym (contains-others a) ∙ take-contains r.replicas others a m in
      ground (arith, there, contains-without (get_all_servers r) n a, eqb_iff n a)

  get_predecessors_walk : 0 < r.replicas → get_predecessors r n ≡ take r.replicas others
  unfolding get_predecessors
  get_predecessors_walk h = walked r.replicas n (reverse_ring r.ring) h

  -- With at least one replica, the predecessors of a server are the first distinct other servers
  -- from the end of the ring, as many as there are replicas: no server twice and not the server
  -- itself, only servers of the ring, and as many as the replicas or, if that is less, the other
  -- servers.
  pub get_predecessors_lem :
      0 < r.replicas
      → (get_predecessors r n ≡ take r.replicas (fresh (n ∷ []) (values (reverse_ring r.ring))))
        × IsNodup (get_predecessors r n)
        × (length (get_predecessors r n) ≡ min r.replicas (length (without (get_all_servers r) n)))
        × ((a : Uuid)
            → contains (get_predecessors r n) a ≡ true
            → (contains (get_all_servers r) a ≡ true) × (a ≢ n))
  get_predecessors_lem h = rw (get_predecessors_walk h) (
    refl,
    take-IsNodup r.replicas others (fresh-IsNodup (n ∷ []) (values (reverse_ring r.ring))),
    length-take r.replicas others ∙ ap (min r.replicas) others_count,
    found-contains,
  )
