-- ===== src/HashRing/Preference.antt =====
-- The preference list is the first `replicas` distinct servers, clockwise from the list's hash.
use sdle_shopping_list.Common.{
  ℕ, zero, suc, ◌+◌, ◌<◌, min, length, take, Uuid, nat_eq, eqb, true, List, [], ◌∷◌, ◌++◌, ◌≡◌,
  refl, ap, sym, ◌∙◌, arith, ◌||◌, length-append, length-take,
}
use sdle_shopping_list.Common.Sets.{
  contains, IsNodup, insert, collect, fresh, contains-append, contains-insert, contains-collect,
  collect-IsNodup, contains-fresh, fresh-IsNodup, length-ext, take-contains, take-IsNodup,
}
use sdle_shopping_list.BTreeMap.{BTreeMap, values, range_from}
use sdle_shopping_list.External.{Hashing}
use sdle_shopping_list.HashRing.{
  HashRing, walk, clockwise, hash, get_preference_list, get_preference_list_hash, get_all_servers,
  server_count,
}

-- The specification: no loop state, no early exit.
abbrev pub first_servers : ℕ → BTreeMap Uuid → List Uuid
first_servers n entries = take n (fresh [] (values entries))

pub append-suc : (xs : List Uuid) (x : Uuid) (ys : List Uuid) → (xs ++ x ∷ []) ++ ys ≡ xs ++ x ∷ ys
append-suc [] x ys = refl
append-suc (z ∷ xs) x ys = ap (λ l. z ∷ l) (append-suc xs x ys)

pub append-nil : (xs : List Uuid) → xs ++ [] ≡ xs
append-nil [] = refl
append-nil (z ∷ xs) = ap (λ l. z ∷ l) (append-nil xs)

-- The set of seen servers may hold them in any order.
pub fresh-ext :
    (s t xs : List Uuid) → ((a : Uuid) → contains s a ≡ contains t a) → fresh s xs ≡ fresh t xs
unfolding fresh contains
fresh-ext s t [] h = refl
fresh-ext s t (x ∷ xs) h = ground (
  arith,
  h x,
  fresh-ext s t xs h,
  fresh-ext (x ∷ s) (x ∷ t) xs (λ a. ap (λ b. eqb x a || b) (h a)),
)

pub take-nil : (n : ℕ) → take {A = Uuid} n [] ≡ []
take-nil zero = refl
take-nil (suc n) = refl

walk_left :
    (left replicas : ℕ) (iter : BTreeMap Uuid) (list seen : List Uuid)
    → length list + suc left ≡ replicas
    → walk replicas iter list seen ≡ list ++ take (suc left) (fresh seen (values iter))
unfolding walk values fresh
walk_left left replicas [] list seen h = sym (append-nil list)
walk_left zero replicas ((k, id) ∷ iter) list seen h =
    ground (arith, length-append list (id ∷ []), walk_left zero replicas iter list seen)
walk_left (suc left) replicas ((k, id) ∷ iter) list seen h = ground (
  arith,
  length-append list (id ∷ []),
  walk_left (suc left) replicas iter list seen,
  walk_left left replicas iter (list ++ id ∷ []) (insert seen id),
  append-suc list id (take (suc left) (fresh (id ∷ seen) (values iter))),
  fresh-ext (insert seen id) (id ∷ seen) (values iter) (contains-insert seen id),
)

walk_lem :
    (replicas : ℕ) (iter : BTreeMap Uuid)
    → 0 < replicas
    → walk replicas iter [] [] ≡ first_servers replicas iter
walk_lem (suc left) iter h = walk_left left (suc left) iter [] [] (omega arith)
walk_lem zero iter h = elim h [ ]

pub values-append : (xs ys : BTreeMap Uuid) → values (xs ++ ys) ≡ values xs ++ values ys
unfolding values
values-append [] ys = refl
values-append ((k, w) ∷ xs) ys = ap (λ l. w ∷ l) (values-append xs ys)

contains-range_from :
    (ring : BTreeMap Uuid) (from : ℕ) (a : Uuid)
    → contains (values (range_from ring from)) a ≡ true
    → contains (values ring) a ≡ true
unfolding values range_from contains
contains-range_from [] from a h = h
contains-range_from ((k, w) ∷ ring) from a h = ground (arith, contains-range_from ring from a)

-- Going round from a hash meets the servers of the ring.
pub contains-clockwise :
    (ring : BTreeMap Uuid) (from : ℕ) (a : Uuid)
    → contains (values (clockwise ring from)) a ≡ contains (values ring) a
unfolding clockwise
contains-clockwise ring from a = ground (
  arith,
  ap (λ l. contains l a) (values-append (range_from ring from) ring),
  contains-append (values (range_from ring from)) (values ring) a,
  contains-range_from ring from a,
)

fresh_count :
    (r : HashRing) (from : ℕ) → length (fresh [] (values (clockwise r.ring from))) ≡ server_count r
unfolding server_count contains
fresh_count r from =
    length-ext (fresh [] (values (clockwise r.ring from))) (collect (values r.ring))
      (fresh-IsNodup [] (values (clockwise r.ring from))) (collect-IsNodup (values r.ring))
      (λ a.
        contains-fresh [] (values (clockwise r.ring from)) a
        ∙ contains-clockwise r.ring from a
        ∙ sym (contains-collect (values r.ring) a))

ring_walk :
    (replicas : ℕ) (ring : BTreeMap Uuid) (from : ℕ)
    → 0 < replicas
    → elim ring as (λ _. List Uuid) [ [] ↦ [] | _ ∷ _ ↦ walk replicas (clockwise ring from) [] [] ]
      ≡ first_servers replicas (clockwise ring from)
unfolding clockwise range_from values fresh
ring_walk replicas [] from h = sym (take-nil replicas)
ring_walk replicas (e ∷ ring) from h = walk_lem replicas (clockwise (e ∷ ring) from) h

-- The list for a hash is the first `replicas` distinct servers clockwise from it.
pub get_preference_list_hash_lem :
    (r : HashRing) (from : ℕ)
    → 0 < r.replicas
    → get_preference_list_hash r from ≡ first_servers r.replicas (clockwise r.ring from)
unfolding get_preference_list_hash
get_preference_list_hash_lem r from h = ring_walk r.replicas r.ring from h

module _ (c : Hashing) where
  -- With at least one replica, the list for a shopping list is the first distinct servers, as many
  -- as there are replicas, clockwise from the hash of its identifier.
  pub get_preference_list_lem :
      (r : HashRing) (list_id : Uuid)
      → 0 < r.replicas
      → get_preference_list c r list_id
        ≡ first_servers r.replicas (clockwise r.ring (hash c (c.uuid_string list_id)))
  unfolding get_preference_list
  get_preference_list_lem r list_id h =
      ring_walk r.replicas r.ring (hash c (c.uuid_string list_id)) h

  -- With at least one replica, the list for a shopping list names no server twice and only servers
  -- of the ring, and it is as long as the number of replicas or, if that is less, of the servers.
  pub preference_list_servers :
      (r : HashRing) (list_id : Uuid)
      → 0 < r.replicas
      → IsNodup (get_preference_list c r list_id)
        × (length (get_preference_list c r list_id) ≡ min r.replicas (server_count r))
        × ((a : Uuid)
            → contains (get_preference_list c r list_id) a ≡ true
            → contains (get_all_servers r) a ≡ true)
  unfolding get_all_servers contains
  preference_list_servers r list_id h =
      let from = hash c (c.uuid_string list_id) in
      let all = fresh [] (values (clockwise r.ring from)) in
      rw (get_preference_list_lem r list_id h) (
        take-IsNodup r.replicas all (fresh-IsNodup [] (values (clockwise r.ring from))),
        length-take r.replicas all ∙ ap (min r.replicas) (fresh_count r from),
        λ a m.
            contains-collect (values r.ring) a
            ∙ sym (contains-clockwise r.ring from a)
            ∙ sym (contains-fresh [] (values (clockwise r.ring from)) a)
            ∙ take-contains r.replicas all a m,
      )
