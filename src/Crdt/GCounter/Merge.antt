-- ===== src/Crdt/GCounter/Merge.antt =====
-- `GCounter::merge` is the join of the semilattice of counts: the specification is a function from
-- actors to counts, and the map that holds it is forgotten.
use sdle_shopping_list.Common.{
  ℕ, max, Uuid, nat_eq, eqb_iff, Option, none, some, [], ◌∷◌, ◌≡◌, fun_ext, arith,
}
use sdle_shopping_list.HashMap.{HashMap, get, insert, Distinct}
use sdle_shopping_list.HashMap.Laws.{get-insert, insert-Distinct}
use sdle_shopping_list.Crdt.GCounter.{GCounter, or_zero, merge_counts, merge}

-- The abstract counter: what each actor has counted, if anything.
abbrev pub Counts : Type 0
Counts = Uuid → Option ℕ

abbrev pub max_count : Option ℕ → Option ℕ → Option ℕ
max_count none o = o
max_count (some a) none = some a
max_count (some a) (some b) = some (max a b)

abbrev pub join : Counts → Counts → Counts
join f g id = max_count (f id) (g id)

abbrev pub counts : GCounter → Counts
counts g = get g.counter

pub get-merge_counts :
    (a b : HashMap Uuid ℕ) (id : Uuid)
    → Distinct b
    → get (merge_counts a b) id ≡ max_count (get a id) (get b id)
unfolding merge_counts get
get-merge_counts a [] id d = ground arith
get-merge_counts a ((i, n) ∷ b) id d = ground (
  arith,
  get-merge_counts (insert a i (max n (or_zero (get a i)))) b id d.1,
  get-insert a i (max n (or_zero (get a i))) id,
  eqb_iff i id,
)

pub merge_counts-Distinct : (a b : HashMap Uuid ℕ) → Distinct a → Distinct (merge_counts a b)
unfolding merge_counts
merge_counts-Distinct a [] d = d
merge_counts-Distinct a ((i, n) ∷ b) d =
    merge_counts-Distinct (insert a i _) b (insert-Distinct a i _ d)

-- A counter whose map has one entry for each actor.
abbrev pub IsValid : GCounter → Type 0
IsValid g = Distinct g.counter

pub merge-IsValid : (a b : GCounter) → IsValid a → IsValid (merge a b)
unfolding merge
merge-IsValid a b d = merge_counts-Distinct a.counter b.counter d

-- The counts of a merged counter are, for each actor, the larger of the two counts, if the second
-- counter is valid.
pub counts-merge : (a b : GCounter) → IsValid b → counts (merge a b) ≡ join (counts a) (counts b)
unfolding merge
counts-merge a b d = fun_ext λ id. get-merge_counts a.counter b.counter id d

-- The larger of two counts is missing only if the first one is.
pub max-none : (a b : Option ℕ) → max_count a b ≡ none → a ≡ none
max-none none b h = ground arith
max-none (some a) none h = h
max-none (some a) (some b) h = absurd (ground (arith, h))

pub join_comm : (f g : Counts) → join f g ≡ join g f
join_comm f g = fun_ext λ id. ground arith

pub join_assoc : (f g h : Counts) → join (join f g) h ≡ join f (join g h)
join_assoc f g h = fun_ext λ id. ground arith

pub join_idem : (f : Counts) → join f f ≡ f
join_idem f = fun_ext λ id. ground arith
