-- ===== src/Crdt/GCounter/Value.antt =====
-- The values of a counter: `value_total` is read off the counts, an increment adds to it, and merging
-- a counter with its own increment is the increment.
use sdle_shopping_list.Common.{
  ℕ, ◌+◌, ◌%◌, ◌≤◌, ◌<◌, nat_eq, eqb_iff, Option, ◌≡◌, ap, ◌∙◌, fun_ext, arith,
}
use sdle_shopping_list.Common.Int.{u64_mod}
use sdle_shopping_list.HashMap.{get}
use sdle_shopping_list.HashMap.Laws.{get-insert, insert-Distinct}
use sdle_shopping_list.HashMap.Total.{total, total-ext, total-insert, get-le-total}
use sdle_shopping_list.Crdt.GCounter.{GCounter, or_zero, inc_by, value_local, value_total, merge}
use sdle_shopping_list.Crdt.GCounter.Merge.{
  Counts, counts, join, max_count, IsValid, merge-IsValid, counts-merge,
}

-- Counters with the same counts have the same value.
pub value_total-counts :
    (a b : GCounter) → IsValid a → IsValid b → counts a ≡ counts b → value_total a ≡ value_total b
unfolding value_total
value_total-counts a b va vb h =
    ap (λ (n : ℕ). n % u64_mod)
      (total-ext a.counter b.counter va vb (λ k. ap (λ (f : Counts). f k) h))

pub inc_by-IsValid : (g : GCounter) (n : ℕ) → IsValid g → IsValid (inc_by g n)
unfolding inc_by
inc_by-IsValid g n v = insert-Distinct g.counter g.actor_id _ v

pub value_local-le-total : (g : GCounter) → value_local g ≤ total g.counter
unfolding value_local
value_local-le-total g = ground (arith, get-le-total g.counter g.actor_id)

-- `inc_by` adds to the total while the actor's count stays in 64 bits.
pub total-inc_by :
    (g : GCounter) (n : ℕ)
    → IsValid g
    → value_local g + n < u64_mod
    → total (inc_by g n).counter ≡ total g.counter + n
unfolding inc_by value_local
total-inc_by g n v h = ground (
  arith,
  total-insert g.counter g.actor_id ((or_zero (get g.counter g.actor_id) + n) % u64_mod) v,
)

join-inc_by :
    (g : GCounter) (n : ℕ)
    → value_local g + n < u64_mod
    → join (counts g) (counts (inc_by g n)) ≡ counts (inc_by g n)
unfolding inc_by value_local
join-inc_by g n h = fun_ext λ id. ground (
  arith,
  get-insert g.counter g.actor_id ((or_zero (get g.counter g.actor_id) + n) % u64_mod) id,
  eqb_iff g.actor_id id,
)

-- The total of a counter merged with its own increment.
pub total-merge-inc_by :
    (g : GCounter) (n : ℕ)
    → IsValid g
    → value_local g + n < u64_mod
    → total (merge g (inc_by g n)).counter ≡ total g.counter + n
total-merge-inc_by g n v h =
    total-ext (merge g (inc_by g n)).counter (inc_by g n).counter (merge-IsValid g (inc_by g n) v)
      (inc_by-IsValid g n v)
      (λ k.
        ap (λ (f : Counts). f k)
          (counts-merge g (inc_by g n) (inc_by-IsValid g n v) ∙ join-inc_by g n h))
    ∙ total-inc_by g n v h

-- The total of a counter merged with itself.
pub total-merge_self : (g : GCounter) → IsValid g → total (merge g g).counter ≡ total g.counter
total-merge_self g v =
    total-ext (merge g g).counter g.counter (merge-IsValid g g v) v
      (λ k. ap (λ (f : Counts). f k) (counts-merge g g v) ∙ max_self (get g.counter k))
  where
    max_self : (o : Option ℕ) → max_count o o ≡ o
    max_self o = ground arith
