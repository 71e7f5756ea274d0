-- ===== src/Crdt/Tests.antt =====
-- Two replicas of a list that have bought milk in different ways, and the theorems at them.
use sdle_shopping_list.Common.{
  ℕ, Uuid, string_eq, nat_eq, nat_ord, ◌==◌, [], ◌∷◌, ◌≡◌, ◌↔◌, refl, inl, inr, Bool-cases,
}
use sdle_shopping_list.HashMap
use sdle_shopping_list.HashMap.{get, insert}
use sdle_shopping_list.Crdt.GCounter
use sdle_shopping_list.Crdt.GCounter.{GCounter, merge_counts}
use sdle_shopping_list.Crdt.LwwReg
use sdle_shopping_list.Crdt.LwwReg.{LwwReg}
use sdle_shopping_list.Crdt.Item.Merge as Items
use sdle_shopping_list.Crdt.AworMap.{AworMap, merge}
use sdle_shopping_list.Crdt.AworMap.Merge.{IsValid}
use std.Quotient.{cls}
use sdle_shopping_list.Crdt.AworMap.States.{Replica, State, join, state_view, join_semilattice}
use sdle_shopping_list.Crdt.AworMap.Convergence.{
  join_map, map_view, History, FollowsHistory, merge_converges,
}

abbrev pub counter : Uuid → ℕ → GCounter
counter actor n = record { counter = (actor, n) ∷ []; actor_id = actor }

abbrev pub register : ℕ → ℕ → Uuid → LwwReg Uuid
register val clock actor = record { val = val; clock = clock; actor = actor }

-- An actor that added `n`, and left or set the flag.
abbrev pub milk : Uuid → ℕ → ℕ → AworMap
milk actor n flag = record {
  items =
      (
        "milk",
        record {
          amount = record { p = counter actor n; n = counter actor 0 };
          acquired = register flag flag actor;
        },
      )
      ∷ [];
}

-- The first write of an actor is 0, the later ones 1.
abbrev pub history : History
history k clock actor = clock

pub milk-IsValid : (actor : Uuid) (n flag : ℕ) → IsValid (milk actor n flag)
unfolding get
milk-IsValid actor n flag = record {
  distinct = (refl, tt);
  items = (record { p = (refl, tt); n = (refl, tt) }, tt);
}

pub milk-FollowsHistory :
    (actor : Uuid) (n flag : ℕ) → FollowsHistory history (map_view (milk actor n flag))
unfolding get Items.view
milk-FollowsHistory actor n flag k = elim (Bool-cases ("milk" == k)) [
  | inl e ↦ rw e refl
  | inr e ↦ rw e tt
]

merge_converges_example :
    map_view (merge (milk 1 2 0) (milk 2 5 1)) ≡ map_view (merge (milk 2 5 1) (milk 1 2 0))
merge_converges_example =
    merge_converges history (milk 1 2 0) (milk 2 5 1) (milk-IsValid 1 2 0) (milk-IsValid 2 5 1)
      (milk-FollowsHistory 1 2 0) (milk-FollowsHistory 2 5 1)

-- test_lwwreg_merge_tiebreaker of the source.
lww_tiebreaker : LwwReg.merge (register 10 7 1) (register 20 7 2) ≡ register 20 7 2
unfolding LwwReg.merge
lww_tiebreaker = refl

-- test_gcounter_merge of the source.
gcounter_total : GCounter.value_total (GCounter.merge (counter 1 2) (counter 2 1)) ≡ 3
unfolding GCounter.value_total GCounter.merge merge_counts get insert HashMap.Total.total
gcounter_total = refl

abbrev replica : Uuid → ℕ → ℕ → Replica history
replica actor n flag = record {
  map = milk actor n flag;
  valid = milk-IsValid actor n flag;
  follows = milk-FollowsHistory actor n flag;
}

abbrev state : Uuid → ℕ → ℕ → State history
state actor n flag = cls (replica actor n flag)

join_semilattice_example :
    (join history (join history (state 1 2 0) (state 2 5 1)) (state 3 1 0)
      ≡ join history (state 1 2 0) (join history (state 2 5 1) (state 3 1 0)))
    × (join history (state 1 2 0) (state 2 5 1) ≡ join history (state 2 5 1) (state 1 2 0))
    × (join history (state 1 2 0) (state 1 2 0) ≡ state 1 2 0)
    × (state_view history (join history (state 1 2 0) (state 2 5 1))
        ≡ join_map (state_view history (state 1 2 0)) (state_view history (state 2 5 1)))
    × ((state_view history (state 1 2 0) ≡ state_view history (state 2 5 1))
        ↔ (state 1 2 0 ≡ state 2 5 1))
join_semilattice_example = join_semilattice history (state 1 2 0) (state 2 5 1) (state 3 1 0)
