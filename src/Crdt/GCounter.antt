-- ===== src/Crdt/GCounter.antt =====
-- `GCounter` of src/crdt.rs: one count for each actor. `u64` sums wrap around.
pub mod Merge
pub mod Value
use sdle_shopping_list.Common.{ℕ, ◌+◌, ◌%◌, max, Uuid, nat_eq, Option, none, some, [], ◌∷◌}
use sdle_shopping_list.Common.Int.{u64_mod}
use sdle_shopping_list.HashMap.{HashMap, get, insert}
use sdle_shopping_list.HashMap.Total.{total}

pub record GCounter : Type 0 where
  pub counter : HashMap Uuid ℕ
  pub actor_id : Uuid

-- `.unwrap_or(&0)`
abbrev pub or_zero : Option ℕ → ℕ
or_zero none = 0
or_zero (some n) = n

unfoldable pub new : Uuid → GCounter
new actor_id = record { counter = []; actor_id = actor_id }

unfoldable pub with_count : Uuid → ℕ → GCounter
unfolding insert
with_count actor_id count = record { counter = insert [] actor_id count; actor_id = actor_id }

-- `*self.counter.entry(self.actor_id).or_insert(0) += n`
unfoldable pub inc_by : GCounter → ℕ → GCounter
inc_by g n = record g {
  counter = insert g.counter g.actor_id ((or_zero (get g.counter g.actor_id) + n) % u64_mod);
}

unfoldable pub inc : GCounter → GCounter
inc g = record g {
  counter = insert g.counter g.actor_id ((or_zero (get g.counter g.actor_id) + 1) % u64_mod);
}

unfoldable pub value_local : GCounter → ℕ
value_local g = or_zero (get g.counter g.actor_id)

unfoldable pub value_total : GCounter → ℕ
value_total g = total g.counter % u64_mod

-- The loop of `merge` over the entries of the other counter.
unfoldable pub merge_counts : HashMap Uuid ℕ → HashMap Uuid ℕ → HashMap Uuid ℕ
merge_counts self [] = self
merge_counts self ((id, count) ∷ other) =
    merge_counts (insert self id (max count (or_zero (get self id)))) other

unfoldable pub merge : GCounter → GCounter → GCounter
merge self other = record self { counter = merge_counts self.counter other.counter }
