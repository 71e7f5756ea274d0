-- ===== src/Crdt/LwwReg.antt =====
-- `LWWReg` of src/crdt.rs: a register whose last writer, by clock and then by actor, wins.
pub mod Merge
use sdle_shopping_list.Common.{ℕ, Ord, ltb, Bool, true, if◌then◌else◌}

pub record LwwReg (A : Type 0) : Type 0 where
  pub val : ℕ
  pub clock : ℕ
  pub actor : A

unfoldable pub new : {A : Type 0} → ℕ → ℕ → A → LwwReg A
new val clock actor = record { val = val; clock = clock; actor = actor }

module _ {A : Type 0} ⦃o : Ord A⦄ where
  -- Greater, Less, Equal of `clock.cmp(&self.clock)`, in this order.
  unfoldable pub should_update : LwwReg A → ℕ → A → Bool
  should_update self clock actor =
      if ltb self.clock clock
      then true
      else if ltb clock self.clock
      then Bool.false
      else o.gtb actor self.actor

  unfoldable pub update : LwwReg A → ℕ → ℕ → A → LwwReg A
  unfolding should_update
  update self val clock actor =
      if should_update self clock actor
      then record self { val = val; clock = clock; actor = actor }
      else self

  unfoldable pub merge : LwwReg A → LwwReg A → LwwReg A
  unfolding should_update
  merge self other =
      if should_update self other.clock other.actor
      then record self { val = other.val; clock = other.clock; actor = other.actor }
      else self
