-- ===== src/Crdt/Item.antt =====
-- `Item` of src/crdt.rs: an amount and an acquired flag.
pub mod Merge
use sdle_shopping_list.Common.{ℕ, Uuid, nat_ord, Bool, true, false}
use sdle_shopping_list.Crdt.PnCounter
use sdle_shopping_list.Crdt.PnCounter.{PnCounter}
use sdle_shopping_list.Crdt.LwwReg
use sdle_shopping_list.Crdt.LwwReg.{LwwReg}

pub record Item : Type 0 where
  pub amount : PnCounter
  pub acquired : LwwReg Uuid

-- `acquired as u32`
abbrev pub as_u32 : Bool → ℕ
as_u32 true = 1
as_u32 false = 0

unfoldable pub new : ℕ → Bool → Uuid → Item
new quantity acquired client_id = record {
  amount = PnCounter.with_count client_id quantity;
  acquired = record { val = as_u32 acquired; clock = 0; actor = client_id };
}

unfoldable pub merge : Item → Item → Item
merge self other = record {
  amount = PnCounter.merge self.amount other.amount;
  acquired = LwwReg.merge self.acquired other.acquired;
}
