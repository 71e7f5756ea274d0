-- ===== src/Crdt/PnCounter.antt =====
-- `PNCounter` of src/crdt.rs: a counter of increments and a counter of decrements.
pub mod Value
use sdle_shopping_list.Common.{ℕ, Uuid}
use sdle_shopping_list.Common.Int.{ℤ, as_i64, sub_i64}
use sdle_shopping_list.Crdt.GCounter
use sdle_shopping_list.Crdt.GCounter.{GCounter}

pub record PnCounter : Type 0 where
  pub p : GCounter
  pub n : GCounter

unfoldable pub new : Uuid → PnCounter
new id = record { p = GCounter.new id; n = GCounter.new id }

unfoldable pub with_count : Uuid → ℕ → PnCounter
with_count id amount = record { p = GCounter.with_count id amount; n = GCounter.with_count id 0 }

unfoldable pub inc : PnCounter → PnCounter
inc c = record c { p = GCounter.inc c.p }

unfoldable pub inc_by : PnCounter → ℕ → PnCounter
inc_by c n = record c { p = GCounter.inc_by c.p n }

unfoldable pub dec : PnCounter → PnCounter
dec c = record c { n = GCounter.inc c.n }

unfoldable pub dec_by : PnCounter → ℕ → PnCounter
dec_by c n = record c { n = GCounter.inc_by c.n n }

unfoldable pub value_local : PnCounter → ℤ
value_local c = sub_i64 (as_i64 (GCounter.value_local c.p)) (as_i64 (GCounter.value_local c.n))

unfoldable pub value_total : PnCounter → ℤ
value_total c = sub_i64 (as_i64 (GCounter.value_total c.p)) (as_i64 (GCounter.value_total c.n))

unfoldable pub merge : PnCounter → PnCounter → PnCounter
merge self other = record { p = GCounter.merge self.p other.p; n = GCounter.merge self.n other.n }
