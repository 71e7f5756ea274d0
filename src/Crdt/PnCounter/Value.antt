-- ===== src/Crdt/PnCounter/Value.antt =====
-- `PNCounter::value_total` is the difference of the totals while these stay below 2 ^ 63.
use sdle_shopping_list.Common.{ℕ, ◌%◌, ◌<◌, ◌≡◌, ◌∙◌, ap₂, arith}
use sdle_shopping_list.Common.Int.{sub_ℕ, as_i64, sub_i64, i64_half, u64_mod}
use sdle_shopping_list.Common.Int.Words.{as_i64_small, sub_i64-pos}
use sdle_shopping_list.HashMap.Total.{total}
use sdle_shopping_list.Crdt.GCounter
use sdle_shopping_list.Crdt.PnCounter.{PnCounter, value_total}

pub value_total_lem :
    (c : PnCounter)
    → total c.p.counter < i64_half
    → total c.n.counter < i64_half
    → value_total c ≡ sub_ℕ (total c.p.counter) (total c.n.counter)
unfolding value_total GCounter.value_total
value_total_lem c hp hn =
    ap₂ (λ (a b : ℕ). sub_i64 (as_i64 a) (as_i64 b)) (small (total c.p.counter) hp)
      (small (total c.n.counter) hn)
    ∙ ap₂ sub_i64 (as_i64_small (total c.p.counter) hp) (as_i64_small (total c.n.counter) hn)
    ∙ sub_i64-pos (total c.p.counter) (total c.n.counter) hp hn
  where
    small : (a : ℕ) → a < i64_half → a % u64_mod ≡ a
    small a h = omega arith
