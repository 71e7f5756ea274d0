-- ===== src/Storage/Client/Quantity.antt =====
-- What a storage request makes of a stored item: the amount and the flag that were asked for.
use sdle_shopping_list.Common.{
  ℕ, ◌+◌, ◌-◌, ◌<◌, ltb, Uuid, nat_ord, Bool, ◌≡◌, refl, ap₂, ◌∙◌, if◌then◌else◌, arith, Bool-cases,
  inl, inr,
}
use sdle_shopping_list.Common.Int.{pos, sub_ℕ, as_i64, sub_i64, i64_half, u32_mod}
use sdle_shopping_list.Common.Int.Words.{as_i64_small, as_u64-pos, sub_i64_lem}
use sdle_shopping_list.HashMap.Total.{total}
use sdle_shopping_list.Crdt.GCounter
use sdle_shopping_list.Crdt.GCounter.Merge
use sdle_shopping_list.Crdt.GCounter.Value.{
  value_local-le-total, total-merge-inc_by, total-merge_self,
}
use sdle_shopping_list.Crdt.PnCounter
use sdle_shopping_list.Crdt.PnCounter.{PnCounter}
use sdle_shopping_list.Crdt.PnCounter.Value.{value_total_lem}
use sdle_shopping_list.Crdt.LwwReg
use sdle_shopping_list.Crdt.Item
use sdle_shopping_list.Crdt.Item.{Item, as_u32}
use sdle_shopping_list.Crdt.Item.Merge.{IsValid}
use sdle_shopping_list.Storage.Client.{with_quantity, with_acquired, updated_item}

module _ (c : PnCounter) (q : ℕ) where
  abbrev p_total : ℕ
  p_total = total c.p.counter

  abbrev n_total : ℕ
  n_total = total c.n.counter

  -- The amounts with the new one stay below 2 ^ 63.
  abbrev pub Fits : Type 0
  Fits = p_total + n_total + q < i64_half

  delta_lem : Fits → sub_i64 (as_i64 q) (PnCounter.value_total c) ≡ sub_ℕ (q + n_total) p_total
  delta_lem h =
      ap₂ sub_i64 (as_i64_small q (omega arith)) (value_total_lem c (omega arith) (omega arith))
      ∙ sub_i64_lem q p_total n_total (omega arith) (omega arith)

  -- Without the casts: the larger side of the old and the new balance says what is added, and where.
  with_quantity_lem :
      Fits
      → with_quantity c q ≡ (
          if ltb p_total (q + n_total)
          then PnCounter.inc_by c (q + n_total - p_total)
          else if ltb (q + n_total) p_total
          then PnCounter.dec_by c (p_total - (q + n_total))
          else c)
  unfolding with_quantity
  with_quantity_lem h = rw (delta_lem h) (
      ground (
        arith,
        as_u64-pos (q + n_total - p_total),
        as_u64-pos (p_total - (q + n_total)),
        sub_i64_lem 0 (q + n_total) p_total,
      ))

-- Totals whose difference is `q`, below 2 ^ 63.
abbrev pub HasTotals : PnCounter → ℕ → Type 0
HasTotals m q =
    (a b : ℕ) × (total m.p.counter ≡ a) × (total m.n.counter ≡ b) × (a ≡ q + b) × (a < i64_half)

-- The value of a counter whose totals are known.
pub HasTotals-value_total :
    (m : PnCounter) (q : ℕ) → HasTotals m q → PnCounter.value_total m ≡ pos q
HasTotals-value_total m q (a, b, ha, hb, e, h) =
    value_total_lem m (omega arith) (omega arith) ∙ ground arith

module _ (c : PnCounter) (q : ℕ) where
  -- The stored amount merged with its changed copy counts `q`.
  pub merged_totals :
      GCounter.Merge.IsValid c.p
      → GCounter.Merge.IsValid c.n
      → Fits c q
      → HasTotals (PnCounter.merge c (with_quantity c q)) q
  unfolding PnCounter.merge PnCounter.inc_by PnCounter.dec_by
  merged_totals vp vn h =
      rw (with_quantity_lem c q h) (elim (Bool-cases (ltb (p_total c q) (q + n_total c q))) [
        | inl more ↦ rw more (
          q + n_total c q,
          n_total c q,
          total-merge-inc_by c.p (q + n_total c q - p_total c q) vp
                (ground (arith, value_local-le-total c.p))
              ∙ ground arith,
          total-merge_self c.n vn,
          refl,
          omega arith,
        )
        | inr no_more ↦ rw no_more (elim (Bool-cases (ltb (q + n_total c q) (p_total c q))) [
          | inl less ↦ rw less (
            p_total c q,
            p_total c q - q,
            total-merge_self c.p vp,
            total-merge-inc_by c.n (p_total c q - (q + n_total c q)) vn
                  (ground (arith, value_local-le-total c.n))
                ∙ ground arith,
            ground arith,
            omega arith,
          )
          | inr no_less ↦ rw no_less (
            p_total c q,
            n_total c q,
            total-merge_self c.p vp,
            total-merge_self c.n vn,
            ground arith,
            omega arith,
          )
        ])
      ])

-- The flag after the update: as asked, if the clock can still grow.
merged_acquired :
    (r : LwwReg.LwwReg Uuid) (acquired : Bool) (client_id : Uuid)
    → r.clock + 1 < u32_mod
    → (LwwReg.merge r (with_acquired r acquired client_id)).val ≡ as_u32 acquired
unfolding with_acquired LwwReg.merge
merged_acquired r acquired client_id h = ground (arith, nat_ord.gtb_irrefl r.actor)

-- A storage request on a valid stored item makes its total the quantity and its flag the one that
-- were asked for, while the counts with the quantity stay below 2 ^ 63 and the clock of the flag
-- can still grow.
pub updated_item_lem :
    (stored : Item) (quantity : ℕ) (acquired : Bool) (client_id : Uuid)
    → IsValid stored
    → Fits stored.amount quantity
    → stored.acquired.clock + 1 < u32_mod
    → (PnCounter.value_total (updated_item stored quantity acquired client_id).amount
        ≡ pos quantity)
      × ((updated_item stored quantity acquired client_id).acquired.val ≡ as_u32 acquired)
unfolding updated_item Item.merge
updated_item_lem stored quantity acquired client_id v f h = (
  HasTotals-value_total (PnCounter.merge stored.amount (with_quantity stored.amount quantity))
      quantity (merged_totals stored.amount quantity v.p v.n f),
  merged_acquired stored.acquired acquired client_id h,
)
