-- ===== src/Storage/Client/Updating.antt =====
-- The item that a storage request of ClientStorage makes of a stored one: valid, with no count lost,
-- and with counts that SQLite has.
use sdle_shopping_list.Common.{
  ℕ, ◌<◌, ltb, Uuid, nat_eq, Bool, none, some, ◌≡◌, sym, ap, ◌∙◌, arith, Bool-cases, inl, inr,
}
use sdle_shopping_list.Common.Int.{pos_part, neg_part, as_i64, sub_i64, i64_half}
use sdle_shopping_list.HashMap.{HashMap, get}
use sdle_shopping_list.HashMap.Total.{total, get-le-total}
use sdle_shopping_list.Crdt.GCounter.{GCounter, merge}
use sdle_shopping_list.Crdt.GCounter.Merge.{
  Counts, max-none, counts-merge, IsValid as IsValidCounter,
}
use sdle_shopping_list.Crdt.GCounter.Value.{inc_by-IsValid}
use sdle_shopping_list.Crdt.PnCounter
use sdle_shopping_list.Crdt.PnCounter.{PnCounter}
use sdle_shopping_list.Crdt.Item
use sdle_shopping_list.Crdt.Item.{Item}
use sdle_shopping_list.Crdt.Item.Merge.{IsValid, merge-IsValid}
use sdle_shopping_list.Storage.Client.{with_quantity, updated_item}
use sdle_shopping_list.Storage.Client.Quantity.{Fits, merged_totals}

with_quantity-IsValid :
    (c : PnCounter) (q : ℕ)
    → IsValidCounter c.p
    → IsValidCounter c.n
    → IsValidCounter (with_quantity c q).p × IsValidCounter (with_quantity c q).n
unfolding with_quantity PnCounter.inc_by PnCounter.dec_by
with_quantity-IsValid c q vp vn =
    let delta = sub_i64 (as_i64 q) (PnCounter.value_total c) in
    elim (Bool-cases (ltb 0 (pos_part delta))) [
      | inl more ↦ rw more (inc_by-IsValid c.p _ vp, vn)
      | inr no_more ↦ rw no_more (elim (Bool-cases (ltb 0 (neg_part delta))) [
        | inl less ↦ rw less (vp, inc_by-IsValid c.n _ vn)
        | inr no_less ↦ rw no_less (vp, vn)
      ])
    ]

-- A merge has a count for every actor of the first counter.
merge-none :
    (a b : GCounter) (u : Uuid)
    → IsValidCounter b
    → get (merge a b).counter u ≡ none
    → get a.counter u ≡ none
merge-none a b u v h =
    max-none (get a.counter u) (get b.counter u)
      (sym (ap (λ (f : Counts). f u) (counts-merge a b v)) ∙ h)

small :
    (m : HashMap Uuid ℕ) (u : Uuid) (v : ℕ) → total m < i64_half → get m u ≡ some v → v < i64_half
small m u v h e = ground (arith, h, e, get-le-total m u)

module _ (stored : Item) (quantity : ℕ) (acquired : Bool) (client_id : Uuid)
    (v : IsValid stored) where
  abbrev new_item : Item
  new_item = updated_item stored quantity acquired client_id

  pub updated_item-IsValid : IsValid new_item
  unfolding updated_item
  updated_item-IsValid = merge-IsValid stored _ v

  pub updated_absorbs :
      (u : Uuid)
      → (get new_item.amount.p.counter u ≡ none → get stored.amount.p.counter u ≡ none)
        × (get new_item.amount.n.counter u ≡ none → get stored.amount.n.counter u ≡ none)
  unfolding updated_item Item.merge PnCounter.merge
  updated_absorbs u =
      let (vp, vn) = with_quantity-IsValid stored.amount quantity v.p v.n in
      let other = with_quantity stored.amount quantity in
      (merge-none stored.amount.p other.p u vp, merge-none stored.amount.n other.n u vn)

  pub updated_small :
      Fits stored.amount quantity
      → ((u : Uuid) (w : ℕ) → get new_item.amount.p.counter u ≡ some w → w < i64_half)
        × ((u : Uuid) (w : ℕ) → get new_item.amount.n.counter u ≡ some w → w < i64_half)
  unfolding updated_item Item.merge
  updated_small f =
      let (a, b, ha, hb, e, h) = merged_totals stored.amount quantity v.p v.n f in
      let m = PnCounter.merge stored.amount (with_quantity stored.amount quantity) in
      (
        λ u w g. small m.p.counter u w (omega arith) g,
        λ u w g. small m.n.counter u w (omega arith) g,
      )
