-- ===== src/Crdt/Item/Merge.antt =====
-- What an item stands for, and that `Item::merge` joins it.
use sdle_shopping_list.Common.{ℕ, Uuid, nat_ord, nat_eq, ◌≡◌, ap₂, sym, ◌∙◌}
use sdle_shopping_list.Crdt.GCounter.Merge.{
  Counts, counts, join, join_comm, join_assoc, join_idem, IsValid as IsValidCounter, counts-merge,
  merge-IsValid as merge-IsValidCounter,
}
use sdle_shopping_list.Crdt.PnCounter
use sdle_shopping_list.Crdt.LwwReg
use sdle_shopping_list.Crdt.LwwReg.{LwwReg}
use sdle_shopping_list.Crdt.LwwReg.Merge.{merge_assoc, merge_comm, merge_idem, WrittenBy}
use sdle_shopping_list.Crdt.Item.{Item, merge}

-- The abstract item: the counts of increments and decrements, and the register.
pub record ItemView : Type 0 where
  pub p : Counts
  pub n : Counts
  pub acquired : LwwReg Uuid

unfoldable pub view : Item → ItemView
view i = record { p = counts i.amount.p; n = counts i.amount.n; acquired = i.acquired }

unfoldable pub join_view : ItemView → ItemView → ItemView
join_view v w = record {
  p = join v.p w.p;
  n = join v.n w.n;
  acquired = LwwReg.merge v.acquired w.acquired;
}

pub record IsValid (i : Item) : Type 0 where
  pub p : IsValidCounter i.amount.p
  pub n : IsValidCounter i.amount.n

pub merge-IsValid : (a b : Item) → IsValid a → IsValid (merge a b)
unfolding merge PnCounter.merge
merge-IsValid a b v = record {
  p = merge-IsValidCounter a.amount.p b.amount.p v.p;
  n = merge-IsValidCounter a.amount.n b.amount.n v.n;
}

pub view-merge : (a b : Item) → IsValid b → view (merge a b) ≡ join_view (view a) (view b)
unfolding view merge join_view PnCounter.merge
view-merge a b v = λ i. record {
  p = counts-merge a.amount.p b.amount.p v.p i;
  n = counts-merge a.amount.n b.amount.n v.n i;
  acquired = LwwReg.merge a.acquired b.acquired;
}

pub join_view_assoc : (u v w : ItemView) → join_view (join_view u v) w ≡ join_view u (join_view v w)
unfolding join_view
join_view_assoc u v w = λ i. record {
  p = join_assoc u.p v.p w.p i;
  n = join_assoc u.n v.n w.n i;
  acquired = merge_assoc u.acquired v.acquired w.acquired i;
}

pub join_view_idem : (v : ItemView) → join_view v v ≡ v
unfolding join_view
join_view_idem v =
    λ i. record { p = join_idem v.p i; n = join_idem v.n i; acquired = merge_idem v.acquired i }

pub join_view_comm :
    (history : ℕ → Uuid → ℕ) (v w : ItemView)
    → WrittenBy history v.acquired
    → WrittenBy history w.acquired
    → join_view v w ≡ join_view w v
unfolding join_view
join_view_comm history v w hv hw = λ i. record {
  p = join_comm v.p w.p i;
  n = join_comm v.n w.n i;
  acquired = merge_comm v.acquired w.acquired (λ c a. hv ∙ ap₂ history c a ∙ sym hw) i;
}
