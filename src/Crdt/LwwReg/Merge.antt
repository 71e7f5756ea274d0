-- ===== src/Crdt/LwwReg/Merge.antt =====
-- The laws of `LWWReg::merge`. It is the maximum by (clock, actor), and takes the left register on a
-- tie, so it commutes where one (clock, actor) pair has written one value.
use sdle_shopping_list.Common.{ℕ, Ord, ◌≡◌, arith, ◌<◌}
use sdle_shopping_list.Crdt.LwwReg.{LwwReg, merge}

module _ {A : Type 0} ⦃o : Ord A⦄ where
  pub merge_idem : (r : LwwReg A) → merge r r ≡ r
  unfolding merge
  merge_idem r = ground (arith, o.gtb_irrefl r.actor)

  -- Merging three registers gives the same register however the merges are grouped.
  pub merge_assoc : (r s t : LwwReg A) → merge (merge r s) t ≡ merge r (merge s t)
  unfolding merge
  merge_assoc r s t = ground (
    arith,
    o.gtb_trans t.actor s.actor r.actor,
    o.gtb_trans s.actor r.actor t.actor,
    o.gtb_trans t.actor r.actor s.actor,
    o.gtb_trans s.actor t.actor r.actor,
    o.gtb_trans r.actor s.actor t.actor,
    o.gtb_trans r.actor t.actor s.actor,
    o.gtb_total s.actor r.actor,
    o.gtb_total t.actor s.actor,
    o.gtb_total t.actor r.actor,
    o.gtb_irrefl r.actor,
    o.gtb_irrefl s.actor,
    o.gtb_irrefl t.actor,
  )

  -- The value that each write had: one for each clock of each actor.
  abbrev pub WrittenBy : (ℕ → A → ℕ) → LwwReg A → Type 0
  WrittenBy history r = r.val ≡ history r.clock r.actor

  -- Two registers merge to the same register in either direction, if they hold the same value
  -- whenever they have the same clock and the same actor.
  pub merge_comm :
      (r s : LwwReg A)
      → (r.clock ≡ s.clock → r.actor ≡ s.actor → r.val ≡ s.val)
      → merge r s ≡ merge s r
  unfolding merge
  merge_comm r s agree = ground (
    arith,
    agree,
    o.gtb_total s.actor r.actor,
    o.gtb_trans s.actor r.actor s.actor,
    o.gtb_irrefl s.actor,
  )

  pub merge-WrittenBy :
      (history : ℕ → A → ℕ) (r s : LwwReg A)
      → WrittenBy history r
      → WrittenBy history s
      → WrittenBy history (merge r s)
  unfolding merge
  merge-WrittenBy history r s hr hs = ground arith

  -- A write at the next clock wins, whoever writes.
  pub merge_newer : (r s : LwwReg A) → r.clock < s.clock → merge r s ≡ s
  unfolding merge
  merge_newer r s h = ground arith
