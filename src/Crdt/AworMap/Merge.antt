-- ===== src/Crdt/AworMap/Merge.antt =====
-- `AWORMap::merge` entry by entry.
use sdle_shopping_list.Common.{
  String, string_eq, ◌==◌, Option, none, some, [], ◌∷◌, ◌≡◌, refl, arith, All, Bool-cases, inl, inr,
}
use sdle_shopping_list.HashMap.{HashMap, get, insert, Distinct}
use sdle_shopping_list.HashMap.Laws.{get-insert, insert-Distinct}
use sdle_shopping_list.Crdt.Item
use sdle_shopping_list.Crdt.Item.{Item}
use sdle_shopping_list.Crdt.Item.Merge
use sdle_shopping_list.Crdt.AworMap
use sdle_shopping_list.Crdt.AworMap.{AworMap, merge_entry, merge_items, merge}

-- Two optional items: a missing one is neutral.
abbrev pub merge_option : Option Item → Option Item → Option Item
merge_option none o = o
merge_option (some a) none = some a
merge_option (some a) (some b) = some (Item.merge a b)

get-merge_entry :
    (m : HashMap String Item) (k : String) (o : Option Item) (i : Item) (j : String)
    → get m k ≡ o
    → get (merge_entry m k o i) j ≡ merge_option (get m j) (get ((k, i) ∷ []) j)
unfolding merge_entry get
get-merge_entry m k none i j h = ground (arith, get-insert m k i j, string_eq.beq_iff k j)
get-merge_entry m k (some o) i j h =
    ground (arith, get-insert m k (Item.merge o i) j, string_eq.beq_iff k j)

pub get-merge_items :
    (a b : HashMap String Item) (k : String)
    → Distinct b
    → get (merge_items a b) k ≡ merge_option (get a k) (get b k)
unfolding merge_items get
get-merge_items a [] k d = ground arith
get-merge_items a ((j, i) ∷ b) k d = ground (
  arith,
  get-merge_items (merge_entry a j (get a j) i) b k d.1,
  get-merge_entry a j (get a j) i k refl,
  string_eq.beq_iff j k,
)

-- Every entry satisfies `P`.
abbrev pub Entries {ℓ} : (Item → Type ℓ) → HashMap String Item → Type ℓ
Entries P = All (λ e. P e.1)

pub get-Entries {ℓ} :
    (P : Item → Type ℓ) (m : HashMap String Item) (k : String)
    → Entries P m
    → All P (elim (get m k) [ none ↦ [] | some i ↦ i ∷ [] ])
unfolding get
get-Entries P [] k h = tt
get-Entries P ((j, i) ∷ m) k h = elim (Bool-cases (j == k)) [
  | inl e ↦ rw e (h.0, tt)
  | inr e ↦ rw e (get-Entries P m k h.1)
]

pub Entries-get {ℓ} :
    (P : Item → Type ℓ) (m : HashMap String Item) (k : String) {i : Item}
    → Entries P m
    → get m k ≡ some i
    → P i
Entries-get P m k v h = (rw h at (get-Entries P m k v)).0

insert-Entries {ℓ} :
    (P : Item → Type ℓ) (m : HashMap String Item) (k : String) (i : Item)
    → P i
    → Entries P m
    → Entries P (insert m k i)
unfolding insert
insert-Entries P [] k i p h = (p, tt)
insert-Entries P ((j, w) ∷ m) k i p h = elim (Bool-cases (j == k)) [
  | inl e ↦ rw e (p, h.1)
  | inr e ↦ rw e (h.0, insert-Entries P m k i p h.1)
]

-- A map with one entry for each name, whose items are valid.
pub record IsValid (m : AworMap) : Type 0 where
  pub distinct : Distinct m.items
  pub items : Entries Merge.IsValid m.items

merge_entry-Entries :
    (m : HashMap String Item) (k : String) (o : Option Item) (i : Item)
    → Merge.IsValid i
    → All Merge.IsValid (elim o [ none ↦ [] | some i ↦ i ∷ [] ])
    → Entries Merge.IsValid m
    → Entries Merge.IsValid (merge_entry m k o i)
unfolding merge_entry
merge_entry-Entries m k none i v old h = insert-Entries Merge.IsValid m k i v h
merge_entry-Entries m k (some o) i v old h =
    insert-Entries Merge.IsValid m k (Item.merge o i) (Merge.merge-IsValid o i old.0) h

merge_entry-Distinct :
    (m : HashMap String Item) (k : String) (o : Option Item) (i : Item)
    → Distinct m
    → Distinct (merge_entry m k o i)
unfolding merge_entry
merge_entry-Distinct m k none i d = insert-Distinct m k i d
merge_entry-Distinct m k (some o) i d = insert-Distinct m k (Item.merge o i) d

merge_items-IsValid :
    (a b : HashMap String Item)
    → Distinct a
    → Entries Merge.IsValid a
    → Entries Merge.IsValid b
    → Distinct (merge_items a b) × Entries Merge.IsValid (merge_items a b)
unfolding merge_items
merge_items-IsValid a [] d va vb = (d, va)
merge_items-IsValid a ((j, i) ∷ b) d va vb =
    merge_items-IsValid (merge_entry a j (get a j) i) b (merge_entry-Distinct a j (get a j) i d)
      (merge_entry-Entries a j (get a j) i vb.0 (get-Entries Merge.IsValid a j va) va) vb.1

-- The merge of two valid maps is valid: no name and no actor has two entries.
pub merge-IsValid : (a b : AworMap) → IsValid a → IsValid b → IsValid (merge a b)
unfolding merge
merge-IsValid a b va vb =
    let (d, v) = merge_items-IsValid a.items b.items va.distinct va.items vb.items in
    record { distinct = d; items = v }

pub insert-IsValid :
    (m : AworMap) (k : String) (i : Item)
    → IsValid m
    → Merge.IsValid i
    → IsValid (AworMap.insert m k i)
unfolding AworMap.insert
insert-IsValid m k i vm vi = record {
  distinct = merge_entry-Distinct m.items k (get m.items k) i vm.distinct;
  items =
      merge_entry-Entries m.items k (get m.items k) i vi
        (get-Entries Merge.IsValid m.items k vm.items) vm.items;
}
