-- ===== src/BTreeMap/Laws.antt =====
-- The operations of a `BTreeMap` keep the order, and what `get` returns after each.
use sdle_shopping_list.Common.{
  ℕ, ◌<◌, ltb, eqb, none, some, [], ◌∷◌, ◌≡◌, refl, if◌then◌else◌, arith, All, Bool-cases, inl, inr,
}
use sdle_shopping_list.BTreeMap.{BTreeMap, insert, remove, get, Above, IsSorted}

module _ {ℓ} {V : Type ℓ} where
  Above-lt : (j k : ℕ) (m : BTreeMap V) → j < k → Above k m → Above j m
  Above-lt j k [] h a = tt
  Above-lt j k ((i, w) ∷ m) h a = (omega arith, Above-lt j k m h a.1)

  insert-Above :
      (b : ℕ) (m : BTreeMap V) (k : ℕ) (v : V) → b < k → Above b m → Above b (insert m k v)
  unfolding insert
  insert-Above b [] k v h a = (h, tt)
  insert-Above b ((j, w) ∷ m) k v h a = ground (arith, insert-Above b m k v)

  pub insert-IsSorted : (m : BTreeMap V) (k : ℕ) (v : V) → IsSorted m → IsSorted (insert m k v)
  unfolding insert
  insert-IsSorted [] k v s = (tt, tt)
  insert-IsSorted ((j, w) ∷ m) k v s =
      ground (arith, insert-IsSorted m k v, insert-Above j m k v, Above-lt k j m)

  remove-Above : (b : ℕ) (m : BTreeMap V) (k : ℕ) → Above b m → Above b (remove m k)
  unfolding remove
  remove-Above b [] k a = tt
  remove-Above b ((j, w) ∷ m) k a = ground (arith, remove-Above b m k)

  pub remove-IsSorted : (m : BTreeMap V) (k : ℕ) → IsSorted m → IsSorted (remove m k)
  unfolding remove
  remove-IsSorted [] k s = tt
  remove-IsSorted ((j, w) ∷ m) k s = ground (arith, remove-IsSorted m k, remove-Above j m k)

  pub get-insert :
      (m : BTreeMap V) (k : ℕ) (v : V) (i : ℕ)
      → get (insert m k v) i ≡ (if eqb k i then some v else get m i)
  unfolding get insert
  get-insert [] k v i = refl
  get-insert ((j, w) ∷ m) k v i = ground (arith, get-insert m k v i)

  pub get-remove :
      (m : BTreeMap V) (k i : ℕ) → get (remove m k) i ≡ (if eqb k i then none else get m i)
  unfolding get remove
  get-remove [] k i = ground arith
  get-remove ((j, w) ∷ m) k i = ground (arith, get-remove m k i)

module _ {ℓ κ} {V : Type ℓ} (P : ℕ × V → Type κ) where
  pub insert-All : (m : BTreeMap V) (k : ℕ) (v : V) → P (k, v) → All P m → All P (insert m k v)
  unfolding insert
  insert-All [] k v p a = (p, tt)
  insert-All ((j, w) ∷ m) k v p a = elim (Bool-cases (ltb k j)) [
    | inl h ↦ rw h (p, a)
    | inr h ↦ rw h (elim (Bool-cases (eqb k j)) [
      | inl e ↦ rw e (p, a.1)
      | inr e ↦ rw e (a.0, insert-All m k v p a.1)
    ])
  ]

  pub remove-All : (m : BTreeMap V) (k : ℕ) → All P m → All P (remove m k)
  unfolding remove
  remove-All [] k a = tt
  remove-All ((j, w) ∷ m) k a = elim (Bool-cases (eqb j k)) [
    | inl e ↦ rw e (remove-All m k a.1)
    | inr e ↦ rw e (a.0, remove-All m k a.1)
  ]
