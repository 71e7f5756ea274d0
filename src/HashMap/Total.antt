-- ===== src/HashMap/Total.antt =====
-- `.values().sum()`: it depends on what `get` returns, not on the order of the entries.
use sdle_shopping_list.Common.{ℕ, ◌+◌, ◌≤◌, Eq, none, some, [], ◌∷◌, ◌≡◌, refl, sym, arith}
use sdle_shopping_list.HashMap.{HashMap, get, insert, remove, Distinct}
use sdle_shopping_list.HashMap.Laws.{get-remove, remove-Distinct}

-- The sum of the values, with no bound.
unfoldable pub total {ℓ} : {K : Type ℓ} → HashMap K ℕ → ℕ
total [] = 0
total ((k, v) ∷ m) = v + total m

module _ {ℓ} {K : Type ℓ} ⦃e : Eq K⦄ where
  remove_absent : (m : HashMap K ℕ) (k : K) → get m k ≡ none → remove m k ≡ m
  unfolding get remove
  remove_absent [] k h = refl
  remove_absent ((i, w) ∷ m) k h = ground (arith, remove_absent m k)

  total-remove :
      (m : HashMap K ℕ) (k : K) (v : ℕ)
      → Distinct m
      → get m k ≡ some v
      → total m ≡ v + total (remove m k)
  unfolding get remove total
  total-remove [] k v d h = ground arith
  total-remove ((i, w) ∷ m) k v d h =
      ground (arith, e.beq_iff i k, remove_absent m k, total-remove m k v d.1)

  all_absent : (m : HashMap K ℕ) → ((k : K) → get m k ≡ none) → total m ≡ 0
  unfolding get total
  all_absent [] h = refl
  all_absent ((i, w) ∷ m) h = absurd (ground (arith, h i, e.beq_iff i i))

  -- Maps that agree at every key have the same total.
  pub total-ext :
      (m n : HashMap K ℕ)
      → Distinct m
      → Distinct n
      → ((k : K) → get m k ≡ get n k)
      → total m ≡ total n
  unfolding get total
  total-ext [] n dm dn h = sym (all_absent n (λ k. sym (h k)))
  total-ext ((i, w) ∷ m) n dm dn h = ground (
    arith,
    h i,
    e.beq_iff i i,
    total-remove n i w dn,
    total-ext m (remove n i) dm.1 (remove-Distinct n i dn) (rest_agree m n i w dm.0 h),
  )
    where
      rest_agree :
          (m n : HashMap K ℕ) (i : K) (w : ℕ)
          → get m i ≡ none
          → ((k : K) → get ((i, w) ∷ m) k ≡ get n k)
          → (k : K) → get m k ≡ get (remove n i) k
      rest_agree m n i w h all k = ground (arith, all k, get-remove n i k, e.beq_iff i k)

  abbrev pub count_at : HashMap K ℕ → K → ℕ
  count_at m k = elim (get m k) [ none ↦ 0 | some n ↦ n ]

  -- A write replaces one summand.
  pub total-insert :
      (m : HashMap K ℕ) (k : K) (v : ℕ)
      → Distinct m
      → total (insert m k v) + count_at m k ≡ total m + v
  unfolding get insert total
  total-insert [] k v d = omega arith
  total-insert ((i, w) ∷ m) k v d = ground (arith, e.beq_iff i k, total-insert m k v d.1)

  -- An entry is at most the total.
  pub get-le-total : (m : HashMap K ℕ) (k : K) → count_at m k ≤ total m
  unfolding get total
  get-le-total [] k = omega arith
  get-le-total ((i, w) ∷ m) k = ground (arith, get-le-total m k)
