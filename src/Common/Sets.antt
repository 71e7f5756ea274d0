-- ===== src/Common/Sets.antt =====
-- Lists without repetition, and `HashSet` as such a list.
use Prim.Native.Nat.{ℕ, zero, suc, ◌+◌}
use mathlib.Core.Path.{◌≡◌, refl}
use mathlib.Core.Bool.{Bool, true, false, ◌||◌}
use mathlib.Core.List.{List, [], ◌∷◌, ◌++◌}
use native.Mathlib.Omega.{arith}
use sdle_shopping_list.Common.Tests.{if◌then◌else◌, Bool-cases}
use mathlib.Core.Logic.{inl, inr, ◌⊎◌}
use mathlib.Core.Bool.{false≢true}
use mathlib.Core.Path.{sym, ◌∙◌}
use sdle_shopping_list.Common.Keys.{Eq, ◌==◌}
use sdle_shopping_list.Common.Lists.{length, take}

module _ {ℓ} {A : Type ℓ} ⦃e : Eq A⦄ where
  unfoldable pub contains : List A → A → Bool
  contains [] a = false
  contains (x ∷ xs) a = x == a || contains xs a

  -- No element stands twice.
  abbrev pub IsNodup : List A → Type 0
  IsNodup [] = Unit
  IsNodup (x ∷ xs) = (contains xs x ≡ false) × IsNodup xs

  unfoldable pub without : List A → A → List A
  without [] a = []
  without (x ∷ xs) a = let rest = without xs a in if x == a then rest else x ∷ rest

  -- `HashSet::insert`
  unfoldable pub insert : List A → A → List A
  unfolding contains
  insert xs a = if contains xs a then xs else a ∷ xs

  -- `.collect()` into a `HashSet`
  unfoldable pub collect : List A → List A
  unfolding insert
  collect [] = []
  collect (x ∷ xs) = insert (collect xs) x

  -- The elements that are not in `seen`, each at its first occurrence.
  unfoldable pub fresh : List A → List A → List A
  unfolding contains
  fresh seen [] = []
  fresh seen (x ∷ xs) = elim (contains seen x) [
    | true ↦ fresh seen xs
    | false ↦ x ∷ fresh (x ∷ seen) xs
  ]

  pub contains-append :
      (xs ys : List A) (a : A) → contains (xs ++ ys) a ≡ (contains xs a || contains ys a)
  unfolding contains
  contains-append [] ys a = refl
  contains-append (x ∷ xs) ys a = ground (arith, contains-append xs ys a)

  pub contains-insert :
      (xs : List A) (a b : A) → contains (insert xs a) b ≡ (a == b || contains xs b)
  unfolding insert contains
  contains-insert xs a b = ground (arith, e.beq_iff a b, contains_eq xs a b)
    where
      contains_eq : (xs : List A) (a b : A) → a ≡ b → contains xs a ≡ contains xs b
      contains_eq xs a b h = cc

  pub contains-without :
      (xs : List A) (a b : A)
      → contains (without xs a) b ≡ (if a == b then false else contains xs b)
  unfolding contains without
  contains-without [] a b = ground arith
  contains-without (x ∷ xs) a b =
      ground (arith, e.beq_iff a b, e.beq_iff x a, e.beq_iff x b, contains-without xs a b)

  pub contains-collect : (xs : List A) (a : A) → contains (collect xs) a ≡ contains xs a
  unfolding contains collect
  contains-collect [] a = refl
  contains-collect (x ∷ xs) a =
      ground (arith, contains-insert (collect xs) x a, contains-collect xs a)

  pub without-IsNodup : (xs : List A) (a : A) → IsNodup xs → IsNodup (without xs a)
  unfolding without
  without-IsNodup [] a d = tt
  without-IsNodup (x ∷ xs) a d = ground (arith, contains-without xs a x, without-IsNodup xs a)

  pub collect-IsNodup : (xs : List A) → IsNodup (collect xs)
  unfolding collect
  collect-IsNodup [] = tt
  collect-IsNodup (x ∷ xs) = ground (arith, collect-IsNodup xs)

  pub contains-fresh :
      (seen xs : List A) (a : A)
      → contains (fresh seen xs) a ≡ (if contains seen a then false else contains xs a)
  unfolding contains fresh
  contains-fresh seen [] a = ground arith
  contains-fresh seen (x ∷ xs) a = ground (
    arith,
    contains-fresh seen xs a,
    contains-fresh (x ∷ seen) xs a,
    e.beq_iff x a,
    contains_eq seen x a,
  )
    where
      contains_eq : (xs : List A) (a b : A) → a ≡ b → contains xs a ≡ contains xs b
      contains_eq xs a b h = cc

  pub fresh-IsNodup : (seen xs : List A) → IsNodup (fresh seen xs)
  unfolding fresh
  fresh-IsNodup seen [] = tt
  fresh-IsNodup seen (x ∷ xs) = ground (
    arith,
    contains-fresh (x ∷ seen) xs x,
    e.beq_iff x x,
    fresh-IsNodup seen xs,
    fresh-IsNodup (x ∷ seen) xs,
  )

  pub length-without :
      (xs : List A) (a : A)
      → IsNodup xs
      → contains xs a ≡ true
      → length xs ≡ length (without xs a) + 1
  unfolding contains without
  length-without [] a d h = ground arith
  length-without (x ∷ xs) a d h =
      ground (arith, e.beq_iff x a, without_absent xs a, length-without xs a d.1)
    where
      without_absent : (xs : List A) (a : A) → contains xs a ≡ false → without xs a ≡ xs
      without_absent [] a h = refl
      without_absent (x ∷ xs) a h = ground (arith, without_absent xs a)

  -- Lists without repetition that hold the same elements are equally long.
  pub length-ext :
      (xs ys : List A)
      → IsNodup xs
      → IsNodup ys
      → ((a : A) → contains xs a ≡ contains ys a)
      → length xs ≡ length ys
  unfolding contains
  length-ext [] [] dx dy h = refl
  length-ext [] (y ∷ ys) dx dy h = absurd (ground (arith, h y, e.beq_iff y y))
  length-ext (x ∷ xs) ys dx dy h = ground (
    arith,
    h x,
    e.beq_iff x x,
    length-without ys x dy,
    length-ext xs (without ys x) dx.1 (without-IsNodup ys x dy) (rest_agree xs ys x dx.0 h),
  )
    where
      rest_agree :
          (xs ys : List A) (x : A)
          → contains xs x ≡ false
          → ((a : A) → contains (x ∷ xs) a ≡ contains ys a)
          → (a : A) → contains xs a ≡ contains (without ys x) a
      rest_agree xs ys x d h a = ground (arith, h a, contains-without ys x a, e.beq_iff x a)

  -- What `contains` says of equal members, and of the head.
  pub contains-head : (x : A) (xs : List A) → contains (x ∷ xs) x ≡ true
  unfolding contains
  contains-head x xs = ground (arith, e.beq_iff x x)

  pub take-contains :
      (n : ℕ) (xs : List A) (a : A) → contains (take n xs) a ≡ true → contains xs a ≡ true
  unfolding contains
  take-contains zero xs a h = ground arith
  take-contains (suc n) [] a h = h
  take-contains (suc n) (x ∷ xs) a h = ground (arith, take-contains n xs a)

  pub take-IsNodup : (n : ℕ) (xs : List A) → IsNodup xs → IsNodup (take n xs)
  take-IsNodup zero xs d = tt
  take-IsNodup (suc n) [] d = tt
  take-IsNodup (suc n) (x ∷ xs) d =
      (absent (Bool-cases (contains (take n xs) x)), take-IsNodup n xs d.1)
    where
      absent :
          (contains (take n xs) x ≡ true) ⊎ (contains (take n xs) x ≡ false)
          → contains (take n xs) x ≡ false
      absent (inl h) = absurd (false≢true (sym d.0 ∙ take-contains n xs x h))
      absent (inr h) = h
