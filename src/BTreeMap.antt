-- ===== src/BTreeMap.antt =====
-- `std::collections::BTreeMap` with numbers for keys: an association list in ascending order of keys.
pub mod Laws
use sdle_shopping_list.Common.{ℕ, ◌<◌, ltb, eqb, Option, none, some, List, [], ◌∷◌, if◌then◌else◌}

abbrev pub BTreeMap {ℓ} : Type ℓ → Type ℓ
BTreeMap V = List (ℕ × V)

module _ {ℓ} {V : Type ℓ} where
  unfoldable pub insert : BTreeMap V → ℕ → V → BTreeMap V
  insert [] k v = (k, v) ∷ []
  insert ((j, w) ∷ m) k v =
      if ltb k j then (k, v) ∷ (j, w) ∷ m else if eqb k j then (k, v) ∷ m else (j, w) ∷ insert m k v

  unfoldable pub remove : BTreeMap V → ℕ → BTreeMap V
  remove [] k = []
  remove ((j, w) ∷ m) k = let rest = remove m k in if eqb j k then rest else (j, w) ∷ rest

  unfoldable pub get : BTreeMap V → ℕ → Option V
  get [] k = none
  get ((j, w) ∷ m) k = if eqb j k then some w else get m k

  -- `.range(from..)`
  unfoldable pub range_from : BTreeMap V → ℕ → BTreeMap V
  range_from [] from = []
  range_from ((j, w) ∷ m) from =
      let rest = range_from m from in if ltb j from then rest else (j, w) ∷ rest

  -- `.range(..to)`
  unfoldable pub range_to : BTreeMap V → ℕ → BTreeMap V
  range_to [] to = []
  range_to ((j, w) ∷ m) to = let rest = range_to m to in if ltb j to then (j, w) ∷ rest else rest

  -- `.values()`
  unfoldable pub values : BTreeMap V → List V
  values [] = []
  values ((j, w) ∷ m) = w ∷ values m

  -- Every key lies above `k`.
  abbrev pub Above : ℕ → BTreeMap V → Type 0
  Above k [] = Unit
  Above k ((j, w) ∷ m) = (k < j) × Above k m

  -- The order in which a `BTreeMap` keeps its entries.
  abbrev pub IsSorted : BTreeMap V → Type 0
  IsSorted [] = Unit
  IsSorted ((j, w) ∷ m) = Above j m × IsSorted m
