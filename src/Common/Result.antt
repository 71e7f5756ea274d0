-- ===== src/Common/Result.antt =====
-- `anyhow::Result`: what an error says is not modelled.
use mathlib.Core.Path.{◌≡◌, refl, subst}
use native.Mathlib.Omega.{arith}
use sdle_shopping_list.Common.Lists.{All}
use mathlib.Core.Bool.{Bool, true, false}
use mathlib.Core.Option.{Option, none, some}
use mathlib.Core.List.{List, [], ◌∷◌}

pub data Result {ℓ} (A : Type ℓ) : Type ℓ where
  err : Result A
  ok : A → Result A

module _ {ℓ κ} {A : Type ℓ} {B : Type κ} where
  infixl 5 ◌>>=◌ ◌>>◌
  -- `?` on a result.
  abbrev pub ◌>>=◌ : Result A → (A → Result B) → Result B
  err >>= f = err
  ok a >>= f = f a

  abbrev pub ◌>>◌ : Result A → Result B → Result B
  first >> next = first >>= λ _. next

  -- A chain that succeeds succeeds at each step.
  pub >>=-eq-ok :
      {b : B}
      → (r : Result A) (f : A → Result B) → (r >>= f) ≡ ok b
      → (a : A) × (r ≡ ok a) × (f a ≡ ok b)
  >>=-eq-ok err f h = cc
  >>=-eq-ok (ok a) f h = (a, refl, h)

-- `?` on a call that only succeeds or fails.
abbrev pub succeeds : Bool → Result (Unit {0})
succeeds true = ok tt
succeeds false = err

pub ok_inj {ℓ} : {A : Type ℓ} {a b : A} → ok a ≡ ok b → a ≡ b
ok_inj h = ground (arith, h)

-- A parser's `Option` as a `Result`, for `?`.
abbrev pub ok_or {ℓ} : {A : Type ℓ} → Option A → Result A
ok_or none = err
ok_or (some a) = ok a

-- `.collect::<Result<Vec<_>, _>>()`
abbrev pub map_result {ℓ κ} : {A : Type ℓ} {B : Type κ} → (A → Result B) → List A → Result (List B)
map_result f [] = ok []
map_result f (a ∷ as_) = do b ← f a; bs ← map_result f as_; ok (b ∷ bs)

-- Where each element decodes to a value with a property, the decoded list has it.
pub map_result-All :
    {A B : Type 0}
    → (Q : B → Type 0) (f : A → Result B) (as_ : List A) (bs : List B)
    → All (λ a. (b : B) → f a ≡ ok b → Q b) as_
    → map_result f as_ ≡ ok bs
    → All Q bs
map_result-All Q f [] bs h e = let same : [] ≡ bs = ground (arith, e) in subst (All Q) same tt
map_result-All Q f (a ∷ as_) bs h e =
    let (b, first, e') = >>=-eq-ok (f a) _ e in
    let (bs', others, e'') = >>=-eq-ok (map_result f as_) _ e' in
    let same : b ∷ bs' ≡ bs = ground (arith, e'') in
    subst (All Q) same (h.0 b first, map_result-All Q f as_ bs' h.1 others)
