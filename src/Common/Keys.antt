-- ===== src/Common/Keys.antt =====
-- Keys of maps and members of sets: the trait bound `Eq` (with `Hash`) as an interface.
use Prim.Native.Nat.{ℕ}
use native.Mathlib.Omega.{arith}
use Prim.Native.String.{String}
use mathlib.Core.Path.{◌≡◌}
use mathlib.Core.Logic.{◌↔◌}
use mathlib.Core.Bool.{Bool, true, false}
use text.Mathlib.Text.{◌==◌ as str_eq}
use text.Mathlib.TextEquality.{eq_iff}
use sdle_shopping_list.Common.Tests.{ltb, eqb, eqb_iff}

pub record Eq {ℓ} (A : Type ℓ) : Type ℓ where
  pub beq : A → A → Bool
  pub beq_iff : (a b : A) → (beq a b ≡ true) ↔ (a ≡ b)

-- The trait bound `Ord`: the test `a > b`, and that it is a strict total order.
pub record Ord {ℓ} (A : Type ℓ) : Type ℓ where
  pub gtb : A → A → Bool
  pub gtb_irrefl : (a : A) → gtb a a ≡ false
  pub gtb_trans : (a b c : A) → gtb a b ≡ true → gtb b c ≡ true → gtb a c ≡ true
  pub gtb_total : (a b : A) → gtb a b ≡ false → gtb b a ≡ false → a ≡ b

instance abbrev pub string_eq : Eq String
string_eq = record { beq = str_eq; beq_iff = eq_iff }

pub gtb_ℕ-trans : (a b c : ℕ) → ltb b a ≡ true → ltb c b ≡ true → ltb c a ≡ true
gtb_ℕ-trans a b c p q = ground arith

pub gtb_ℕ-total : (a b : ℕ) → ltb b a ≡ false → ltb a b ≡ false → a ≡ b
gtb_ℕ-total a b p q = ground arith

pub gtb_ℕ-irrefl : (a : ℕ) → ltb a a ≡ false
gtb_ℕ-irrefl a = ground arith

instance abbrev pub nat_ord : Ord ℕ
nat_ord = record {
  gtb = λ a b. ltb b a;
  gtb_irrefl = gtb_ℕ-irrefl;
  gtb_trans = gtb_ℕ-trans;
  gtb_total = gtb_ℕ-total;
}

instance abbrev pub nat_eq : Eq ℕ
nat_eq = record { beq = eqb; beq_iff = eqb_iff }

-- `uuid::Uuid`: a 128-bit number, compared and ordered as that number.
abbrev pub Uuid : Type 0
Uuid = ℕ

-- The test `a == b`.
infix 50 ◌==◌
abbrev pub ◌==◌ {ℓ} : {A : Type ℓ} ⦃e : Eq A⦄ (a b : A) → Bool
◌==◌ ⦃e⦄ a b = e.beq a b
