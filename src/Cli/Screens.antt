-- ===== src/Cli/Screens.antt =====
-- What the handlers make of input that the screen's rules accept.
use sdle_shopping_list.Common.{
  ℕ, suc, zero, ◌-◌, ◌≤◌, ◌<◌, length, get_elem?, Uuid, String, string_eq, ◌==◌, true, some, List,
  [], ◌∷◌, ◌≡◌, ◌≢◌, refl, arith, Bool-cases, inl, inr, ap, ◌∙◌, subst,
}
use sdle_shopping_list.Common.Sets.{contains}
use sdle_shopping_list.Common.Text.{parse_usize}
use sdle_shopping_list.Cli.{
  accepts, is_valid, list_edit_rules, ItemInterface, panic, select, list_edit_other,
  handle_list_edit,
}

get_in :
    {A : Type 0}
    → (items : List A) (i : ℕ) → i < length items
    → (a : A) × (get_elem? items i ≡ some a)
get_in [] i h = absurd (omega arith)
get_in (a ∷ items) zero h = (a, refl)
get_in (a ∷ items) (suc i) h = get_in items i (omega arith)

chosen :
    {A : Type 0}
    → (i : ℕ) (items : List A) (a : A) → i < length items
    → get_elem? items i ≡ some a
    → select (suc i) items ≡ some a
unfolding select
chosen i items a h e = ground arith

-- A selection from 1 to the number of entries picks the entry at that place, counted from 1.
pub select_in :
    {A : Type 0}
    → (items : List A) (n : ℕ) → 1 ≤ n
    → n ≤ length items
    → (a : A) × (select n items ≡ some a) × (get_elem? items (n - 1) ≡ some a)
unfolding select
select_in items zero h k = absurd (omega arith)
select_in items (suc i) h k =
    let (a, e) = get_in items i (omega arith) in
    let same : suc i - 1 ≡ i = omega arith in
    (a, chosen i items a (omega arith) e, ap (get_elem? items) same ∙ e)

list_edit_other_go :
    (other : String) (items : List ItemInterface) (list_id : Uuid)
    → list_edit_other other items list_id ≢ panic
unfolding list_edit_other
list_edit_other_go other items list_id = ground arith

d_invalid : (n : ℕ) → is_valid "d" (list_edit_rules n) ≢ true
unfolding is_valid accepts contains parse_usize
d_invalid n h = absurd (ground arith)

-- Input that the screen of a list accepts never reaches its command that is not implemented.
pub list_edit_no_panic :
    (input : String) (items : List ItemInterface) (item : ItemInterface) (list_id : Uuid)
    → is_valid input (list_edit_rules (length items)) ≡ true
    → handle_list_edit input items item list_id ≢ panic
unfolding handle_list_edit
list_edit_no_panic input items item list_id h = elim (Bool-cases (input == "d")) [
  | inl e ↦ absurd (
      d_invalid (length items) (
        subst (λ (s : String). is_valid s (list_edit_rules (length items)) ≡ true)
          ((string_eq.beq_iff input "d").0 e) h))
  | inr e ↦ ground (arith, list_edit_other_go input items list_id)
]
