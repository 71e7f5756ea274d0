-- ===== src/Cli/Input.antt =====
-- What has passed `read_validated_input`, and the item that `build_item` makes of it.
use sdle_shopping_list.Common.{
  ℕ, ◌≤◌, String, string_eq, true, false, Option, none, some, List, [], ◌∷◌, ◌≡◌, refl, arith,
  Bool-cases, inl, inr, some_inj, ap, ◌∙◌, sym, subst,
}
use sdle_shopping_list.Common.Text.{trim, all_chars, is_ascii_alphabetic, parse_usize}
use sdle_shopping_list.Cli.{
  InputRule, accepts, is_valid, read_validated_input, accept_number_range, name_rules, amount_rules,
  ItemInterface, build_item, made_item, with_amount, with_name, upper_item_count_limit,
}

-- The line that is read is valid.
pub read_valid :
    (rules : List InputRule) (lines : List String) (input : String) (rest : List String)
    → read_validated_input rules lines ≡ some (input, rest)
    → is_valid input rules ≡ true
unfolding read_validated_input
read_valid rules [] input rest h = absurd (ground arith)
read_valid rules (line ∷ lines) input rest h = elim (Bool-cases (is_valid (trim line) rules)) [
  | inl v ↦
      ap (λ (s : String). is_valid s rules)
        (sym (ap (λ (p : String × List String). p.0) (some_inj (rw v at h))))
      ∙ v
  | inr v ↦ read_valid rules lines input rest (rw v at h)
]

-- What the user may enter: a name of letters, an amount in the range, nothing acquired yet.
unfoldable pub IsEntered : ItemInterface → Type 0
IsEntered item =
    (all_chars is_ascii_alphabetic item.name ≡ true)
    × (1 ≤ item.amount)
    × (item.amount ≤ upper_item_count_limit)
    × (item.acquired ≡ false)

-- A valid amount parses to a number in the range.
amount_valid :
    (input : String) (low high : ℕ)
    → is_valid input (accept_number_range low high ∷ []) ≡ true
    → (n : ℕ) × (parse_usize input ≡ some n) × (low ≤ n) × (n ≤ high)
unfolding is_valid accepts
amount_valid input low high h = in_range (parse_usize input) refl
  where
    in_range :
        (o : Option ℕ)
        → parse_usize input ≡ o
        → (n : ℕ) × (parse_usize input ≡ some n) × (low ≤ n) × (n ≤ high)
    in_range none e = absurd (ground arith)
    in_range (some n) e = (n, e, ground arith, ground arith)

pub name_valid :
    (input : String) → is_valid input name_rules ≡ true → all_chars is_ascii_alphabetic input ≡ true
unfolding is_valid accepts
name_valid input h = ground arith

-- What the two lines and the parsed amount make.
made_from :
    (name amount_string : String) (rest : List String) (item : ItemInterface) (rest' : List String)
    → is_valid name name_rules ≡ true
    → is_valid amount_string amount_rules ≡ true
    → made_item name rest (parse_usize amount_string) ≡ some (item, rest')
    → IsEntered item
unfolding made_item IsEntered
made_from name amount_string rest item rest' v w h =
    let (n, e, low, high) = amount_valid amount_string 1 upper_item_count_limit w in
    let same = ap (λ (p : ItemInterface × List String). p.0) (some_inj (rw e at h)) in
    subst IsEntered same (name_valid name v, low, high, refl)

made_with_amount :
    (name : String) (o : Option (String × List String)) (item : ItemInterface) (rest : List String)
    → is_valid name name_rules ≡ true
    → ((amount : String) (rest : List String)
        → o ≡ some (amount, rest)
        → is_valid amount amount_rules ≡ true)
    → with_amount name o ≡ some (item, rest)
    → IsEntered item
unfolding with_amount
made_with_amount name none item rest v w h = absurd (ground (arith, h))
made_with_amount name (some (amount, lines)) item rest v w h =
    made_from name amount lines item rest v (w amount lines refl) h

made_with_name :
    (o : Option (String × List String)) (item : ItemInterface) (rest : List String)
    → ((name : String) (rest : List String)
        → o ≡ some (name, rest)
        → is_valid name name_rules ≡ true)
    → with_name o ≡ some (item, rest)
    → IsEntered item
unfolding with_name
made_with_name none item rest v h = absurd (ground (arith, h))
made_with_name (some (name, lines)) item rest v h =
    made_with_amount name (read_validated_input amount_rules lines) item rest (v name lines refl)
      (read_valid amount_rules lines) h

-- An item that is entered has a name of ASCII letters only, an amount from 1 to the limit, and is
-- not acquired.
pub build_item_lem :
    (lines : List String) (item : ItemInterface) (rest : List String)
    → build_item lines ≡ some (item, rest)
    → IsEntered item
unfolding build_item
build_item_lem lines item rest h =
    made_with_name (read_validated_input name_rules lines) item rest (read_valid name_rules lines) h
