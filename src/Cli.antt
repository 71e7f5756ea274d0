-- ===== src/Cli.antt =====
-- src/cli.rs: the screens of the client as a state machine. What is printed is not modelled. A read
-- of standard input takes lines from a list; `read_line` is taken to succeed.
pub mod Input
pub mod Screens
pub mod Session
mod Tests
use Prim.Native.String.{[] as no_char}
use sdle_shopping_list.Common.{
  ℕ, zero, suc, ◌+◌, eqb, leb, ltb, length, get_elem?, Uuid, String, string_eq, ◌==◌, Bool, true,
  false, not, ◌&&◌, ◌||◌, Option, none, some, List, [], ◌∷◌, if◌then◌else◌,
}
use sdle_shopping_list.Common.Sets.{contains}
use sdle_shopping_list.Common.Result.{Result, ok, err}
use sdle_shopping_list.Common.Text.{
  trim, is_empty, is_ascii_digit, is_ascii_alphabetic, all_chars, parse_usize, after_a,
}

abbrev pub upper_item_count_limit : ℕ
upper_item_count_limit = 1000000

pub data InputRule : Type 0 where
  accept_strings : List String → InputRule
  accept_number_range : ℕ → ℕ → InputRule
  custom : (String → Bool) → InputRule
  accept_all : InputRule

-- `ItemInterface` of src/client.rs.
pub record ItemInterface : Type 0 where
  pub name : String
  pub amount : ℕ
  pub acquired : Bool

pub data State : Type 0 where
  list_create : Uuid → State
  list_edit : Uuid → State
  main_menu : State
  exit : State
  item_edit : Uuid → ItemInterface → State

-- A call of `send_item_storage_request`.
pub record Request : Type 0 where
  pub item_name : String
  pub quantity : ℕ
  pub acquired : Bool
  pub list_id : Uuid

-- One rule of `is_valid`.
unfoldable pub accepts : InputRule → String → Bool
accepts (accept_strings list) input = contains list input
accepts (accept_number_range low high) input = elim (parse_usize input) [
  | none ↦ false
  | some n ↦ leb low n && leb n high
]
accepts (custom func) input = func input
accepts accept_all input = true

unfoldable pub is_valid : String → List InputRule → Bool
unfolding accepts
is_valid input [] = false
is_valid input (rule ∷ rules) = if accepts rule input then true else is_valid input rules

-- Reads lines until one is valid: that line, trimmed, and the lines behind it. With no valid line the
-- source waits for more.
unfoldable pub read_validated_input : List InputRule → List String → Option (String × List String)
unfolding is_valid
read_validated_input rules [] = none
read_validated_input rules (line ∷ lines) =
    let rest = read_validated_input rules lines in
    if is_valid (trim line) rules then some (trim line, lines) else rest

-- The rules of the screens.
abbrev pub main_menu_rules : ℕ → List InputRule
main_menu_rules lists = accept_strings ("a" ∷ "q" ∷ "c" ∷ []) ∷ accept_number_range 1 lists ∷ []

abbrev pub list_create_rules : List InputRule
list_create_rules = accept_strings ("q" ∷ "b" ∷ "a" ∷ []) ∷ []

abbrev pub list_edit_rules : ℕ → List InputRule
list_edit_rules items =
    accept_strings ("q" ∷ "b" ∷ "a" ∷ "r" ∷ []) ∷ accept_number_range 1 items ∷ []

-- `s.starts_with('a') && s.len() > 1 && s[1..].chars().all(|c| c.is_ascii_digit())`
unfoldable pub is_amount_command : String → Bool
is_amount_command s = elim (after_a s) [
  | none ↦ false
  | some rest ↦ not (is_empty rest) && all_chars is_ascii_digit rest
]

abbrev pub item_edit_rules : List InputRule
item_edit_rules = accept_strings ("q" ∷ "d" ∷ "b" ∷ []) ∷ custom is_amount_command ∷ []

-- What a handler may do: go to a screen, or send a request and then go to one of two screens,
-- whether it succeeded or not.
pub data Step : Type 0 where
  go : State → Step
  send : Request → State → State → Step
  -- `todo!()`
  panic : Step

-- A screen that no branch sets is the main menu, which `render` puts there first.
unfoldable pub item_edit_amount : Option ℕ → ItemInterface → Uuid → Step
item_edit_amount none item list_id = go main_menu
item_edit_amount (some amount) item list_id =
    if ltb amount 1
    then go (list_edit list_id)
    else send
        (record {
          item_name = item.name;
          quantity = amount;
          acquired = item.acquired;
          list_id = list_id;
        })
        (list_edit list_id) (list_edit list_id)

unfoldable pub handle_item_edit : String → ItemInterface → Uuid → Step
unfolding item_edit_amount
handle_item_edit input item list_id =
    if input == "q"
    then go exit
    else if input == "b"
    then go (list_edit list_id)
    else if input == "d"
    then send
        (record {
          item_name = item.name;
          quantity = item.amount;
          acquired = not item.acquired;
          list_id = list_id;
        })
        (list_edit list_id) (list_edit list_id)
    else elim (after_a input) [
      | none ↦ go main_menu
      | some rest ↦ item_edit_amount (parse_usize rest) item list_id
    ]

-- `build_item`: a name of letters and an amount between 1 and the limit, from two validated lines.
abbrev pub name_rules : List InputRule
name_rules = custom (all_chars is_ascii_alphabetic) ∷ []

abbrev pub amount_rules : List InputRule
amount_rules = accept_number_range 1 upper_item_count_limit ∷ []

unfoldable pub made_item : String → List String → Option ℕ → Option (ItemInterface × List String)
made_item name lines none = none
made_item name lines (some amount) =
    some (record { name = name; amount = amount; acquired = false }, lines)

-- The two steps behind the first line, of a name, and the second, of an amount.
unfoldable pub with_amount :
    String → Option (String × List String) → Option (ItemInterface × List String)
unfolding made_item
with_amount name none = none
with_amount name (some (amount_string, lines)) = made_item name lines (parse_usize amount_string)

unfoldable pub with_name : Option (String × List String) → Option (ItemInterface × List String)
unfolding with_amount
with_name none = none
with_name (some (name, lines)) = with_amount name (read_validated_input amount_rules lines)

unfoldable pub build_item : List String → Option (ItemInterface × List String)
unfolding with_name
build_item lines = with_name (read_validated_input name_rules lines)

-- The request for an item that `build_item` made.
abbrev pub request_for : ItemInterface → Uuid → Request
request_for item list_id = record {
  item_name = item.name;
  quantity = item.amount;
  acquired = item.acquired;
  list_id = list_id;
}

-- `item` is what `build_item` returns, where the command asks for one.
unfoldable pub handle_newlist_edit : String → ItemInterface → Uuid → Step
handle_newlist_edit input item list_id =
    if input == "q"
    then go exit
    else if input == "b"
    then go main_menu
    else if input == "a"
    then send (request_for item list_id) (list_edit list_id) (list_create list_id)
    else go main_menu

-- `selection.checked_sub(1)` and the bounds test on the index.
unfoldable pub select {ℓ} : {A : Type ℓ} → ℕ → List A → Option A
select zero items = none
select (suc idx) items = if ltb idx (length items) then get_elem? items idx else none

unfoldable pub list_edit_other : String → List ItemInterface → Uuid → Step
unfolding select
list_edit_other other items list_id = elim (parse_usize other) [
  | none ↦ go main_menu
  | some selection ↦ elim (select selection items) [
    | none ↦ go main_menu
    | some chosen_item ↦ go (item_edit list_id chosen_item)
  ]
]

unfoldable pub handle_list_edit : String → List ItemInterface → ItemInterface → Uuid → Step
unfolding list_edit_other
handle_list_edit input items item list_id =
    if input == "q"
    then go exit
    else if input == "b"
    then go main_menu
    else if input == "r"
    then go (list_edit list_id)
    else if input == "a"
    then send (request_for item list_id) (list_edit list_id) (list_edit list_id)
    else if input == "d"
    then panic
    else list_edit_other input items list_id

-- `new_id` is `Uuid::new_v4()`, `typed_id` the identifier that is read for the command `a`.
unfoldable pub handle_main_menu : String → List Uuid → Uuid → Uuid → State
unfolding select
handle_main_menu input lists new_id typed_id =
    if input == "q"
    then exit
    else if input == "c"
    then list_create new_id
    else if input == "a"
    then list_edit typed_id
    else elim (parse_usize input) [
      | none ↦ main_menu
      | some selection ↦ elim (select selection lists) [
        | none ↦ main_menu
        | some chosen_list_id ↦ list_edit chosen_list_id
      ]
    ]

unfoldable pub is_done : State → Bool
is_done exit = true
is_done _ = false
