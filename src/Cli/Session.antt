-- ===== src/Cli/Session.antt =====
-- `render` of src/cli.rs: the screens over the client and its database, and the loop of src/main.rs
-- around them. A line that is read only to go on, and what is printed, are not modelled.
pub mod Leads
pub mod Shown
mod Tests
use sdle_shopping_list.Common.{
  ℕ, length, Uuid, String, string_eq, ◌==◌, Bool, true, false, Option, none, some, List, [], ◌∷◌,
  map, if◌then◌else◌,
}
use sdle_shopping_list.Common.Result.{Result, ok, err, ok_or, ◌>>=◌}
use sdle_shopping_list.HashMap.{HashMap}
use sdle_shopping_list.External.{Hashing}
use sdle_shopping_list.Storage.Client.{ClientDb}
use sdle_shopping_list.Client.{
  ShoppingListInterface, Exchange, retrieve_available_lists, retrieve_list,
  send_item_storage_request,
}
use sdle_shopping_list.Cli.{
  InputRule, custom, ItemInterface, State, list_create, list_edit, main_menu, exit, item_edit, Step,
  go, send, panic, read_validated_input, main_menu_rules, list_create_rules, list_edit_rules,
  item_edit_rules, build_item, handle_main_menu, handle_newlist_edit, handle_list_edit,
  handle_item_edit, is_done,
}

-- What a screen meets: the lines that are typed, what comes of a request for the list and of a
-- change of it, a fresh identifier, and what a change that fails leaves of the database.
pub record Input (Db : Type 0) : Type 0 where
  pub lines : List String
  pub fetching : Exchange
  pub sending : Exchange
  pub new_id : Uuid
  pub left : Db

unfoldable pub process_items : HashMap String (ℕ × Bool) → List ItemInterface
process_items [] = []
process_items ((item_name, (amount, acquired)) ∷ items) =
    record { name = item_name; amount = amount; acquired = acquired } ∷ process_items items

unfoldable pub print_and_process_list_items : ShoppingListInterface → List ItemInterface
print_and_process_list_items list = process_items list.items

-- The item that `build_item` reads where the command asks for one. No other command looks at it.
unfoldable pub entered : Bool → List String → Option (ItemInterface × List String)
entered true lines = build_item lines
entered false lines = some (record { name = ""; amount = 0; acquired = false }, lines)

-- The screen of a new manager.
unfoldable pub new : State
new = main_menu

module _ (c : Hashing) (sql : ClientDb) (client_id : Uuid) where
  unfoldable pub print_lists : sql.Db → List Uuid
  print_lists db = elim (retrieve_available_lists c sql client_id db) [
    | err ↦ []
    | ok none ↦ []
    | ok (some lists) ↦ map (λ list. list.list_id) lists
  ]

  -- An error: `todo!()` panics.
  unfoldable pub perform : Step → sql.Db → Input sql.Db → Result (State × sql.Db)
  perform (go screen) db i = ok (screen, db)
  perform (send r done failed) db i =
      elim (send_item_storage_request c sql client_id db r.item_name r.quantity r.acquired r.list_id
        i.sending) [ err ↦ ok (failed, i.left) | ok after ↦ ok (done, after) ]
  perform panic db i = err

  abbrev pub id_rules : List InputRule
  id_rules = custom (λ input. elim (c.parse_str input) [ none ↦ false | some id ↦ true ]) ∷ []

  -- The identifier that is read for the command `a`. No other command looks at it.
  unfoldable pub typed_id : Bool → List String → Uuid → Result Uuid
  typed_id true lines new_id = do
    read ← ok_or (read_validated_input id_rules lines)
    ok_or (c.parse_str read.0)
  typed_id false lines new_id = ok new_id

  -- An error of these, and of `render`: the lines end before one is valid, and the screen waits for
  -- more, or it panics.
  unfoldable pub render_main_menu : sql.Db → Input sql.Db → Result (State × sql.Db)
  unfolding print_lists typed_id
  render_main_menu db i =
      let lists = print_lists db in
      do
        read ← ok_or (read_validated_input (main_menu_rules (length lists)) i.lines)
        id ← typed_id (read.0 == "a") read.1 i.new_id
        ok (handle_main_menu read.0 lists i.new_id id, db)

  unfoldable pub render_list_create : Uuid → sql.Db → Input sql.Db → Result (State × sql.Db)
  unfolding perform entered
  render_list_create list_id db i = do
    read ← ok_or (read_validated_input list_create_rules i.lines)
    item ← ok_or (entered (read.0 == "a") read.1)
    perform (handle_newlist_edit read.0 item.0 list_id) db i

  -- The screen of the items of a list that was retrieved, and the database it left.
  unfoldable pub render_items :
      Uuid → List ItemInterface → sql.Db → Input sql.Db → Result (State × sql.Db)
  unfolding perform entered
  render_items list_id items db i = do
    read ← ok_or (read_validated_input (list_edit_rules (length items)) i.lines)
    item ← ok_or (entered (read.0 == "a") read.1)
    perform (handle_list_edit read.0 items item.0 list_id) db i

  unfoldable pub render_list_edit : Uuid → sql.Db → Input sql.Db → Result (State × sql.Db)
  unfolding render_items print_and_process_list_items
  render_list_edit list_id db i = elim (retrieve_list c sql client_id db list_id i.fetching) [
    | err ↦ ok (main_menu, db)
    | ok retrieved ↦ render_items list_id (print_and_process_list_items retrieved.0) retrieved.1 i
  ]

  unfoldable pub render_item_edit :
      Uuid → ItemInterface → sql.Db → Input sql.Db → Result (State × sql.Db)
  unfolding perform
  render_item_edit list_id item db i = do
    read ← ok_or (read_validated_input item_edit_rules i.lines)
    perform (handle_item_edit read.0 item list_id) db i

  -- The screen is taken out of the manager before the match, which leaves the main menu there.
  unfoldable pub render : State → sql.Db → Input sql.Db → Result (State × sql.Db)
  unfolding render_main_menu render_list_create render_list_edit render_item_edit
  render main_menu db i = render_main_menu db i
  render (list_create list_id) db i = render_list_create list_id db i
  render (list_edit list_id) db i = render_list_edit list_id db i
  render (item_edit list_id item) db i = render_item_edit list_id item db i
  render exit db i = ok (main_menu, db)

  -- The loop of `main`, on what each screen meets.
  unfoldable pub session : List (Input sql.Db) → State → sql.Db → Result (State × sql.Db)
  unfolding render
  session [] screen db = ok (screen, db)
  session (i ∷ inputs) screen db =
      let next = render screen db i >>= (λ after. session inputs after.0 after.1) in
      if is_done screen then ok (screen, db) else next
