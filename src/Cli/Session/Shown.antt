-- ===== src/Cli/Session/Shown.antt =====
-- Where the screen of an item comes from.
use mathlib.Core.List.{Memᴰ}
use mathlib.Core.List.Memᴰ
use sdle_shopping_list.Common.{
  ℕ, length, Uuid, String, string_eq, ◌==◌, Bool, List, [], ◌∷◌, ◌≡◌, ◌≢◌, refl, ap, subst, arith,
}
use sdle_shopping_list.Common.Result.{Result, ok, err, ok_or, >>=-eq-ok}
use sdle_shopping_list.HashMap.{HashMap}
use sdle_shopping_list.External.{Hashing}
use sdle_shopping_list.Storage.Client.{ClientDb}
use sdle_shopping_list.Client.{ShoppingListInterface, retrieve_list}
use sdle_shopping_list.Cli.{
  ItemInterface, State, list_create, list_edit, main_menu, exit, item_edit, read_validated_input,
  main_menu_rules, list_create_rules, list_edit_rules, item_edit_rules, handle_main_menu,
}
use sdle_shopping_list.Cli.Session.{
  Input, process_items, print_and_process_list_items, entered, print_lists, typed_id,
  render_main_menu, render_list_create, render_items, render_list_edit, render_item_edit, render,
}
use sdle_shopping_list.Cli.Session.Leads.{not_item, newlist-Leads, item-Leads, list-Leads}

process_items-Mem :
    (items : HashMap String (ℕ × Bool)) (item : ItemInterface)
    → Memᴰ item (process_items items)
    → Memᴰ (item.name, (item.amount, item.acquired)) items
unfolding process_items
process_items-Mem [] item m = absurd (Memᴰ.not-nil m)
process_items-Mem ((item_name, (amount, acquired)) ∷ items) item (Memᴰ.head e) =
    Memᴰ.head (ap (λ (j : ItemInterface). (j.name, (j.amount, j.acquired))) e)
process_items-Mem ((item_name, (amount, acquired)) ∷ items) item (Memᴰ.tail m) =
    Memᴰ.tail (process_items-Mem items item m)

module _ (c : Hashing) (sql : ClientDb) (client_id : Uuid) (i : Input sql.Db) (l : Uuid)
    (item : ItemInterface) (after : sql.Db) where
  main_menu_no_item :
      (input : String) (lists : List Uuid) (new_id id : Uuid)
      → handle_main_menu input lists new_id id ≢ item_edit l item
  unfolding handle_main_menu
  main_menu_no_item input lists new_id id h = ground (arith, h)

  render_menu_no_item :
      (db : sql.Db) → render_main_menu c sql client_id db i ≢ ok (item_edit l item, after)
  unfolding render_main_menu
  render_menu_no_item db h =
      let (read, _, h') =
        >>=-eq-ok
          (ok_or (
            read_validated_input (main_menu_rules (length (print_lists c sql client_id db)))
              i.lines))
          _ h in
      let (id, _, e) = >>=-eq-ok (typed_id c sql client_id (read.0 == "a") read.1 i.new_id) _ h' in
      main_menu_no_item read.0 (print_lists c sql client_id db) i.new_id id (ground (arith, e))

  render_create_no_item :
      (list_id : Uuid) (db : sql.Db)
      → render_list_create c sql client_id list_id db i ≢ ok (item_edit l item, after)
  unfolding render_list_create
  render_create_no_item list_id db h =
      let (read, _, h') = >>=-eq-ok (ok_or (read_validated_input list_create_rules i.lines)) _ h in
      let (made, _, e) = >>=-eq-ok (ok_or (entered (read.0 == "a") read.1)) _ h' in
      newlist-Leads c sql client_id db i l item after read.0 made.0 list_id e

  render_edit_no_item :
      (list_id : Uuid) (edited : ItemInterface) (db : sql.Db)
      → render_item_edit c sql client_id list_id edited db i ≢ ok (item_edit l item, after)
  unfolding render_item_edit
  render_edit_no_item list_id edited db h =
      let (read, _, e) = >>=-eq-ok (ok_or (read_validated_input item_edit_rules i.lines)) _ h in
      item-Leads c sql client_id db i l item after read.0 edited list_id e

  render_items_shown :
      (list_id : Uuid) (items : List ItemInterface) (db : sql.Db)
      → render_items c sql client_id list_id items db i ≡ ok (item_edit l item, after)
      → (list_id ≡ l) × Memᴰ item items
  unfolding render_items
  render_items_shown list_id items db h =
      let (read, _, h') =
        >>=-eq-ok (ok_or (read_validated_input (list_edit_rules (length items)) i.lines)) _ h in
      let (made, _, e) = >>=-eq-ok (ok_or (entered (read.0 == "a") read.1)) _ h' in
      list-Leads c sql client_id db i l item after read.0 items made.0 list_id e

  -- The screen was that of the list, and the item is one of those it showed.
  abbrev pub IsShown : State → sql.Db → Type 0
  IsShown screen db =
      (screen ≡ list_edit l)
      × (retrieved : ShoppingListInterface × sql.Db) × (retrieve_list c sql client_id db l
            i.fetching
          ≡ ok retrieved)
      × Memᴰ (item.name, (item.amount, item.acquired)) retrieved.0.items

  render_list-IsShown :
      (list_id : Uuid) (db : sql.Db)
      → render_list_edit c sql client_id list_id db i ≡ ok (item_edit l item, after)
      → IsShown (list_edit list_id) db
  unfolding render_list_edit print_and_process_list_items
  render_list-IsShown list_id db h = go (retrieve_list c sql client_id db list_id i.fetching) refl
    where
      go :
          (r : Result (ShoppingListInterface × sql.Db))
          → retrieve_list c sql client_id db list_id i.fetching ≡ r
          → IsShown (list_edit list_id) db
      go err e = absurd (
          not_item c sql client_id db i l item after main_menu refl
            (ground (arith, rw (e, render_list_edit) at h)))
      go (ok retrieved) e =
          let (same, m) =
            render_items_shown list_id (print_and_process_list_items retrieved.0) retrieved.1
              (rw (e, render_list_edit) at h) in
          (
            ap list_edit same,
            retrieved,
            subst (λ id. retrieve_list c sql client_id db id i.fetching ≡ ok retrieved) same e,
            process_items-Mem retrieved.0.items item m,
          )

  -- When the screens come to the editing of an item, they were at the screen of its list, the list
  -- could be retrieved, and the name, amount and flag of the item are those of an entry of the
  -- retrieved list.
  pub render_lem :
      (screen : State) (db : sql.Db)
      → render c sql client_id screen db i ≡ ok (item_edit l item, after)
      → IsShown screen db
  unfolding render
  render_lem main_menu db h = absurd (render_menu_no_item db h)
  render_lem (list_create list_id) db h = absurd (render_create_no_item list_id db h)
  render_lem (list_edit list_id) db h = render_list-IsShown list_id db h
  render_lem (item_edit list_id edited) db h = absurd (render_edit_no_item list_id edited db h)
  render_lem exit db h =
      absurd (not_item c sql client_id db i l item after main_menu refl (ground (arith, h)))
