-- ===== src/Storage/Client.antt =====
-- `ClientStorage` of src/storage.rs, over the statements that it prepares. Opening the database and
-- its schema are not modelled.
pub mod Quantity
pub mod Identity
pub mod Tables
pub mod Counts
pub mod Preparing
pub mod Writing
pub mod Updating
pub mod Changing
pub mod Answering
pub mod Request
pub mod Saving
pub mod Locals
pub mod Reading
pub mod Valid
pub mod Roundtrip
use sdle_shopping_list.Common.{
  ℕ, ◌+◌, ◌%◌, eqb, ltb, Uuid, String, Bool, true, false, not, Option, none, some, List, [], ◌∷◌,
  nat_eq, nat_ord, if◌then◌else◌,
}
use sdle_shopping_list.Common.Int.{ℤ, pos, pos_part, neg_part, as_i64, as_u64, sub_i64, u32_mod}
use sdle_shopping_list.Common.Result.{Result, ok, err, ◌>>=◌, ok_or, map_result}
use sdle_shopping_list.HashMap
use sdle_shopping_list.HashMap.{HashMap}
use sdle_shopping_list.Crdt.GCounter.{GCounter}
use sdle_shopping_list.Crdt.PnCounter
use sdle_shopping_list.Crdt.PnCounter.{PnCounter}
use sdle_shopping_list.Crdt.LwwReg
use sdle_shopping_list.Crdt.Item
use sdle_shopping_list.Crdt.Item.{Item, as_u32}
use sdle_shopping_list.Crdt.AworMap
use sdle_shopping_list.Crdt.AworMap.{AworMap, ShoppingList}
use sdle_shopping_list.External.{Hashing}

pub record StoredItemRow : Type 0 where
  pub item_id : ℕ
  pub name : String
  pub acquired_val : ℕ
  pub acquired_clock : ℕ
  pub acquired_actor : String
  pub p_id : ℕ
  pub n_id : ℕ

-- The client's tables in SQLite, through the statements that the source prepares.
pub record ClientDb : Type 1 where
  pub Db : Type 0
  -- INSERT OR IGNORE INTO local_lists
  pub insert_list : Db → String → Result Db
  -- SELECT list_uuid FROM local_lists
  pub select_lists : Db → Result (List String)
  -- SELECT actor_id, value FROM gcounter_actor_values WHERE gcounter_id = ?1
  pub select_counts : Db → ℕ → Result (List (String × ℕ))
  -- SELECT … FROM awormap_items WHERE shopping_list_id = ?1 AND item_name = ?2
  pub select_item : Db → String → String → Result (Option StoredItemRow)
  -- SELECT … FROM awormap_items WHERE shopping_list_id = ?1
  pub select_items : Db → String → Result (List StoredItemRow)
  -- UPDATE awormap_items SET acquired_val, acquired_clock, acquired_actor WHERE item_id = ?4
  pub update_acquired : Db → ℕ → ℕ → ℕ → String → Result Db
  -- INSERT INTO gcounter_actor_values … ON CONFLICT … DO UPDATE, with an `i64`
  pub upsert_i64 : Db → ℕ → String → ℤ → Result Db
  -- INSERT OR REPLACE INTO gcounter_actor_values, with a `u64`
  pub replace_count : Db → ℕ → String → ℕ → Result Db
  -- INSERT INTO gcounter_actor_values, with a `u64`
  pub insert_count : Db → ℕ → String → ℕ → Result Db
  -- INSERT INTO gcounter DEFAULT VALUES, and last_insert_rowid()
  pub insert_counter : Db → Result (ℕ × Db)
  -- INSERT INTO awormap_items (list, name, val, clock, actor, p, n)
  pub insert_item : Db → String → String → ℕ → ℕ → String → ℕ → ℕ → Result Db
  -- the same … ON CONFLICT(shopping_list_id, item_name) DO UPDATE
  pub upsert_item : Db → String → String → ℕ → ℕ → String → ℕ → ℕ → Result Db

-- The middle of `handle_item_storage_request` on a stored item: the local copy with the difference
-- in amount and the new flag, merged back into the stored item.
unfoldable pub with_quantity : PnCounter → ℕ → PnCounter
with_quantity amount quantity =
    let delta = sub_i64 (as_i64 quantity) (PnCounter.value_total amount) in
    if ltb 0 (pos_part delta)
    then PnCounter.inc_by amount (as_u64 delta)
    else if ltb 0 (neg_part delta)
    then PnCounter.dec_by amount (as_u64 (sub_i64 (pos 0) delta))
    else amount

unfoldable pub with_acquired : LwwReg.LwwReg Uuid → Bool → Uuid → LwwReg.LwwReg Uuid
with_acquired stored acquired client_id =
    if eqb (as_u32 acquired) stored.val
    then stored
    else record { val = as_u32 acquired; clock = (stored.clock + 1) % u32_mod; actor = client_id }

unfoldable pub updated_item : Item → ℕ → Bool → Uuid → Item
updated_item stored quantity acquired client_id = Item.merge stored (record {
  amount = with_quantity stored.amount quantity;
  acquired = with_acquired stored.acquired acquired client_id;
})

module _ (c : Hashing) (sql : ClientDb) (client_id : Uuid) where
  open sql use {
    Db, insert_list, select_lists, select_counts, select_item, select_items, update_acquired,
    upsert_i64, replace_count, insert_count, insert_counter, insert_item, upsert_item,
  }

  unfoldable pub ensure_list : Db → Uuid → Result Db
  ensure_list db shopping_list_id = insert_list db (c.uuid_string shopping_list_id)

  -- The loop of `read_gcounter` over its rows.
  unfoldable pub read_counts : HashMap Uuid ℕ → List (String × ℕ) → Result (HashMap Uuid ℕ)
  read_counts counter [] = ok counter
  read_counts counter ((actor, value) ∷ rows) =
      let rest = λ (id : Uuid). read_counts (HashMap.insert counter id value) rows in
      ok_or (c.parse_str actor) >>= rest

  unfoldable pub read_gcounter : Db → ℕ → Result GCounter
  unfolding read_counts
  read_gcounter db id = do
    rows ← select_counts db id
    counter ← read_counts [] rows
    ok (record { counter = counter; actor_id = client_id })

  unfoldable pub read_item : Db → String → Uuid → Result (Option StoredItemRow)
  read_item db item_name shopping_list_id =
      select_item db (c.uuid_string shopping_list_id) item_name

  unfoldable pub build_item : Db → StoredItemRow → Result Item
  unfolding read_gcounter
  build_item db row = do
    p ← read_gcounter db row.p_id
    n ← read_gcounter db row.n_id
    actor ← ok_or (c.parse_str row.acquired_actor)
    ok (record {
      amount = record { p = p; n = n };
      acquired = LwwReg.new row.acquired_val row.acquired_clock actor;
    })

  -- The loop of `read_shopping_list` over its rows.
  unfoldable pub read_rows : Db → AworMap → List StoredItemRow → Result AworMap
  unfolding build_item
  read_rows db awormap [] = ok awormap
  read_rows db awormap (row ∷ rows) =
      let rest = λ (item : Item). read_rows db (AworMap.insert awormap row.name item) rows in
      build_item db row >>= rest

  unfoldable pub read_shopping_list : Db → Uuid → Result ShoppingList
  unfolding read_rows
  read_shopping_list db id = do
    rows ← select_items db (c.uuid_string id)
    list ← read_rows db AworMap.new rows
    ok (record { id = id; list = list })

  -- `Uuid::try_parse` and `read_shopping_list` for each row of `local_lists`.
  unfoldable pub read_list : Db → String → Result ShoppingList
  unfolding read_shopping_list
  read_list db uuid = do list_uuid ← ok_or (c.parse_str uuid); read_shopping_list db list_uuid

  unfoldable pub get_user_lists : Db → Result (Option (List ShoppingList))
  unfolding read_list
  get_user_lists db = do
    uuids ← select_lists db
    lists ← map_result (read_list db) uuids
    ok (elim lists [ [] ↦ none | l ∷ ls ↦ some (l ∷ ls) ])

  -- One statement for each count of a counter.
  unfoldable pub write_counts :
      (Db → ℕ → String → ℕ → Result Db) → Db → ℕ → HashMap Uuid ℕ → Result Db
  write_counts statement db id [] = ok db
  write_counts statement db id ((actor, count) ∷ counter) =
      let rest = λ (db' : Db). write_counts statement db' id counter in
      statement db id (c.uuid_string actor) count >>= rest

  upsert_count : Db → ℕ → String → ℕ → Result Db
  upsert_count db id actor val_u64 = upsert_i64 db id actor (as_i64 val_u64)

  unfoldable pub overwrite_item : Db → Item → ℕ → ℕ → ℕ → Result Db
  unfolding write_counts upsert_count
  overwrite_item db item item_id p_gcounter_id n_gcounter_id = do
    db ←
        update_acquired db item_id item.acquired.val item.acquired.clock
          (c.uuid_string item.acquired.actor)
    db ← write_counts upsert_count db p_gcounter_id item.amount.p.counter
    write_counts upsert_count db n_gcounter_id item.amount.n.counter

  unfoldable pub write_item : Db → String → Item → String → Result Db
  unfolding write_counts
  write_item db shopping_list_id item item_name = do
    (p_id, db) ← insert_counter db
    (n_id, db) ← insert_counter db
    db ← write_counts insert_count db p_id item.amount.p.counter
    db ← write_counts insert_count db n_id item.amount.n.counter
    insert_item db shopping_list_id item_name item.acquired.val item.acquired.clock
        (c.uuid_string item.acquired.actor) p_id n_id

  -- In the source the row that `ensure_list` commits stays when a later statement fails; here an error
  -- leaves no database.
  unfoldable pub handle_item_storage_request : Db → String → ℕ → Bool → Uuid → Result Db
  handle_item_storage_request db item_name quantity acquired shopping_list_id = do
    db ← ensure_list db shopping_list_id
    item_opt ← read_item db item_name shopping_list_id
    elim item_opt [
      | some row ↦ do
        stored_item ← build_item db row
        overwrite_item db (updated_item stored_item quantity acquired client_id) row.item_id
            row.p_id row.n_id
      | none ↦
          write_item db (c.uuid_string shopping_list_id) (Item.new quantity acquired client_id)
            item_name
    ]

  -- The counters of a row that is there already, or two new ones.
  pub counters_for : Db → Option StoredItemRow → Result (ℕ × ℕ × Db)
  counters_for db (some row) = ok (row.p_id, row.n_id, db)
  counters_for db none = do
    (p_id, db) ← insert_counter db
    (n_id, db) ← insert_counter db
    ok (p_id, n_id, db)

  unfoldable pub write_list_item : Db → String → String → Item → Result Db
  unfolding counters_for write_counts
  write_list_item db shopping_list_id name item = do
    row ← select_item db shopping_list_id name
    (p_id, n_id, db) ← counters_for db row
    db ← write_counts replace_count db p_id item.amount.p.counter
    db ← write_counts replace_count db n_id item.amount.n.counter
    upsert_item db shopping_list_id name item.acquired.val item.acquired.clock
        (c.uuid_string item.acquired.actor) p_id n_id

  -- The loop of `write_shopping_list`, in one transaction: an error leaves the old database.
  unfoldable pub write_items : Db → String → HashMap String Item → Result Db
  unfolding write_list_item
  write_items db shopping_list_id [] = ok db
  write_items db shopping_list_id ((name, item) ∷ items) =
      let rest = λ (db' : Db). write_items db' shopping_list_id items in
      write_list_item db shopping_list_id name item >>= rest

  unfoldable pub write_shopping_list : Db → ShoppingList → Result Db
  unfolding write_items
  write_shopping_list db list = write_items db (c.uuid_string list.id) list.list.items
