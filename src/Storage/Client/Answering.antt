-- ===== src/Storage/Client/Answering.antt =====
-- What a storage request of ClientStorage leaves in the tables, for an item that is there or is new.
use sdle_shopping_list.Common.{
  ℕ, ◌+◌, ◌<◌, Uuid, String, nat_eq, string_eq, Bool, Option, none, some, ◌≡◌, refl, sym, ◌∙◌,
  arith, subst, some_inj,
}
use sdle_shopping_list.Common.Int.{pos, i64_half, u32_mod}
use sdle_shopping_list.Common.Result.{Result, ok, ◌>>=◌, >>=-eq-ok}
use sdle_shopping_list.HashMap.{get, insert}
use sdle_shopping_list.HashMap.Total.{total}
use sdle_shopping_list.Crdt.GCounter
use sdle_shopping_list.Crdt.PnCounter
use sdle_shopping_list.Crdt.Item
use sdle_shopping_list.Crdt.Item.{Item, as_u32}
use sdle_shopping_list.Crdt.Item.Merge.{IsValid}
use sdle_shopping_list.External.{Hashing}
use sdle_shopping_list.Storage.Client.{
  ClientDb, StoredItemRow, updated_item, build_item, overwrite_item, write_item,
  handle_item_storage_request, ensure_list, read_item,
}
use sdle_shopping_list.Storage.Client.Tables.{ClientTables, IsConsistent, Within}
use sdle_shopping_list.Storage.Client.Preparing.{Owner}
use sdle_shopping_list.Storage.Client.Quantity.{Fits, HasTotals-value_total, updated_item_lem}
use sdle_shopping_list.Storage.Client.Updating.{
  updated_item-IsValid, updated_absorbs, updated_small,
}
use sdle_shopping_list.Storage.Client.Changing.{Changed, overwrite_item-Changed, write_item-Changed}
use sdle_shopping_list.Storage.Client.Reading.{IsBuilt, build_item-IsBuilt}
use sdle_shopping_list.Storage.Client.Valid.{build_item-IsValid}

-- An item that says what was asked for.
pub record IsAsked (i : Item) (quantity : ℕ) (acquired : Bool) : Type 0 where
  pub amount : PnCounter.value_total i.amount ≡ pos quantity
  pub flag : i.acquired.val ≡ as_u32 acquired

new-IsValid :
    (quantity : ℕ) (acquired : Bool) (client_id : Uuid)
    → IsValid (Item.new quantity acquired client_id)
unfolding Item.new PnCounter.with_count GCounter.with_count insert get
new-IsValid quantity acquired client_id = record { p = (refl, tt); n = (refl, tt) }

new-IsAsked :
    (quantity : ℕ) (acquired : Bool) (client_id : Uuid)
    → quantity < i64_half
    → IsAsked (Item.new quantity acquired client_id) quantity acquired
unfolding Item.new PnCounter.with_count GCounter.with_count insert total
new-IsAsked quantity acquired client_id h = record {
  amount =
      HasTotals-value_total (PnCounter.with_count client_id quantity) quantity
        (quantity + 0, 0, refl, refl, refl, omega arith);
  flag = refl;
}

module _ (c : Hashing) {sql : ClientDb} (t : ClientTables sql) (client_id : Uuid) where
  -- The stored item can take the quantity and another clock.
  pub record CanTake (db : sql.Db) (l name : String) (quantity : ℕ) : Type 0 where
    pub stored :
        (row : StoredItemRow) (i : Item)
        → t.item db l name ≡ some row
        → IsBuilt c t client_id db row i
        → IsValid i
        → Fits i.amount quantity × (i.acquired.clock + 1 < u32_mod)

  pub record Answered (db : sql.Db) (l name : String) (quantity : ℕ) (acquired : Bool)
      : Type 0 where
    pub item : Item
    pub asked : IsAsked item quantity acquired
    pub valid : IsValid item
    pub changed : Changed c t client_id db l name item

  overwritten :
      (owner : Owner) (db db' : sql.Db) (l name : String) (quantity : ℕ) (acquired : Bool)
      (row : StoredItemRow) (i : Item)
      → IsConsistent c t owner db
      → CanTake db l name quantity
      → t.item db l name ≡ some row
      → build_item c sql client_id db row ≡ ok i
      → overwrite_item c sql client_id db
          (updated_item i quantity acquired client_id)
          row.item_id
          row.p_id
          row.n_id
        ≡ ok db'
      → Answered db' l name quantity acquired
  overwritten owner db db' l name quantity acquired row i v can e made h =
      let b = build_item-IsBuilt c t client_id owner db row i v made in
      let valid = build_item-IsValid c sql client_id db row i made in
      let (fits, clock) = can.stored row i e b valid in
      let new_valid = updated_item-IsValid i quantity acquired client_id valid in
      let absorbs = updated_absorbs i quantity acquired client_id valid in
      let covers = λ (row' : StoredItemRow) (e' : t.item db l name ≡ some row').
        subst
          (λ (w : StoredItemRow).
            Within c t db w.p_id (updated_item i quantity acquired client_id).amount.p.counter
            × Within c t db w.n_id (updated_item i quantity acquired client_id).amount.n.counter)
          (some_inj (sym e ∙ e'))
          (λ u g. b.p u ∙ (absorbs u).0 g, λ u g. b.n u ∙ (absorbs u).1 g) in
      let (small_p, small_n) = updated_small i quantity acquired client_id valid fits in
      let (amount, flag) = updated_item_lem i quantity acquired client_id valid fits clock in
      record {
        item = updated_item i quantity acquired client_id;
        asked = record { amount = amount; flag = flag };
        valid = new_valid;
        changed =
            overwrite_item-Changed c t client_id owner db db' l name row
              (updated_item i quantity acquired client_id) v e covers new_valid
              (record { p = small_p; n = small_n }) h;
      }

  listed :
      (owner : Owner) (db db1 : sql.Db)
      → IsConsistent c t owner db
      → ((k o : String) → t.item db1 k o ≡ t.item db k o)
      → ((j : ℕ) (a : String) → t.count db1 j a ≡ t.count db j a)
      → ((j : ℕ) → t.has_counter db1 j ≡ t.has_counter db j)
      → IsConsistent c t owner db1
  listed owner db db1 v items counts counters = record {
    positive = λ l n row e.
        let (o, h) = v.positive l n row (sym (items l n) ∙ e) in (o, counters row.p_id ∙ h);
    negative = λ l n row e.
        let (o, h) = v.negative l n row (sym (items l n) ∙ e) in (o, counters row.n_id ∙ h);
    unused = λ j a e. counts j a ∙ v.unused j a (sym (counters j) ∙ e);
    printed = λ j a w e. v.printed j a w (sym (counts j a) ∙ e);
  }

  listed-CanTake :
      (db db1 : sql.Db) (l name : String) (quantity : ℕ)
      → CanTake db l name quantity
      → ((k o : String) → t.item db1 k o ≡ t.item db k o)
      → ((j : ℕ) (a : String) → t.count db1 j a ≡ t.count db j a)
      → CanTake db1 l name quantity
  listed-CanTake db db1 l name quantity can items counts = record {
    stored = λ row i e b valid.
        can.stored row i (sym (items l name) ∙ e)
          (record {
            val = b.val;
            clock = b.clock;
            actor = b.actor;
            p = λ u. sym (counts row.p_id (c.uuid_string u)) ∙ b.p u;
            n = λ u. sym (counts row.n_id (c.uuid_string u)) ∙ b.n u;
          })
          valid;
  }

  at_row :
      (owner : Owner) (db db' : sql.Db) (l name : String) (quantity : ℕ) (acquired : Bool)
      (o : Option StoredItemRow)
      → IsConsistent c t owner db
      → quantity < i64_half
      → CanTake db l name quantity
      → t.item db l name ≡ o
      → elim o as (λ _. Result sql.Db) [
        | some row ↦ build_item c sql client_id db row >>= λ i.
            overwrite_item c sql client_id db
              (updated_item i quantity acquired client_id)
              row.item_id
              row.p_id
              row.n_id
        | none ↦ write_item c sql client_id db l (Item.new quantity acquired client_id) name
      ]
        ≡ ok db'
      → Answered db' l name quantity acquired
  at_row owner db db' l name quantity acquired (some row) v small can e h =
      let (i, made, last) = >>=-eq-ok (build_item c sql client_id db row) _ h in
      overwritten owner db db' l name quantity acquired row i v can e made last
  at_row owner db db' l name quantity acquired none v small can e h =
      let valid = new-IsValid quantity acquired client_id in
      record {
        item = Item.new quantity acquired client_id;
        asked = new-IsAsked quantity acquired client_id small;
        valid = valid;
        changed =
            write_item-Changed c t client_id owner db db' l name
              (Item.new quantity acquired client_id) v valid h;
      }

  pub handle_item_storage_request-Answered :
      (owner : Owner) (db db' : sql.Db) (name : String) (quantity : ℕ) (acquired : Bool) (id : Uuid)
      → IsConsistent c t owner db
      → quantity < i64_half
      → CanTake db (c.uuid_string id) name quantity
      → handle_item_storage_request c sql client_id db name quantity acquired id ≡ ok db'
      → Answered db' (c.uuid_string id) name quantity acquired
  unfolding handle_item_storage_request ensure_list read_item
  handle_item_storage_request-Answered owner db db' name quantity acquired id v small can h =
      let l = c.uuid_string id in
      let (db1, h1, rest) = >>=-eq-ok (sql.insert_list db l) _ h in
      let (row, h2, last) = >>=-eq-ok (sql.select_item db1 l name) _ rest in
      let (items, counts, counters) = t.insert_list_lem db l db1 h1 in
      at_row owner db1 db' l name quantity acquired row
        (listed owner db db1 v items counts counters) small
        (listed-CanTake db db1 l name quantity can items counts)
        (sym (t.select_item_lem db1 l name row h2)) last
