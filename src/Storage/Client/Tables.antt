-- ===== src/Storage/Client/Tables.antt =====
-- What SQLite's tables make of the statements of ClientStorage, and what the tables of a client hold.
use sdle_shopping_list.Common.{
  ℕ, Uuid, String, nat_eq, string_eq, ◌==◌, Bool, true, false, ◌&&◌, ◌||◌, Option, none, some, List,
  map, ◌≡◌, ◌<◌, if◌then◌else◌,
}
use sdle_shopping_list.Common.Int.{pos, i64_half}
use sdle_shopping_list.Common.Result.{ok}
use sdle_shopping_list.HashMap.{HashMap, get, Distinct}
use sdle_shopping_list.Crdt.Item.{Item}
use sdle_shopping_list.External.{Hashing}
use sdle_shopping_list.Storage.Client.{ClientDb, StoredItemRow}

abbrev pub by_name : List StoredItemRow → HashMap String StoredItemRow
by_name rows = map (λ (row : StoredItemRow). (row.name, row)) rows

module _ {Db : Type 0} (item : Db → String → String → Option StoredItemRow)
    (count : Db → ℕ → String → Option ℕ) (has_counter : Db → ℕ → Bool)
    (local : Db → List String) where
  -- A count is put under its counter and its actor, and nothing else changes.
  abbrev pub CountPut : Db → ℕ → String → ℕ → Db → Type 0
  CountPut db id actor v db' =
      ((j : ℕ) (a : String)
        → count db' j a ≡ (if id == j && actor == a then some v else count db j a))
      × ((j : ℕ) → has_counter db' j ≡ has_counter db j)
      × ((l n : String) → item db' l n ≡ item db l n)
      × (local db' ≡ local db)

  -- A row is put under its list and its name, and nothing else changes. It keeps its key, or has a
  -- new one.
  abbrev pub ItemPut : Db → String → String → ℕ → ℕ → String → ℕ → ℕ → Db → Type 0
  ItemPut db l n val clock actor p m db' =
      (id : ℕ) × ((k o : String)
        → item db' k o ≡ (
            if l == k && n == o
            then some (record {
              item_id = id;
              name = n;
              acquired_val = val;
              acquired_clock = clock;
              acquired_actor = actor;
              p_id = p;
              n_id = m;
            })
            else item db k o))
      × ((j : ℕ) (a : String) → count db' j a ≡ count db j a)
      × ((j : ℕ) → has_counter db' j ≡ has_counter db j)
      × (local db' ≡ local db)

-- `UPDATE … WHERE item_id = …`, on one row.
abbrev pub acquired_row : ℕ → ℕ → ℕ → String → StoredItemRow → StoredItemRow
acquired_row id val clock actor row =
    if row.item_id == id
    then record row { acquired_val = val; acquired_clock = clock; acquired_actor = actor }
    else row

abbrev pub acquired_option : ℕ → ℕ → ℕ → String → Option StoredItemRow → Option StoredItemRow
acquired_option id val clock actor none = none
acquired_option id val clock actor (some row) = some (acquired_row id val clock actor row)

-- The tables behind the statements of `write_shopping_list` and `read_shopping_list`: `item` is the
-- row of awormap_items under a list and a name, which is unique; `count` the value of
-- gcounter_actor_values under its primary key; `has_counter` says which rows gcounter has; `local` is
-- what local_lists holds.
pub record ClientTables (sql : ClientDb) : Type 0 where
  pub item : sql.Db → String → String → Option StoredItemRow
  pub count : sql.Db → ℕ → String → Option ℕ
  pub has_counter : sql.Db → ℕ → Bool
  pub local : sql.Db → List String
  pub select_lists_lem :
      (db : sql.Db) (uuids : List String) → sql.select_lists db ≡ ok uuids → uuids ≡ local db
  pub select_item_lem :
      (db : sql.Db) (l n : String) (o : Option StoredItemRow)
      → sql.select_item db l n ≡ ok o
      → o ≡ item db l n
  pub select_items_lem :
      (db : sql.Db) (l : String) (rows : List StoredItemRow)
      → sql.select_items db l ≡ ok rows
      → Distinct (by_name rows) × ((n : String) → get (by_name rows) n ≡ item db l n)
  pub select_counts_lem :
      (db : sql.Db) (id : ℕ) (rows : List (String × ℕ))
      → sql.select_counts db id ≡ ok rows
      → Distinct rows × ((a : String) → get rows a ≡ count db id a)
  -- The identifier is new.
  pub insert_counter_lem :
      (db : sql.Db) (id : ℕ) (db' : sql.Db)
      → sql.insert_counter db ≡ ok (id, db')
      → (has_counter db id ≡ false)
        × ((j : ℕ) → has_counter db' j ≡ (id == j || has_counter db j))
        × ((l n : String) → item db' l n ≡ item db l n)
        × ((j : ℕ) (a : String) → count db' j a ≡ count db j a)
        × (local db' ≡ local db)
  pub replace_count_lem :
      (db : sql.Db) (id : ℕ) (actor : String) (v : ℕ) (db' : sql.Db)
      → sql.replace_count db id actor v ≡ ok db'
      → CountPut item count has_counter local db id actor v db'
  pub insert_count_lem :
      (db : sql.Db) (id : ℕ) (actor : String) (v : ℕ) (db' : sql.Db)
      → sql.insert_count db id actor v ≡ ok db'
      → CountPut item count has_counter local db id actor v db'
  -- An `i64` that is not negative is read back as that number.
  pub upsert_i64_lem :
      (db : sql.Db) (id : ℕ) (actor : String) (v : ℕ) (db' : sql.Db)
      → v < i64_half
      → sql.upsert_i64 db id actor (pos v) ≡ ok db'
      → CountPut item count has_counter local db id actor v db'
  pub upsert_item_lem :
      (db : sql.Db) (l n : String) (val clock : ℕ) (actor : String) (p m : ℕ) (db' : sql.Db)
      → sql.upsert_item db l n val clock actor p m ≡ ok db'
      → ItemPut item count has_counter local db l n val clock actor p m db'
  pub insert_item_lem :
      (db : sql.Db) (l n : String) (val clock : ℕ) (actor : String) (p m : ℕ) (db' : sql.Db)
      → sql.insert_item db l n val clock actor p m ≡ ok db'
      → ItemPut item count has_counter local db l n val clock actor p m db'
  pub insert_list_lem :
      (db : sql.Db) (l : String) (db' : sql.Db)
      → sql.insert_list db l ≡ ok db'
      → ((k o : String) → item db' k o ≡ item db k o)
        × ((j : ℕ) (a : String) → count db' j a ≡ count db j a)
        × ((j : ℕ) → has_counter db' j ≡ has_counter db j)
  pub update_acquired_lem :
      (db : sql.Db) (id val clock : ℕ) (actor : String) (db' : sql.Db)
      → sql.update_acquired db id val clock actor ≡ ok db'
      → ((k o : String) → item db' k o ≡ acquired_option id val clock actor (item db k o))
        × ((j : ℕ) (a : String) → count db' j a ≡ count db j a)
        × ((j : ℕ) → has_counter db' j ≡ has_counter db j)

module _ (c : Hashing) {sql : ClientDb} (t : ClientTables sql) where
  -- A counter belongs to one item, as its positive or its negative one. A counter that is not there
  -- has no counts, and the actors of counts are identifiers.
  pub record IsConsistent (owner : ℕ → String × String × Bool) (db : sql.Db) : Type 0 where
    pub positive :
        (l n : String) (row : StoredItemRow)
        → t.item db l n ≡ some row
        → (owner row.p_id ≡ (l, n, true)) × (t.has_counter db row.p_id ≡ true)
    pub negative :
        (l n : String) (row : StoredItemRow)
        → t.item db l n ≡ some row
        → (owner row.n_id ≡ (l, n, false)) × (t.has_counter db row.n_id ≡ true)
    pub unused : (j : ℕ) (a : String) → t.has_counter db j ≡ false → t.count db j a ≡ none
    pub printed :
        (j : ℕ) (a : String) (v : ℕ) → t.count db j a ≡ some v → (u : Uuid) × (c.uuid_string u ≡ a)

  -- The counts of one counter in the tables are those of a counter in memory.
  abbrev pub HasCounts : sql.Db → ℕ → HashMap Uuid ℕ → Type 0
  HasCounts db id counter = (u : Uuid) → t.count db id (c.uuid_string u) ≡ get counter u

  -- The row of an item says what the item says.
  pub record IsSaved (db : sql.Db) (l name : String) (i : Item) : Type 0 where
    pub row : StoredItemRow
    pub found : t.item db l name ≡ some row
    pub val : row.acquired_val ≡ i.acquired.val
    pub clock : row.acquired_clock ≡ i.acquired.clock
    pub actor : row.acquired_actor ≡ c.uuid_string i.acquired.actor
    pub p : HasCounts db row.p_id i.amount.p.counter
    pub n : HasCounts db row.n_id i.amount.n.counter

  -- An item has a count for every actor of which the tables have one, for the counters of its row.
  abbrev pub Within : sql.Db → ℕ → HashMap Uuid ℕ → Type 0
  Within db id counter = (u : Uuid) → get counter u ≡ none → t.count db id (c.uuid_string u) ≡ none

  abbrev pub Covers : sql.Db → String → String → Item → Type 0
  Covers db l n i =
      (row : StoredItemRow)
      → t.item db l n ≡ some row
      → Within db row.p_id i.amount.p.counter × Within db row.n_id i.amount.n.counter
