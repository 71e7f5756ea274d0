-- ===== src/Sample/Tables.antt =====
-- A client's database in memory: the tables as lists whose newest entry for a key counts.
pub mod Laws
use sdle_shopping_list.Common.{
  Bool, ◌<◌, ◌∙◌, ℕ, ◌+◌, ltb, String, nat_eq, string_eq, ◌==◌, false, ◌&&◌, ◌||◌, Option, none,
  some, List, [], ◌∷◌, ◌≡◌, refl, sym, ap, arith, if◌then◌else◌, subst, Bool-cases, inl, inr,
}
use sdle_shopping_list.Common.Int.{pos, as_u64, i64_half}
use sdle_shopping_list.Common.Int.Words.{as_u64-pos}
use sdle_shopping_list.Common.Result.{Result, ok, ok_inj}
use sdle_shopping_list.Common.Sets.{contains}
use sdle_shopping_list.HashMap.{get, remove, Distinct}
use sdle_shopping_list.HashMap.Laws.{get-remove, remove-Distinct}
use sdle_shopping_list.Storage.Client.{ClientDb, StoredItemRow}
use sdle_shopping_list.Storage.Client.Tables.{
  ClientTables, CountPut, ItemPut, acquired_option, by_name,
}

pub record Memory : Type 0 where
  pub items : List (String × StoredItemRow)
  pub counts : List (ℕ × String × ℕ)
  pub counters : ℕ
  pub locals : List String

abbrev pub item_in : List (String × StoredItemRow) → String → String → Option StoredItemRow
item_in [] l n = none
item_in ((k, row) ∷ items) l n = if k == l && row.name == n then some row else item_in items l n

abbrev pub count_in : List (ℕ × String × ℕ) → ℕ → String → Option ℕ
count_in [] id a = none
count_in ((j, b, v) ∷ counts) id a = if j == id && b == a then some v else count_in counts id a

abbrev pub without_name : String → List StoredItemRow → List StoredItemRow
without_name n [] = []
without_name n (row ∷ rows) =
    let rest = without_name n rows in if row.name == n then rest else row ∷ rest

abbrev pub rows_in : List (String × StoredItemRow) → String → List StoredItemRow
rows_in [] l = []
rows_in ((k, row) ∷ items) l =
    let rest = rows_in items l in if k == l then row ∷ without_name row.name rest else rest

abbrev pub counts_in : List (ℕ × String × ℕ) → ℕ → List (String × ℕ)
counts_in [] id = []
counts_in ((j, b, v) ∷ counts) id =
    let rest = counts_in counts id in if j == id then (b, v) ∷ remove rest b else rest

-- `UPDATE … WHERE item_id = …`
abbrev pub acquire :
    ℕ → ℕ → ℕ → String → List (String × StoredItemRow) → List (String × StoredItemRow)
acquire id val clock actor [] = []
acquire id val clock actor ((l, row) ∷ items) =
    let rest = acquire id val clock actor items in
    if row.item_id == id
    then (l, record row { acquired_val = val; acquired_clock = clock; acquired_actor = actor })
      ∷ rest
    else (l, row) ∷ rest

abbrev pub put_item : Memory → String → String → ℕ → ℕ → String → ℕ → ℕ → Memory
put_item db l n val clock actor p m = record db {
  items =
      (
        l,
        record {
          item_id = 0;
          name = n;
          acquired_val = val;
          acquired_clock = clock;
          acquired_actor = actor;
          p_id = p;
          n_id = m;
        },
      )
      ∷ db.items;
}

abbrev pub put_count : Memory → ℕ → String → ℕ → Memory
put_count db id a v = record db { counts = (id, a, v) ∷ db.counts }

abbrev pub memory : ClientDb
memory = record {
  Db = Memory;
  insert_list =
      λ db l. ok (if contains db.locals l then db else record db { locals = l ∷ db.locals });
  select_lists = λ db. ok db.locals;
  select_counts = λ db id. ok (counts_in db.counts id);
  select_item = λ db l n. ok (item_in db.items l n);
  select_items = λ db l. ok (rows_in db.items l);
  update_acquired =
      λ db id val clock actor. ok (record db { items = acquire id val clock actor db.items });
  upsert_i64 = λ db id a v. ok (put_count db id a (as_u64 v));
  replace_count = λ db id a v. ok (put_count db id a v);
  insert_count = λ db id a v. ok (put_count db id a v);
  insert_counter = λ db. ok (db.counters, record db { counters = db.counters + 1 });
  insert_item = λ db l n val clock actor p m. ok (put_item db l n val clock actor p m);
  upsert_item = λ db l n val clock actor p m. ok (put_item db l n val clock actor p m);
}
