-- ===== src/Sample/Tables/Laws.antt =====
-- The laws of a client's database in memory.
use sdle_shopping_list.Common.{
  Bool, ◌<◌, ◌∙◌, ℕ, ◌+◌, ltb, String, nat_eq, string_eq, ◌==◌, false, ◌&&◌, ◌||◌, Option, some,
  List, [], ◌∷◌, ◌≡◌, refl, sym, ap, arith, if◌then◌else◌, subst, Bool-cases, inl, inr,
}
use sdle_shopping_list.Common.Int.{pos, as_u64, i64_half}
use sdle_shopping_list.Common.Int.Words.{as_u64-pos}
use sdle_shopping_list.Common.Result.{Result, ok, ok_inj}
use sdle_shopping_list.Common.Sets.{contains}
use sdle_shopping_list.HashMap.{get, remove, Distinct}
use sdle_shopping_list.HashMap.Laws.{get-remove, remove-Distinct}
use sdle_shopping_list.Storage.Client.{StoredItemRow}
use sdle_shopping_list.Storage.Client.Tables.{
  ClientTables, CountPut, ItemPut, acquired_option, by_name,
}
use sdle_shopping_list.Sample.Tables.{
  Memory, memory, item_in, count_in, without_name, rows_in, counts_in, acquire, put_item, put_count,
}

by_name-without_name :
    (n : String) (rows : List StoredItemRow)
    → by_name (without_name n rows) ≡ remove (by_name rows) n
unfolding remove
by_name-without_name n [] = refl
by_name-without_name n (row ∷ rows) = ground (arith, by_name-without_name n rows)

rows_in-Distinct :
    (items : List (String × StoredItemRow)) (l : String) → Distinct (by_name (rows_in items l))
rows_in-Distinct [] l = tt
rows_in-Distinct ((k, row) ∷ items) l = elim (Bool-cases (k == l)) [
  | inl same ↦
      rw (same, by_name-without_name row.name (rows_in items l))
        (
          ground (
            arith,
            get-remove (by_name (rows_in items l)) row.name row.name,
            string_eq.beq_iff row.name row.name,
          ),
          remove-Distinct (by_name (rows_in items l)) row.name (rows_in-Distinct items l),
        )
  | inr other ↦ rw other (rows_in-Distinct items l)
]

get-rows_in :
    (items : List (String × StoredItemRow)) (l n : String)
    → get (by_name (rows_in items l)) n ≡ item_in items l n
unfolding get
get-rows_in [] l n = refl
get-rows_in ((k, row) ∷ items) l n = elim (Bool-cases (k == l)) [
  | inl same ↦
      rw (same, by_name-without_name row.name (rows_in items l))
        (ground (arith, get-remove (by_name (rows_in items l)) row.name n, get-rows_in items l n))
  | inr other ↦ rw other (get-rows_in items l n)
]

counts_in-Distinct : (counts : List (ℕ × String × ℕ)) (id : ℕ) → Distinct (counts_in counts id)
counts_in-Distinct [] id = tt
counts_in-Distinct ((j, b, v) ∷ counts) id = elim (Bool-cases (j == id)) [
  | inl same ↦ rw same (
    ground (arith, get-remove (counts_in counts id) b b, string_eq.beq_iff b b),
    remove-Distinct (counts_in counts id) b (counts_in-Distinct counts id),
  )
  | inr other ↦ rw other (counts_in-Distinct counts id)
]

get-counts_in :
    (counts : List (ℕ × String × ℕ)) (id : ℕ) (a : String)
    → get (counts_in counts id) a ≡ count_in counts id a
unfolding get
get-counts_in [] id a = refl
get-counts_in ((j, b, v) ∷ counts) id a = elim (Bool-cases (j == id)) [
  | inl same ↦
      rw same (ground (arith, get-remove (counts_in counts id) b a, get-counts_in counts id a))
  | inr other ↦ rw other (get-counts_in counts id a)
]

abbrev pub item_of : Memory → String → String → Option StoredItemRow
item_of db = item_in db.items

abbrev pub count_of : Memory → ℕ → String → Option ℕ
count_of db = count_in db.counts

abbrev pub has_counter_of : Memory → ℕ → Bool
has_counter_of db j = ltb j db.counters

abbrev pub local_of : Memory → List String
local_of db = db.locals

item_in-acquire :
    (id val clock : ℕ) (actor : String) (items : List (String × StoredItemRow)) (l n : String)
    → item_in (acquire id val clock actor items) l n
      ≡ acquired_option id val clock actor (item_in items l n)
item_in-acquire id val clock actor [] l n = refl
item_in-acquire id val clock actor ((k, row) ∷ items) l n =
    ground (arith, item_in-acquire id val clock actor items l n)

module _ (db : Memory) where
  pub lists_lem : (uuids : List String) → ok db.locals ≡ ok uuids → uuids ≡ db.locals
  lists_lem uuids h = sym (ok_inj h)

  pub item_lem :
      (l n : String) (o : Option StoredItemRow)
      → ok (item_in db.items l n) ≡ ok o
      → o ≡ item_in db.items l n
  item_lem l n o h = sym (ok_inj h)

  pub items_lem :
      (l : String) (rows : List StoredItemRow)
      → ok (rows_in db.items l) ≡ ok rows
      → Distinct (by_name rows) × ((n : String) → get (by_name rows) n ≡ item_in db.items l n)
  items_lem l rows h =
      subst
        (λ (r : List StoredItemRow).
          Distinct (by_name r) × ((n : String) → get (by_name r) n ≡ item_in db.items l n))
        (ok_inj h) (rows_in-Distinct db.items l, get-rows_in db.items l)

  pub counts_lem :
      (id : ℕ) (rows : List (String × ℕ))
      → ok (counts_in db.counts id) ≡ ok rows
      → Distinct rows × ((a : String) → get rows a ≡ count_in db.counts id a)
  counts_lem id rows h =
      subst
        (λ (r : List (String × ℕ)). Distinct r × ((a : String) → get r a ≡ count_in db.counts id a))
        (ok_inj h) (counts_in-Distinct db.counts id, get-counts_in db.counts id)

  pub counter_lem :
      (id : ℕ) (db' : Memory)
      → ◌≡◌ {A = Result (ℕ × Memory)}
          (ok (db.counters, record db { counters = db.counters + 1 }))
          (ok (id, db'))
      → (ltb id db.counters ≡ false)
        × ((j : ℕ) → ltb j db'.counters ≡ (id == j || ltb j db.counters))
        × ((l n : String) → item_in db'.items l n ≡ item_in db.items l n)
        × ((j : ℕ) (a : String) → count_in db'.counts j a ≡ count_in db.counts j a)
        × (db'.locals ≡ db.locals)
  counter_lem id db' h =
      subst
        (λ (r : ℕ × Memory).
          (ltb r.0 db.counters ≡ false)
          × ((j : ℕ) → ltb j r.1.counters ≡ (r.0 == j || ltb j db.counters))
          × ((l n : String) → item_in r.1.items l n ≡ item_in db.items l n)
          × ((j : ℕ) (a : String) → count_in r.1.counts j a ≡ count_in db.counts j a)
          × (r.1.locals ≡ db.locals))
        (ok_inj h) (ground arith, λ j. ground arith, λ l n. refl, λ j a. refl, refl)

  pub put_lem :
      (id : ℕ) (actor : String) (v : ℕ) (db' : Memory)
      → ok (put_count db id actor v) ≡ ok db'
      → CountPut item_of count_of has_counter_of local_of db id actor v db'
  put_lem id actor v db' h =
      subst
        (λ (r : Memory).
          ((j : ℕ) (a : String)
            → count_in r.counts j a
              ≡ (if id == j && actor == a then some v else count_in db.counts j a))
          × ((j : ℕ) → ltb j r.counters ≡ ltb j db.counters)
          × ((l n : String) → item_in r.items l n ≡ item_in db.items l n)
          × (r.locals ≡ db.locals))
        (ok_inj h) (λ j a. refl, λ j. refl, λ l n. refl, refl)

  pub row_lem :
      (l n : String) (val clock : ℕ) (actor : String) (p m : ℕ) (db' : Memory)
      → ok (put_item db l n val clock actor p m) ≡ ok db'
      → ItemPut item_of count_of has_counter_of local_of db l n val clock actor p m db'
  row_lem l n val clock actor p m db' h =
      let e = ok_inj h in
      (
        0,
        λ k o. ap (λ (r : Memory). item_in r.items k o) (sym e),
        λ j a. ap (λ (r : Memory). count_in r.counts j a) (sym e),
        λ j. ap (λ (r : Memory). ltb j r.counters) (sym e),
        ap (λ (r : Memory). r.locals) (sym e),
      )

-- The tables, but for the lists of one's own.
abbrev pub Unlisted : Memory → Memory → Type 0
Unlisted db db' =
    ((k o : String) → item_of db' k o ≡ item_of db k o)
    × ((j : ℕ) (a : String) → count_of db' j a ≡ count_of db j a)
    × ((j : ℕ) → has_counter_of db' j ≡ has_counter_of db j)

-- A count that is an `i64` of a `u64` is put as it is.
pub i64_lem :
    (db : Memory) (id : ℕ) (actor : String) (v : ℕ) (db' : Memory)
    → v < i64_half
    → ok (put_count db id actor (as_u64 (pos v))) ≡ ok db'
    → CountPut item_of count_of has_counter_of local_of db id actor v db'
i64_lem db id actor v db' small h =
    put_lem db id actor v db'
      (ap (λ w. ok (put_count db id actor w)) (sym (as_u64-pos v (omega arith))) ∙ h)

pub list_lem :
    (db : Memory) (l : String) (db' : Memory) → memory.insert_list db l ≡ ok db' → Unlisted db db'
list_lem db l db' h = elim (Bool-cases (contains db.locals l)) [
  | inl there ↦ subst (Unlisted db) (ok_inj (rw there at h)) (λ k o. refl, λ j a. refl, λ j. refl)
  | inr new ↦ subst (Unlisted db) (ok_inj (rw new at h)) (λ k o. refl, λ j a. refl, λ j. refl)
]

pub acquired_lem :
    (db : Memory) (id val clock : ℕ) (actor : String) (db' : Memory)
    → memory.update_acquired db id val clock actor ≡ ok db'
    → ((k o : String) → item_of db' k o ≡ acquired_option id val clock actor (item_of db k o))
      × ((j : ℕ) (a : String) → count_of db' j a ≡ count_of db j a)
      × ((j : ℕ) → has_counter_of db' j ≡ has_counter_of db j)
acquired_lem db id val clock actor db' h =
    subst
      (λ (r : Memory).
        ((k o : String) → item_of r k o ≡ acquired_option id val clock actor (item_of db k o))
        × ((j : ℕ) (a : String) → count_of r j a ≡ count_of db j a)
        × ((j : ℕ) → has_counter_of r j ≡ has_counter_of db j))
      (ok_inj h) (item_in-acquire id val clock actor db.items, λ j a. refl, λ j. refl)

abbrev pub tables : ClientTables memory
tables = record {
  item = item_of;
  count = count_of;
  has_counter = has_counter_of;
  local = local_of;
  select_lists_lem = lists_lem;
  select_item_lem = item_lem;
  select_items_lem = items_lem;
  select_counts_lem = counts_lem;
  insert_counter_lem = counter_lem;
  replace_count_lem = put_lem;
  insert_count_lem = put_lem;
  upsert_i64_lem = i64_lem;
  upsert_item_lem = row_lem;
  insert_item_lem = row_lem;
  insert_list_lem = list_lem;
  update_acquired_lem = acquired_lem;
}
