-- ===== src/Storage/Client/Locals.antt =====
-- The lists of its own that a client has, after `write_shopping_list` of ClientStorage.
use sdle_shopping_list.Common.{ℕ, Uuid, String, Option, none, some, [], ◌∷◌, ◌≡◌, sym, ap, ◌∙◌}
use sdle_shopping_list.Common.Result.{ok, >>=-eq-ok, ok_inj}
use sdle_shopping_list.HashMap.{HashMap}
use sdle_shopping_list.Crdt.Item.{Item}
use sdle_shopping_list.External.{Hashing}
use sdle_shopping_list.Storage.Client.{
  ClientDb, StoredItemRow, counters_for, write_counts, write_list_item, write_items,
}
use sdle_shopping_list.Storage.Client.Tables.{ClientTables}

module _ (c : Hashing) {sql : ClientDb} (t : ClientTables sql) (client_id : Uuid) where
  replaced-local :
      (db db' : sql.Db) (id : ℕ) (counter : HashMap Uuid ℕ)
      → write_counts c sql client_id sql.replace_count db id counter ≡ ok db'
      → t.local db' ≡ t.local db
  unfolding write_counts
  replaced-local db db' id [] h = ap t.local (sym (ok_inj h))
  replaced-local db db' id ((actor, count) ∷ counter) h =
      let (db1, first, rest) =
        >>=-eq-ok (sql.replace_count db id (c.uuid_string actor) count) _ h in
      let (_, _, _, same) = t.replace_count_lem db id (c.uuid_string actor) count db1 first in
      replaced-local db1 db' id counter rest ∙ same

  counters_for-local :
      (db : sql.Db) (o : Option StoredItemRow) (p n : ℕ) (db' : sql.Db)
      → counters_for c sql client_id db o ≡ ok (p, n, db')
      → t.local db' ≡ t.local db
  unfolding counters_for
  counters_for-local db (some row) p n db' h =
      ap (λ (r : ℕ × ℕ × sql.Db). t.local r.2) (sym (ok_inj h))
  counters_for-local db none p n db' h =
      let ((p', db1), first, h1) = >>=-eq-ok (sql.insert_counter db) _ h in
      let ((n', db2), second, e) = >>=-eq-ok (sql.insert_counter db1) _ h1 in
      let (_, _, _, _, same) = t.insert_counter_lem db p' db1 first in
      let (_, _, _, _, same') = t.insert_counter_lem db1 n' db2 second in
      ap (λ (r : ℕ × ℕ × sql.Db). t.local r.2) (sym (ok_inj e)) ∙ same' ∙ same

  write_list_item-local :
      (db db' : sql.Db) (l name : String) (i : Item)
      → write_list_item c sql client_id db l name i ≡ ok db'
      → t.local db' ≡ t.local db
  unfolding write_list_item
  write_list_item-local db db' l name i h =
      let (o, found, h1) = >>=-eq-ok (sql.select_item db l name) _ h in
      let ((p, n, db1), counters, h2) = >>=-eq-ok (counters_for c sql client_id db o) _ h1 in
      let (db2, wp, h3) =
        >>=-eq-ok (write_counts c sql client_id sql.replace_count db1 p i.amount.p.counter) _ h2 in
      let (db3, wn, put) =
        >>=-eq-ok (write_counts c sql client_id sql.replace_count db2 n i.amount.n.counter) _ h3 in
      let (_, _, _, _, same) = t.upsert_item_lem db3 l name _ _ _ p n db' put in
      same
      ∙ replaced-local db2 db3 n i.amount.n.counter wn
      ∙ replaced-local db1 db2 p i.amount.p.counter wp
      ∙ counters_for-local db o p n db1 counters

  pub write_items-local :
      (db db' : sql.Db) (l : String) (items : HashMap String Item)
      → write_items c sql client_id db l items ≡ ok db'
      → t.local db' ≡ t.local db
  unfolding write_items
  write_items-local db db' l [] h = ap t.local (sym (ok_inj h))
  write_items-local db db' l ((name, i) ∷ items) h =
      let (db1, first, rest) = >>=-eq-ok (write_list_item c sql client_id db l name i) _ h in
      write_items-local db1 db' l items rest ∙ write_list_item-local db db1 l name i first
