-- ===== src/Storage/Client/Valid.antt =====
-- A list that ClientStorage reads is valid: no name and no actor has two entries.
use sdle_shopping_list.Common.{ℕ, Uuid, String, nat_eq, string_eq, List, [], ◌∷◌, ◌≡◌, subst}
use sdle_shopping_list.Common.Result.{ok, >>=-eq-ok, ok_inj, ok_or}
use sdle_shopping_list.HashMap.{HashMap, insert, Distinct}
use sdle_shopping_list.HashMap.Laws.{insert-Distinct}
use sdle_shopping_list.Crdt.GCounter.{GCounter}
use sdle_shopping_list.Crdt.Item.{Item}
use sdle_shopping_list.Crdt.Item.Merge as Item
use sdle_shopping_list.Crdt.AworMap
use sdle_shopping_list.Crdt.AworMap.{AworMap, ShoppingList}
use sdle_shopping_list.Crdt.AworMap.Merge.{IsValid, insert-IsValid}
use sdle_shopping_list.External.{Hashing}
use sdle_shopping_list.Storage.Client.{
  ClientDb, StoredItemRow, read_counts, read_gcounter, build_item, read_rows, read_shopping_list,
}

module _ (c : Hashing) (sql : ClientDb) (client_id : Uuid) where
  read_counts-Distinct :
      (counter : HashMap Uuid ℕ) (rows : List (String × ℕ)) (read : HashMap Uuid ℕ)
      → Distinct counter
      → read_counts c sql client_id counter rows ≡ ok read
      → Distinct read
  unfolding read_counts
  read_counts-Distinct counter [] read d h = subst Distinct (ok_inj h) d
  read_counts-Distinct counter ((a, v) ∷ rows) read d h =
      let (id, parsed, rest) = >>=-eq-ok (ok_or (c.parse_str a)) _ h in
      read_counts-Distinct (insert counter id v) rows read (insert-Distinct counter id v d) rest

  read_gcounter-Distinct :
      (db : sql.Db) (id : ℕ) (g : GCounter)
      → read_gcounter c sql client_id db id ≡ ok g
      → Distinct g.counter
  unfolding read_gcounter
  read_gcounter-Distinct db id g h =
      let (rows, found, h1) = >>=-eq-ok (sql.select_counts db id) _ h in
      let (counter, read, e) = >>=-eq-ok (read_counts c sql client_id [] rows) _ h1 in
      subst (λ (g : GCounter). Distinct g.counter) (ok_inj e)
        (read_counts-Distinct [] rows counter tt read)

  pub build_item-IsValid :
      (db : sql.Db) (row : StoredItemRow) (i : Item)
      → build_item c sql client_id db row ≡ ok i
      → Item.IsValid i
  unfolding build_item
  build_item-IsValid db row i h =
      let (p, hp, h1) = >>=-eq-ok (read_gcounter c sql client_id db row.p_id) _ h in
      let (n, hn, h2) = >>=-eq-ok (read_gcounter c sql client_id db row.n_id) _ h1 in
      let (actor, ha, e) = >>=-eq-ok (ok_or (c.parse_str row.acquired_actor)) _ h2 in
      subst Item.IsValid (ok_inj e) (record {
        p = read_gcounter-Distinct db row.p_id p hp;
        n = read_gcounter-Distinct db row.n_id n hn;
      })

  read_rows-IsValid :
      (db : sql.Db) (m : AworMap) (rows : List StoredItemRow) (r : AworMap)
      → IsValid m
      → read_rows c sql client_id db m rows ≡ ok r
      → IsValid r
  unfolding read_rows
  read_rows-IsValid db m [] r v h = subst IsValid (ok_inj h) v
  read_rows-IsValid db m (row ∷ rows) r v h =
      let (i, made, rest) = >>=-eq-ok (build_item c sql client_id db row) _ h in
      read_rows-IsValid db (AworMap.insert m row.name i) rows r
        (insert-IsValid m row.name i v (build_item-IsValid db row i made)) rest

  pub read_shopping_list-IsValid :
      (db : sql.Db) (id : Uuid) (r : ShoppingList)
      → read_shopping_list c sql client_id db id ≡ ok r
      → IsValid r.list
  unfolding read_shopping_list AworMap.new
  read_shopping_list-IsValid db id r h =
      let (rows, found, h1) = >>=-eq-ok (sql.select_items db (c.uuid_string id)) _ h in
      let (list, read, e) = >>=-eq-ok (read_rows c sql client_id db AworMap.new rows) _ h1 in
      subst (λ (l : ShoppingList). IsValid l.list) (ok_inj e)
        (read_rows-IsValid db AworMap.new rows list (record { distinct = tt; items = tt }) read)
