-- ===== src/Storage/Client/Roundtrip.antt =====
-- A list that is written to the tables of a client is read back.
use sdle_shopping_list.Common.{
  ℕ, Uuid, String, string_eq, Bool, Option, none, some, ◌≡◌, refl, ap, sym, ◌∙◌, arith, nat_eq,
  some_inj,
}
use sdle_shopping_list.Common.Result.{ok}
use sdle_shopping_list.HashMap.{get}
use sdle_shopping_list.Crdt.Item.{Item}
use sdle_shopping_list.Crdt.AworMap.{ShoppingList}
use sdle_shopping_list.Crdt.AworMap.Merge.{IsValid, Entries-get}
use sdle_shopping_list.Crdt.AworMap.Convergence.{
  MapView, map_view, view_option, join_map, join_option,
}
use sdle_shopping_list.Crdt.Item.Merge as Item
use sdle_shopping_list.Crdt.GCounter.Merge.{max-none}
use sdle_shopping_list.External.{Hashing}
use sdle_shopping_list.Storage.Client.{
  ClientDb, StoredItemRow, read_shopping_list, write_shopping_list,
}
use sdle_shopping_list.Storage.Client.Tables.{ClientTables, IsConsistent, Covers}
use sdle_shopping_list.Storage.Client.Saving.{write_items-ListSaved}
use sdle_shopping_list.Storage.Client.Reading.{IsRead, read_shopping_list-IsRead, read_view}

module _ (c : Hashing) {sql : ClientDb} (t : ClientTables sql) (client_id : Uuid) where
  -- A list that knows every item and every count that the tables hold of it.
  pub record CoversList (db : sql.Db) (list : ShoppingList) : Type 0 where
    pub items :
        (name : String) (i : Item)
        → get list.list.items name ≡ some i
        → Covers c t db (c.uuid_string list.id) name i
    pub names :
        (name : String)
        → get list.list.items name ≡ none
        → t.item db (c.uuid_string list.id) name ≡ none

  -- A valid list that a client writes to its tables, and then reads, stands for the same items,
  -- counts and flags: if both succeed, the tables are consistent before, and the list knows every
  -- item, and every actor of a count, that the tables hold of it.
  pub read-write :
      (owner : ℕ → String × String × Bool) (db db' : sql.Db) (list r : ShoppingList)
      → IsConsistent c t owner db
      → IsValid list.list
      → CoversList db list
      → write_shopping_list c sql client_id db list ≡ ok db'
      → read_shopping_list c sql client_id db' list.id ≡ ok r
      → map_view r.list ≡ map_view list.list
  unfolding write_shopping_list
  read-write owner db db' list r v valid covers w h =
      let l = c.uuid_string list.id in
      let s =
        write_items-ListSaved c t client_id owner db db' l list.list.items v valid.distinct
          (λ name i e.
            (covers.items name i e, Entries-get Item.IsValid list.list.items name valid.items e))
          w in
      let (read, same_id) =
        read_shopping_list-IsRead c t client_id s.owner db' list.id r s.consistent h in
      read_view c t client_id db' l r.list list.list read s.saved
        (λ name e. (s.kept l name (λ _. e)).item ∙ covers.names name e)

-- An item that a join has absorbed has counted for no actor that the join has no count of.
absorbed :
    (i j : Item) (o : Option Item.ItemView)
    → some (Item.view i) ≡ join_option (some (Item.view j)) o
    → (u : Uuid)
    → (get i.amount.p.counter u ≡ none → get j.amount.p.counter u ≡ none)
      × (get i.amount.n.counter u ≡ none → get j.amount.n.counter u ≡ none)
unfolding Item.view Item.join_view
absorbed i j none e u =
    let same = some_inj e in
    (
      λ h. sym (ap (λ (v : Item.ItemView). v.p u) same) ∙ h,
      λ h. sym (ap (λ (v : Item.ItemView). v.n u) same) ∙ h,
    )
absorbed i j (some w) e u =
    let same = some_inj e in
    (
      λ h.
          max-none (get j.amount.p.counter u) (w.p u)
            (sym (ap (λ (v : Item.ItemView). v.p u) same) ∙ h),
      λ h.
          max-none (get j.amount.n.counter u) (w.n u)
            (sym (ap (λ (v : Item.ItemView). v.n u) same) ∙ h),
    )

absorbed_name :
    (m l : Option Item) (o : Option Item.ItemView)
    → view_option m ≡ join_option (view_option l) o
    → m ≡ none
    → l ≡ none
absorbed_name m none o e h = refl
absorbed_name none (some j) none e h = absurd (ground (arith, e))
absorbed_name none (some j) (some w) e h = absurd (ground (arith, e))
absorbed_name (some i) (some j) o e h = absurd (ground (arith, h))

module _ (c : Hashing) {sql : ClientDb} (t : ClientTables sql) (client_id : Uuid) where
  -- What is read, joined with anything, covers what is stored.
  pub join-CoversList :
      (db : sql.Db) (local m : ShoppingList) (x : MapView)
      → IsRead c t client_id db (c.uuid_string m.id) local.list
      → map_view m.list ≡ join_map (map_view local.list) x
      → CoversList c t client_id db m
  join-CoversList db local m x read e = record {
    items = λ name i g row found.
        let (j, built, got) = read.found name row found in
        let same : some (Item.view i) ≡ join_option (some (Item.view j)) (x name) =
          ap view_option (sym g)
          ∙ ap (λ (f : MapView). f name) e
          ∙ ap (λ o. join_option (view_option o) (x name)) got in
        (
          λ u h. built.p u ∙ (absorbed i j (x name) same u).0 h,
          λ u h. built.n u ∙ (absorbed i j (x name) same u).1 h,
        );
    names = λ name g.
        let unread =
          absorbed_name (get m.list.items name) (get local.list.items name) (x name)
            (ap (λ (f : MapView). f name) e) g in
        stored name unread (t.item db (c.uuid_string m.id) name) refl;
  }
    where
      stored :
          (name : String)
          → get local.list.items name ≡ none
          → (o : Option StoredItemRow) → t.item db (c.uuid_string m.id) name ≡ o
          → t.item db (c.uuid_string m.id) name ≡ none
      stored name unread none g = g
      stored name unread (some row) g =
          let (j, built, got) = read.found name row g in absurd (ground (arith, sym got ∙ unread))
