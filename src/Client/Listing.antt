-- ===== src/Client/Listing.antt =====
-- Which lists a client names as available, after it has retrieved one.
use sdle_shopping_list.Common.{
  Uuid, String, Option, none, some, List, [], ◌∷◌, map, ◌≡◌, refl, sym, ap, ◌∙◌,
}
use sdle_shopping_list.Common.Result.{Result, ok, err, >>=-eq-ok, ok_inj, ok_or, map_result}
use sdle_shopping_list.Crdt.AworMap.{ShoppingList}
use sdle_shopping_list.External.{Hashing}
use sdle_shopping_list.Storage.Client.{
  ClientDb, read_list, read_shopping_list, read_rows, get_user_lists, write_items,
  write_shopping_list,
}
use sdle_shopping_list.Storage.Client.Tables.{ClientTables}
use sdle_shopping_list.Storage.Client.Locals.{write_items-local}
use sdle_shopping_list.Client.{
  ShoppingListInterface, Exchange, from_crdt, fetch_list, stored_or_same, with_remote,
  retrieve_list, retrieve_available_lists,
}

abbrev pub identifiers : Option (List ShoppingListInterface) → List Uuid
identifiers none = []
identifiers (some lists) = map (λ (l : ShoppingListInterface). l.list_id) lists

from_crdt-ids :
    (lists : List ShoppingList)
    → map (λ (l : ShoppingListInterface). l.list_id) (map from_crdt lists)
      ≡ map (λ (l : ShoppingList). l.id) lists
unfolding from_crdt
from_crdt-ids [] = refl
from_crdt-ids (l ∷ lists) = ap (λ ls. l.id ∷ ls) (from_crdt-ids lists)

module _ (c : Hashing) (sql : ClientDb) (client_id : Uuid) where
  read_shopping_list-id :
      (db : sql.Db) (id : Uuid) (l : ShoppingList)
      → read_shopping_list c sql client_id db id ≡ ok l
      → id ≡ l.id
  unfolding read_shopping_list
  read_shopping_list-id db id l h =
      let (rows, found, h1) = >>=-eq-ok (sql.select_items db (c.uuid_string id)) _ h in
      let (list, read, e) = >>=-eq-ok (read_rows c sql client_id db _ rows) _ h1 in
      ap (λ (l : ShoppingList). l.id) (ok_inj e)

  read_list-id :
      (db : sql.Db) (uuid : String) (l : ShoppingList)
      → read_list c sql client_id db uuid ≡ ok l
      → ok_or (c.parse_str uuid) ≡ ok l.id
  unfolding read_list
  read_list-id db uuid l h =
      let (id, parsed, read) = >>=-eq-ok (ok_or (c.parse_str uuid)) _ h in
      parsed ∙ ap ok (read_shopping_list-id db id l read)

  read_lists-ids :
      (db : sql.Db) (uuids : List String) (lists : List ShoppingList)
      → map_result (read_list c sql client_id db) uuids ≡ ok lists
      → map_result (λ uuid. ok_or (c.parse_str uuid)) uuids
        ≡ ok (map (λ (l : ShoppingList). l.id) lists)
  read_lists-ids db [] lists h =
      ap (λ (ls : List ShoppingList). ok (map (λ (l : ShoppingList). l.id) ls)) (ok_inj h)
  read_lists-ids db (uuid ∷ uuids) lists h =
      let (l, first, h1) = >>=-eq-ok (read_list c sql client_id db uuid) _ h in
      let (ls, rest, e) = >>=-eq-ok (map_result (read_list c sql client_id db) uuids) _ h1 in
      rw (read_list-id db uuid l first, read_lists-ids db uuids ls rest, sym (ok_inj e)) refl

  -- What the source makes of no list, and of what it shows.
  abbrev or_none : List ShoppingList → Option (List ShoppingList)
  or_none lists = elim lists [ [] ↦ none | l ∷ ls ↦ some (l ∷ ls) ]

  abbrev interfaces : Option (List ShoppingList) → Option (List ShoppingListInterface)
  interfaces lists = elim lists [ none ↦ none | some vec ↦ some (map from_crdt vec) ]

  named :
      (lists : List ShoppingList)
      → map (λ (l : ShoppingList). l.id) lists ≡ identifiers (interfaces (or_none lists))
  named [] = refl
  named (l ∷ lists) = sym (from_crdt-ids (l ∷ lists))

  available-ids :
      (db : sql.Db) (available : Option (List ShoppingListInterface))
      → retrieve_available_lists c sql client_id db ≡ ok available
      → (uuids : List String) × (sql.select_lists db ≡ ok uuids)
        × (map_result (λ uuid. ok_or (c.parse_str uuid)) uuids ≡ ok (identifiers available))
  unfolding retrieve_available_lists get_user_lists
  available-ids db available h =
      let (lists, found, e) = >>=-eq-ok (get_user_lists c sql client_id db) _ h in
      let (uuids, s, h1) = >>=-eq-ok (sql.select_lists db) _ found in
      let (ls, read, e') = >>=-eq-ok (map_result (read_list c sql client_id db) uuids) _ h1 in
      (
        uuids,
        s,
        read_lists-ids db uuids ls read
            ∙ ap ok (
                named ls
                ∙ ap (λ o. identifiers (interfaces o)) (ok_inj e')
                ∙ ap identifiers (ok_inj e)),
      )

module _ (c : Hashing) {sql : ClientDb} (t : ClientTables sql) (client_id : Uuid) where
  stored_or_same-local :
      (db : sql.Db) (list : ShoppingList)
      → t.local (stored_or_same c sql client_id db list) ≡ t.local db
  unfolding stored_or_same write_shopping_list
  stored_or_same-local db list =
      go (write_items c sql client_id db (c.uuid_string list.id) list.list.items) refl
    where
      go :
          (w : Result sql.Db)
          → write_items c sql client_id db (c.uuid_string list.id) list.list.items ≡ w
          → t.local (stored_or_same c sql client_id db list) ≡ t.local db
      go err e = rw (e, stored_or_same) refl
      go (ok db') e =
          rw (e, stored_or_same)
            (write_items-local c t client_id db db' (c.uuid_string list.id) list.list.items e)

  with_remote-local :
      (db : sql.Db) (local : ShoppingList) (o : Option ShoppingList)
      → t.local (with_remote c sql client_id db local o).1 ≡ t.local db
  unfolding with_remote
  with_remote-local db local none = refl
  with_remote-local db local (some remote) = stored_or_same-local db _

  retrieve_list-local :
      (db after : sql.Db) (id : Uuid) (e : Exchange) (shown : ShoppingListInterface)
      → retrieve_list c sql client_id db id e ≡ ok (shown, after)
      → t.local after ≡ t.local db
  unfolding retrieve_list
  retrieve_list-local db after id e shown h =
      let (local, read, h1) = >>=-eq-ok (read_shopping_list c sql client_id db id) _ h in
      let (remote, fetched, e') = >>=-eq-ok (fetch_list local e) _ h1 in
      ap (λ (r : ShoppingListInterface × sql.Db). t.local r.1) (sym (ok_inj e'))
      ∙ with_remote-local db local remote

  -- Retrieving a list, whatever comes of the exchange, changes nothing about which lists a client
  -- names as available, if it can name them before and after: a list that was opened by its
  -- identifier and stored is not among them unless it was.
  pub retrieved_unlisted :
      (db after : sql.Db) (id : Uuid) (e : Exchange) (shown : ShoppingListInterface)
      (before later : Option (List ShoppingListInterface))
      → retrieve_available_lists c sql client_id db ≡ ok before
      → retrieve_list c sql client_id db id e ≡ ok (shown, after)
      → retrieve_available_lists c sql client_id after ≡ ok later
      → identifiers later ≡ identifiers before
  retrieved_unlisted db after id e shown before later b h l =
      let (old, s, ids) = available-ids c sql client_id db before b in
      let (new, s', ids') = available-ids c sql client_id after later l in
      let same =
        t.select_lists_lem after new s'
        ∙ retrieve_list-local db after id e shown h
        ∙ sym (t.select_lists_lem db old s) in
      ok_inj (sym ids' ∙ ap (map_result (λ uuid. ok_or (c.parse_str uuid))) same ∙ ids)
