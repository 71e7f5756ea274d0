-- ===== src/Storage/Server.antt =====
-- `ServerStorage` of src/storage.rs, over the table `shopping_lists`. Opening the database, its path
-- and its schema are not modelled.
pub mod Hints
pub mod Writes
pub mod Ranges
use sdle_shopping_list.Common.{
  ℕ, ltb, leb, Uuid, String, Bool, true, false, Option, none, some, List, [], ◌∷◌, ◌&&◌, ◌||◌,
  if◌then◌else◌,
}
use sdle_shopping_list.Common.Result.{Result, ok, err, ◌>>=◌, ok_or, map_result}
use sdle_shopping_list.Crdt.AworMap
use sdle_shopping_list.Crdt.AworMap.{ShoppingList}
use sdle_shopping_list.HashRing.{hash}
use sdle_shopping_list.External.{Platform, Row}

-- The two queries of `get_old_data`: `?1` is the hash of the node, `?2` that of its predecessor.
unfoldable pub in_old_range : ℕ → ℕ → ℕ → Bool
in_old_range hash prev_node_hash id =
    if ltb prev_node_hash hash
    then ltb hash id && leb id prev_node_hash
    else ltb hash id || leb id prev_node_hash

module _ (x : Platform) where
  -- The key of a list.
  unfoldable pub key_of : Uuid → ℕ
  unfolding hash
  key_of id = hash x.hashing (x.uuid_string id)

  -- A statement's optional row, decoded.
  decode : Option (Row x.Bytes) → Result (Option ShoppingList)
  decode none = ok none
  decode (some row) = do list ← ok_or (x.from_slice row.crdt_data); ok (some list)

  unfoldable pub get_shopping_list : x.Table → Uuid → Result (Option ShoppingList)
  unfolding decode
  get_shopping_list db id = do row ← x.select db (key_of id); decode row

  -- `Ok(Some(s)) => Some(s), Ok(None) => None, Err(_) => None`
  abbrev pub stored_or_none : Result (Option ShoppingList) → Option ShoppingList
  stored_or_none (ok o) = o
  stored_or_none err = none

  -- `new_shopping_list`: the stored list with the given one merged in, or the given one.
  abbrev pub merged_with : Option ShoppingList → ShoppingList → ShoppingList
  merged_with none list = list
  merged_with (some s) list = record s { list = AworMap.merge s.list list.list }

  -- As the source: `data` is what `shopping_list` is serialised to, before the merge, and the merged
  -- list gives the key alone.
  unfoldable pub write_shopping_list : x.Table → ShoppingList → Result x.Table
  write_shopping_list db list =
      let crdt_data = x.to_vec list in
      let new_shopping_list = merged_with (stored_or_none (get_shopping_list db list.id)) list in
      x.replace db (key_of new_shopping_list.id)
        (record { crdt_data = crdt_data; hinted_handoff = none })

  unfoldable pub write_shopping_list_handoff : x.Table → ShoppingList → Uuid → Result x.Table
  write_shopping_list_handoff db list server_id =
      let crdt_data = x.to_vec list in
      let new_shopping_list = merged_with (stored_or_none (get_shopping_list db list.id)) list in
      x.replace db (key_of new_shopping_list.id)
        (record { crdt_data = crdt_data; hinted_handoff = some (x.uuid_string server_id) })

  unfoldable pub delete_shopping_list : x.Table → Uuid → Result x.Table
  delete_shopping_list db id = x.delete db (key_of id)

  -- WHERE hinted_handoff IS NOT NULL, with each hint beside its row.
  unfoldable pub hinted_rows : List (ℕ × Row x.Bytes) → List (x.Bytes × String)
  hinted_rows [] = []
  hinted_rows ((k, row) ∷ rows) = elim row.hinted_handoff [
    | none ↦ hinted_rows rows
    | some uuid ↦ (row.crdt_data, uuid) ∷ hinted_rows rows
  ]

  unfoldable pub decode_handoff : x.Bytes × String → Result (Uuid × ShoppingList)
  decode_handoff (crdt_data, uuid_raw) = do
    list ← ok_or (x.from_slice crdt_data)
    uuid ← ok_or (x.parse_str uuid_raw)
    ok (uuid, list)

  unfoldable pub get_hinted_handoffs : x.Table → Result (List (Uuid × ShoppingList))
  unfolding hinted_rows decode_handoff
  get_hinted_handoffs db = do rows ← x.rows db; map_result decode_handoff (hinted_rows rows)

  unfoldable pub is_unhinted : Row x.Bytes → Bool
  is_unhinted row = elim row.hinted_handoff [ none ↦ true | some uuid ↦ false ]

  unfoldable pub old_rows : (ℕ → Bool) → List (ℕ × Row x.Bytes) → List x.Bytes
  unfolding is_unhinted
  old_rows test [] = []
  old_rows test ((id, row) ∷ rows) =
      let rest = old_rows test rows in
      if test id && is_unhinted row then row.crdt_data ∷ rest else rest

  -- `serde_json::from_slice(&data).unwrap()` panics on bytes that do not parse: an error here.
  unfoldable pub get_old_data : x.Table → Uuid → ℕ → Result (List ShoppingList)
  get_old_data db node_id prev_node_hash = do
    rows ← x.rows db
    map_result (λ bytes. ok_or (x.from_slice bytes))
        (old_rows (in_old_range (key_of node_id) prev_node_hash) rows)

  unfoldable pub decode_row : ℕ × Row x.Bytes → Result (ℕ × ShoppingList)
  decode_row (id, row) = do list ← ok_or (x.from_slice row.crdt_data); ok (id, list)

  unfoldable pub get_all_rows : x.Table → Result (List (ℕ × ShoppingList))
  unfolding decode_row
  get_all_rows db = do rows ← x.rows db; map_result decode_row rows
