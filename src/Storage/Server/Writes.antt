-- ===== src/Storage/Server/Writes.antt =====
-- What a write leaves in a server's table.
use sdle_shopping_list.Common.{
  ℕ, eqb, eqb_iff, nat_eq, ◌==◌, Uuid, String, true, Option, none, some, ◌≡◌, refl, sym, ap, ◌∙◌,
  ◌↔◌, Bool-cases, inl, inr, if◌then◌else◌, arith, some_inj,
}
use sdle_shopping_list.Common.Result.{Result, ok, err, >>=-eq-ok}
use sdle_shopping_list.Crdt.AworMap.{ShoppingList}
use sdle_shopping_list.External.{Platform, Row}
use sdle_shopping_list.Storage.Server.{
  key_of, decode, get_shopping_list, stored_or_none, merged_with, write_shopping_list,
  write_shopping_list_handoff, delete_shopping_list,
}

module _ (x : Platform) where
  -- The invariant of a table: each row is a list, under the key of that list.
  abbrev pub IsKeyed : x.Table → Type 0
  IsKeyed db =
      (k : ℕ) (row : Row x.Bytes)
      → x.content db k ≡ some row
      → (l : ShoppingList) × (x.from_slice row.crdt_data ≡ some l) × (key_of x l.id ≡ k)

  -- What is read was stored.
  pub get-content :
      (db : x.Table) (id : Uuid) (s : ShoppingList)
      → get_shopping_list x db id ≡ ok (some s)
      → (row : Row x.Bytes) × (x.content db (key_of x id) ≡ some row)
        × (x.from_slice row.crdt_data ≡ some s)
  unfolding get_shopping_list
  get-content db id s h =
      let (o, sel, dec) = >>=-eq-ok (x.select db (key_of x id)) (decode x) h in
      decoded o (sym (x.select_lem db (key_of x id) o sel)) dec
    where
      decoded :
          (o : Option (Row x.Bytes))
          → x.content db (key_of x id) ≡ o
          → decode x o ≡ ok (some s)
          → (row : Row x.Bytes) × (x.content db (key_of x id) ≡ some row)
            × (x.from_slice row.crdt_data ≡ some s)
      decoded none c d = absurd (ground arith)
      decoded (some row) c d = (row, c, ground arith)

  stored_key :
      (db : x.Table) (id : Uuid) (r : Result (Option ShoppingList)) (list : ShoppingList)
      → IsKeyed db
      → get_shopping_list x db id ≡ r
      → list.id ≡ id
      → key_of x (merged_with x (stored_or_none x r) list).id ≡ key_of x id
  stored_key db id err list v h e = ap (key_of x) e
  stored_key db id (ok none) list v h e = ap (key_of x) e
  stored_key db id (ok (some s)) list v h e =
      let (row, c, d) = get-content db id s h in
      let (l, d', k) = v (key_of x id) row c in
      ap (λ (m : ShoppingList). key_of x m.id) (some_inj (sym d ∙ d')) ∙ k

  abbrev pub stored_row : ShoppingList → Option String → Row x.Bytes
  stored_row list hint = record { crdt_data = x.to_vec list; hinted_handoff = hint }

  -- A write puts the given list, unmerged, under its key, and leaves the other keys alone.
  pub content-write :
      (db : x.Table) (list : ShoppingList) (db' : x.Table) (k : ℕ)
      → IsKeyed db
      → write_shopping_list x db list ≡ ok db'
      → x.content db' k
        ≡ (if key_of x list.id == k then some (stored_row list none) else x.content db k)
  unfolding write_shopping_list
  content-write db list db' k v h =
      rw (stored_key db list.id (get_shopping_list x db list.id) list v refl refl) at
        (x.content-replace db _ (stored_row list none) db' k h)

  pub content-write_handoff :
      (db : x.Table) (list : ShoppingList) (server_id : Uuid) (db' : x.Table) (k : ℕ)
      → IsKeyed db
      → write_shopping_list_handoff x db list server_id ≡ ok db'
      → x.content db' k ≡ (
          if key_of x list.id == k
          then some (stored_row list (some (x.uuid_string server_id)))
          else x.content db k)
  unfolding write_shopping_list_handoff
  content-write_handoff db list server_id db' k v h =
      rw (stored_key db list.id (get_shopping_list x db list.id) list v refl refl) at
        (x.content-replace db _ (stored_row list (some (x.uuid_string server_id))) db' k h)

  -- A table with a list put under its key keeps the invariant.
  put-IsKeyed :
      (db : x.Table) (list : ShoppingList) (hint : Option String) (db' : x.Table)
      → IsKeyed db
      → ((k : ℕ)
          → x.content db' k
            ≡ (if key_of x list.id == k then some (stored_row list hint) else x.content db k))
      → IsKeyed db'
  put-IsKeyed db list hint db' v put k row c =
      keyed_at (eqb_iff (key_of x list.id) k) (sym (put k) ∙ c)
    where
      keyed_at :
          ((eqb (key_of x list.id) k ≡ true) ↔ (key_of x list.id ≡ k))
          → (if eqb (key_of x list.id) k then some (stored_row list hint) else x.content db k)
            ≡ some row
          → (l : ShoppingList) × (x.from_slice row.crdt_data ≡ some l) × (key_of x l.id ≡ k)
      keyed_at e d = elim (Bool-cases (eqb (key_of x list.id) k)) [
        | inl p ↦
            let same = some_inj (rw p at d) in
            (
              list,
              sym (ap (λ (r : Row x.Bytes). x.from_slice r.crdt_data) same)
                  ∙ x.from_slice-to_vec list,
              e.0 p,
            )
        | inr p ↦ v k row (rw p at d)
      ]

  -- A successful write keeps the invariant that each row of the table is a list under its key.
  pub write-IsKeyed :
      (db : x.Table) (list : ShoppingList) (db' : x.Table)
      → IsKeyed db
      → write_shopping_list x db list ≡ ok db'
      → IsKeyed db'
  write-IsKeyed db list db' v h =
      put-IsKeyed db list none db' v (λ k. content-write db list db' k v h)

  pub write_handoff-IsKeyed :
      (db : x.Table) (list : ShoppingList) (server_id : Uuid) (db' : x.Table)
      → IsKeyed db
      → write_shopping_list_handoff x db list server_id ≡ ok db'
      → IsKeyed db'
  write_handoff-IsKeyed db list server_id db' v h =
      put-IsKeyed db list (some (x.uuid_string server_id)) db' v
        (λ k. content-write_handoff db list server_id db' k v h)

  pub delete-IsKeyed :
      (db : x.Table) (id : Uuid) (db' : x.Table)
      → IsKeyed db
      → delete_shopping_list x db id ≡ ok db'
      → IsKeyed db'
  unfolding delete_shopping_list
  delete-IsKeyed db id db' v h k row c =
      v k row (ground (arith, x.content-delete db (key_of x id) db' k h, c))

  -- After a successful write to a table whose rows are lists under their keys, a successful read of
  -- the list finds exactly the given list, whatever was stored before: the list that the write
  -- merges is not what it stores.
  pub get-write :
      (db : x.Table) (list : ShoppingList) (db' : x.Table) (o : Option ShoppingList)
      → IsKeyed db
      → write_shopping_list x db list ≡ ok db'
      → get_shopping_list x db' list.id ≡ ok o
      → o ≡ some list
  unfolding get_shopping_list
  get-write db list db' o v h g =
      let (row, sel, dec) = >>=-eq-ok (x.select db' (key_of x list.id)) (decode x) g in
      let found : row ≡ some (stored_row list none) =
        x.select_lem db' (key_of x list.id) row sel
        ∙ rw ((eqb_iff (key_of x list.id) (key_of x list.id)).1 refl) at
            (content-write db list db' (key_of x list.id) v h) in
      ground (arith, found, x.from_slice-to_vec list)
