-- ===== src/Server/Sound/Tables.antt =====
-- Reading and writing a table whose lists have a property.
use sdle_shopping_list.Common.{
  ℕ, eqb_iff, nat_eq, ◌==◌, Uuid, String, Option, none, some, List, [], ◌∷◌, ◌≡◌, sym, ap, ◌∙◌,
  Bool-cases, inl, inr, arith, some_inj, All, All-imp, subst,
}
use sdle_shopping_list.Common.Result.{ok, ok_or, >>=-eq-ok, map_result-All}
use sdle_shopping_list.HashMap.{HashMap, get, Distinct}
use sdle_shopping_list.Crdt.AworMap.{ShoppingList}
use sdle_shopping_list.External.{Platform, Row}
use sdle_shopping_list.Storage.Server.{
  get_shopping_list, write_shopping_list, write_shopping_list_handoff, delete_shopping_list,
  get_hinted_handoffs, hinted_rows, decode_handoff, get_all_rows, decode_row,
}
use sdle_shopping_list.Storage.Server.Writes.{get-content, stored_row}
use sdle_shopping_list.Server.Sound.{HoldsRows}

module _ (P : ShoppingList → Type 0) (x : Platform) where
  pub get-Holds :
      (db : x.Table) (id : Uuid) (s : ShoppingList)
      → HoldsRows P x db
      → get_shopping_list x db id ≡ ok (some s)
      → P s
  get-Holds db id s v h =
      let (row, c, d) = get-content x db id s h in
      let (l, e, p) = v _ row c in subst P (some_inj (sym e ∙ d)) p

  put-Holds :
      (db db' : x.Table) (k : ℕ) (list : ShoppingList) (hint : Option String)
      → HoldsRows P x db
      → P list
      → x.replace db k (stored_row x list hint) ≡ ok db'
      → HoldsRows P x db'
  put-Holds db db' k list hint v p h j row c = elim (Bool-cases (k == j)) [
    | inl e ↦
        let same =
          some_inj (rw e at (sym (x.content-replace db k (stored_row x list hint) db' j h) ∙ c)) in
        (
          list,
          sym (ap (λ (r : Row x.Bytes). x.from_slice r.crdt_data) same) ∙ x.from_slice-to_vec list,
          p,
        )
    | inr e ↦ v j row (rw e at (sym (x.content-replace db k (stored_row x list hint) db' j h) ∙ c))
  ]

  pub write-Holds :
      (db db' : x.Table) (list : ShoppingList)
      → HoldsRows P x db
      → P list
      → write_shopping_list x db list ≡ ok db'
      → HoldsRows P x db'
  unfolding write_shopping_list
  write-Holds db db' list v p h = put-Holds db db' _ list none v p h

  pub write_handoff-Holds :
      (db db' : x.Table) (list : ShoppingList) (node : Uuid)
      → HoldsRows P x db
      → P list
      → write_shopping_list_handoff x db list node ≡ ok db'
      → HoldsRows P x db'
  unfolding write_shopping_list_handoff
  write_handoff-Holds db db' list node v p h =
      put-Holds db db' _ list (some (x.uuid_string node)) v p h

  pub delete-Holds :
      (db db' : x.Table) (id : Uuid)
      → HoldsRows P x db
      → delete_shopping_list x db id ≡ ok db'
      → HoldsRows P x db'
  unfolding delete_shopping_list
  delete-Holds db db' id v h k row c = v k row (ground (arith, x.content-delete db _ db' k h, c))

  -- The rows that a query returns, each of which is a list with the property.
  abbrev Decodes : Row x.Bytes → Type 0
  Decodes row = (l : ShoppingList) × (x.from_slice row.crdt_data ≡ some l) × P l

  entries-Decodes :
      (rows : HashMap ℕ (Row x.Bytes))
      → Distinct rows
      → ((k : ℕ) (row : Row x.Bytes) → get rows k ≡ some row → Decodes row)
      → All (λ (e : ℕ × Row x.Bytes). Decodes e.1) rows
  unfolding get
  entries-Decodes [] d h = tt
  entries-Decodes ((k, row) ∷ rows) d h = (
    h k row (ground (arith, eqb_iff k k)),
    entries-Decodes rows d.1 (λ j r g. h j r (ground (arith, eqb_iff k j, d.0, g))),
  )

  rows-Decodes :
      (db : x.Table) (rows : HashMap ℕ (Row x.Bytes))
      → HoldsRows P x db
      → x.rows db ≡ ok rows
      → All (λ (e : ℕ × Row x.Bytes). Decodes e.1) rows
  rows-Decodes db rows v h =
      entries-Decodes rows (x.rows-Distinct db rows h)
        (λ k row g. v k row (sym (x.get-rows db rows k h) ∙ g))

  pub get_all_rows-Holds :
      (db : x.Table) (rows : List (ℕ × ShoppingList))
      → HoldsRows P x db
      → get_all_rows x db ≡ ok rows
      → All (λ (r : ℕ × ShoppingList). P r.1) rows
  unfolding get_all_rows decode_row
  get_all_rows-Holds db rows v h =
      let (found, r, e) = >>=-eq-ok (x.rows db) _ h in
      map_result-All (λ (r : ℕ × ShoppingList). P r.1) _ found rows
        (All-imp decoded found (rows-Decodes db found v r)) e
    where
      decoded :
          (e : ℕ × Row x.Bytes)
          → Decodes e.1
          → (r : ℕ × ShoppingList) → decode_row x e ≡ ok r
          → P r.1
      decoded (k, row) (l, d, p) r h =
          let same : (k, l) ≡ r = ground (arith, rw d at h) in
          subst (λ (r : ℕ × ShoppingList). P r.1) same p

  abbrev HintDecodes : x.Bytes × String → Type 0
  HintDecodes h = (l : ShoppingList) × (x.from_slice h.0 ≡ some l) × P l

  hinted-Decodes :
      (rows : HashMap ℕ (Row x.Bytes))
      → All (λ (e : ℕ × Row x.Bytes). Decodes e.1) rows
      → All HintDecodes (hinted_rows x rows)
  unfolding hinted_rows
  hinted-Decodes [] h = tt
  hinted-Decodes ((k, row) ∷ rows) h = go row.hinted_handoff (hinted-Decodes rows h.1)
    where
      go :
          (o : Option String)
          → All HintDecodes (hinted_rows x rows)
          → All HintDecodes (elim o as (λ _. List (x.Bytes × String)) [
            | none ↦ hinted_rows x rows
            | some uuid ↦ (row.crdt_data, uuid) ∷ hinted_rows x rows
          ])
      go none r = r
      go (some uuid) r = (h.0, r)

  pub hinted_handoffs-Holds :
      (db : x.Table) (handoffs : List (Uuid × ShoppingList))
      → HoldsRows P x db
      → get_hinted_handoffs x db ≡ ok handoffs
      → All (λ (r : Uuid × ShoppingList). P r.1) handoffs
  unfolding get_hinted_handoffs decode_handoff
  hinted_handoffs-Holds db handoffs v h =
      let (found, r, e) = >>=-eq-ok (x.rows db) _ h in
      map_result-All (λ (r : Uuid × ShoppingList). P r.1) _ (hinted_rows x found) handoffs
        (All-imp decoded (hinted_rows x found) (hinted-Decodes found (rows-Decodes db found v r))) e
    where
      decoded :
          (e : x.Bytes × String)
          → HintDecodes e
          → (r : Uuid × ShoppingList) → decode_handoff x e ≡ ok r
          → P r.1
      decoded (bytes, hint) (l, d, p) r h =
          let (u, _, e) = >>=-eq-ok (ok_or (x.parse_str hint)) _ (rw d at h) in
          let same : (u, l) ≡ r = ground (arith, e) in
          subst (λ (r : Uuid × ShoppingList). P r.1) same p
