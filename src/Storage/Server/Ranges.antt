-- ===== src/Storage/Server/Ranges.antt =====
-- What `get_old_data` returns.
use sdle_shopping_list.Common.{
  ℕ, ◌<◌, ◌≤◌, ltb, nat_eq, Uuid, Bool, true, false, List, [], ◌∷◌, ◌≡◌, refl, ap, arith,
  Bool-cases, inl, inr, ltb→lt, if◌then◌else◌,
}
use sdle_shopping_list.Common.Result.{ok, ok_or, map_result}
use sdle_shopping_list.External.{Platform, Row}
use sdle_shopping_list.Storage.Server.{key_of, in_old_range, old_rows, get_old_data}

-- No key is above the node's hash and at most the smaller hash of its predecessor.
in_old_range_none : (hash prev id : ℕ) → prev < hash → in_old_range hash prev id ≡ false
unfolding in_old_range
in_old_range_none hash prev id h = ground arith

-- Every key is above the node's hash or at most the hash of its predecessor, if that is no smaller.
in_old_range_all : (hash prev id : ℕ) → hash ≤ prev → in_old_range hash prev id ≡ true
unfolding in_old_range
in_old_range_all hash prev id h = ground arith

module _ (x : Platform) where
  old_rows_none :
      (test : ℕ → Bool) (rows : List (ℕ × Row x.Bytes))
      → ((id : ℕ) → test id ≡ false)
      → old_rows x test rows ≡ []
  unfolding old_rows
  old_rows_none test [] h = refl
  old_rows_none test ((id, row) ∷ rows) h = rw (h id) (old_rows_none test rows h)

  old_rows_all :
      (test : ℕ → Bool) (rows : List (ℕ × Row x.Bytes))
      → ((id : ℕ) → test id ≡ true)
      → old_rows x test rows ≡ old_rows x (λ _. true) rows
  unfolding old_rows
  old_rows_all test [] h = refl
  old_rows_all test ((id, row) ∷ rows) h = rw (h id, old_rows_all test rows h) refl

  -- If the rows can be read, the query for old data selects no row when the hash of the predecessor
  -- is below that of the node, whatever the table holds, and every row without a hint otherwise.
  pub get_old_data_lem :
      (db : x.Table) (node_id : Uuid) (prev : ℕ) (rows : List (ℕ × Row x.Bytes))
      → x.rows db ≡ ok rows
      → get_old_data x db node_id prev ≡ (
          if ltb prev (key_of x node_id)
          then ok []
          else map_result (λ bytes. ok_or (x.from_slice bytes)) (old_rows x (λ _. true) rows))
  unfolding get_old_data
  get_old_data_lem db node_id prev rows h = elim (Bool-cases (ltb prev (key_of x node_id))) [
    | inl lt ↦
        rw (h, lt)
          (ap (map_result (λ bytes. ok_or (x.from_slice bytes))) (
            old_rows_none (in_old_range (key_of x node_id) prev) rows (λ id.
              in_old_range_none (key_of x node_id) prev id (ltb→lt prev (key_of x node_id) lt))))
    | inr ge ↦
        rw (h, ge)
          (ap (map_result (λ bytes. ok_or (x.from_slice bytes))) (
            old_rows_all (in_old_range (key_of x node_id) prev) rows
              (λ id. in_old_range_all (key_of x node_id) prev id (ground arith))))
  ]
