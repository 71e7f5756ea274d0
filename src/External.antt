-- ===== src/External.antt =====
-- What the program takes from crates outside the repository, as parameters of the model, with the
-- documented behaviour that the theorems rely on.
use sdle_shopping_list.Common.{
  ℕ, Uuid, String, nat_eq, ◌==◌, Option, none, some, List, ◌≡◌, if◌then◌else◌,
}
use sdle_shopping_list.Common.Result.{Result, ok}
use sdle_shopping_list.HashMap.{HashMap, get, Distinct}
use sdle_shopping_list.Crdt.AworMap.{ShoppingList}

-- The `uuid` crate prints an identifier and parses it back; the `md5` crate hashes a text to 16
-- bytes, which the source reads as a big-endian number.
pub record Hashing : Type 0 where
  pub uuid_string : Uuid → String
  pub parse_str : String → Option Uuid
  pub parse_str-uuid_string : (u : Uuid) → parse_str (uuid_string u) ≡ some u
  pub md5 : String → ℕ

-- `serde_json` writes a shopping list to bytes and reads it back.
pub record Serde : Type 1 where
  pub Bytes : Type 0
  pub to_vec : ShoppingList → Bytes
  pub from_slice : Bytes → Option ShoppingList
  pub from_slice-to_vec : (l : ShoppingList) → from_slice (to_vec l) ≡ some l

-- A row of `shopping_lists`. Its key, 16 bytes that compare as their big-endian number, is apart.
pub record Row (Bytes : Type 0) : Type 0 where
  pub crdt_data : Bytes
  pub hinted_handoff : Option String

-- The table `shopping_lists` in SQLite, through the statements that the source prepares. Each may
-- fail. `content` is what the table holds, of which the statements are said to read and write.
pub record ListTable (Bytes : Type 0) : Type 1 where
  pub Table : Type 0
  pub content : Table → ℕ → Option (Row Bytes)
  -- SELECT … WHERE id = ?1
  pub select : Table → ℕ → Result (Option (Row Bytes))
  pub select_lem :
      (t : Table) (k : ℕ) (o : Option (Row Bytes)) → select t k ≡ ok o → o ≡ content t k
  -- INSERT OR REPLACE
  pub replace : Table → ℕ → Row Bytes → Result Table
  pub content-replace :
      (t : Table) (k : ℕ) (r : Row Bytes) (u : Table) (j : ℕ)
      → replace t k r ≡ ok u
      → content u j ≡ (if k == j then some r else content t j)
  -- DELETE … WHERE id = ?1
  pub delete : Table → ℕ → Result Table
  pub content-delete :
      (t : Table) (k : ℕ) (u : Table) (j : ℕ)
      → delete t k ≡ ok u
      → content u j ≡ (if k == j then none else content t j)
  -- SELECT with no WHERE
  pub rows : Table → Result (List (ℕ × Row Bytes))
  -- The key is the table's primary key.
  pub rows-Distinct : (t : Table) (l : HashMap ℕ (Row Bytes)) → rows t ≡ ok l → Distinct l
  pub get-rows :
      (t : Table) (l : HashMap ℕ (Row Bytes)) (k : ℕ) → rows t ≡ ok l → get l k ≡ content t k

-- What a server's storage stands on.
pub record Platform : Type 1 where
  pub hashing : Hashing
  pub open hashing use *
  pub serde : Serde
  pub open serde use *
  pub table : ListTable serde.Bytes
  pub open table use *
