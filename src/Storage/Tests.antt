-- ===== src/Storage/Tests.antt =====
-- A server's table with one list, and the theorems at it.
use sdle_shopping_list.Common.{
  ℕ, String, Option, nat_eq, ltb, true, none, some, [], ◌∷◌, ◌≡◌, refl, if◌then◌else◌, arith,
}
use sdle_shopping_list.Common.Result.{ok, ok_or, map_result}
use sdle_shopping_list.HashMap.{get, insert, remove}
use sdle_shopping_list.Crdt.AworMap.{ShoppingList}
use sdle_shopping_list.Crdt.Tests.{milk}
use sdle_shopping_list.Storage.Server.{
  key_of, get_shopping_list, write_shopping_list, old_rows, get_old_data,
}
use sdle_shopping_list.Storage.Server.Writes.{IsKeyed, stored_row, write-IsKeyed, get-write}
use sdle_shopping_list.Storage.Server.Ranges.{get_old_data_lem}
use sdle_shopping_list.Sample.{platform, hashing, Rows}
use sdle_shopping_list.Storage.Client.Identity.{
  MetadataTable, request_client_id, request_client_id_lem,
}

abbrev pub stored : ShoppingList
stored = record { id = 7; list = milk 1 2 0 }

abbrev pub incoming : ShoppingList
incoming = record { id = 7; list = milk 2 5 1 }

abbrev pub empty : Rows
empty = []

pub empty-IsKeyed : IsKeyed platform empty
unfolding get
empty-IsKeyed k row c = absurd (ground arith)

abbrev pub key_7 : ℕ
key_7 = key_of platform 7

abbrev pub db : Rows
db = (key_7, stored_row platform stored none) ∷ []

pub db_written : write_shopping_list platform empty stored ≡ ok db
unfolding write_shopping_list get_shopping_list get insert key_of
db_written = refl

pub db-IsKeyed : IsKeyed platform db
db-IsKeyed = write-IsKeyed platform empty stored db empty-IsKeyed db_written

abbrev pub db' : Rows
db' = (key_7, stored_row platform incoming none) ∷ []

pub db_rewritten : write_shopping_list platform db incoming ≡ ok db'
unfolding write_shopping_list get_shopping_list get insert key_of
db_rewritten = refl

read_back : get_shopping_list platform db' 7 ≡ ok (some incoming)
unfolding get_shopping_list get key_of
read_back = refl

-- The amount that the stored list held is gone.
get-write_example : some incoming ≡ some incoming
get-write_example =
    get-write platform db incoming db' (some incoming) db-IsKeyed db_rewritten read_back

get_old_data_example : get_old_data platform db 9 3 ≡ (
    if ltb 3 (key_of platform 9)
    then ok []
    else map_result (λ bytes. ok_or (platform.from_slice bytes)) (old_rows platform (λ _. true) db))
unfolding remove
get_old_data_example = get_old_data_lem platform db 9 3 db refl

-- The row of a client's identifier, alone.
pub identity_select : (db : Option String) (o : Option String) → ok db ≡ ok o → o ≡ db
identity_select db o h = ground (arith, h)

pub identity_insert :
    (db : Option String) (s : String) (db' : Option String) → ok (some s) ≡ ok db' → db' ≡ some s
identity_insert db s db' h = ground (arith, h)

abbrev pub identity : MetadataTable (Option String)
identity = record {
  value = λ db. db;
  select = λ db. ok db;
  select_lem = identity_select;
  insert = λ db s. ok (some s);
  value-insert = identity_insert;
}

first_time : request_client_id hashing identity none 3 ≡ ok (3, some "uuu")
unfolding request_client_id
first_time = refl

request_client_id_example : request_client_id hashing identity (some "uuu") 8 ≡ ok (3, some "uuu")
request_client_id_example =
    request_client_id_lem hashing identity none 3 (3, some "uuu") 8 (some "uuu") first_time refl
