-- ===== src/Client/Tests.antt =====
-- A client that retrieves a list with milk, which a server knows too.
pub mod Tables
mod Requests
use sdle_shopping_list.Common.{
  Option, some, ℕ, String, Bool, true, List, [], ◌∷◌, ◌⊎◌, ◌≡◌, refl, none, arith,
}
use sdle_shopping_list.Common.Result.{ok, err}
use sdle_shopping_list.HashMap.{insert, get, remove}
use sdle_shopping_list.Crdt.LwwReg
use sdle_shopping_list.Crdt.AworMap
use sdle_shopping_list.Crdt.AworMap.{ShoppingList, merge}
use sdle_shopping_list.Crdt.AworMap.Convergence.{map_view, join_map}
use sdle_shopping_list.Crdt.Tests.{milk, milk-IsValid, register}
use sdle_shopping_list.Storage.Client.{
  ClientDb, StoredItemRow, read_shopping_list, write_shopping_list, get_user_lists,
}
use sdle_shopping_list.Storage.Client.Tables.{IsConsistent}
use sdle_shopping_list.Storage.Client.Roundtrip.{CoversList, read-write}
use sdle_shopping_list.Sample.{hashing}
use sdle_shopping_list.Server.Message.{ack_list}
use sdle_shopping_list.Client.{
  ShoppingListInterface, from_crdt, reply, stored_or_same, retrieve_list, retrieve_available_lists,
}
use sdle_shopping_list.Client.Retrieval.{retrieve_list_lem}
use sdle_shopping_list.Client.Listing.{identifiers, retrieved_unlisted}
use sdle_shopping_list.Client.Saved.{retrieved_saved}

-- A database of one list, whose counters hold one count of actor 1: their own number.
abbrev pub sql : ClientDb
sql = record {
  Db = List StoredItemRow;
  insert_list = λ db l. ok db;
  select_lists = λ db. ok ("uuuuuuu" ∷ []);
  select_counts = λ db id. ok (("u", id) ∷ []);
  select_item = λ db l n. ok none;
  select_items = λ db l. ok db;
  update_acquired = λ db i v k a. ok db;
  upsert_i64 = λ db i a v. ok db;
  replace_count = λ db i a v. ok db;
  insert_count = λ db i a v. ok db;
  insert_counter = λ db. ok (0, db);
  insert_item = λ db l n v k a p q. ok db;
  upsert_item = λ db l n v k a p q. ok db;
}

abbrev pub rows : List StoredItemRow
rows =
    record {
      item_id = 1;
      name = "milk";
      acquired_val = 0;
      acquired_clock = 0;
      acquired_actor = "u";
      p_id = 2;
      n_id = 0;
    }
    ∷ []

abbrev local : ShoppingList
local = record { id = 7; list = milk 1 2 0 }

abbrev pub remote : ShoppingList
remote = record { id = 7; list = milk 2 5 1 }

local_read : read_shopping_list hashing sql 1 rows 7 ≡ ok local
unfolding read_shopping_list insert get AworMap.insert AworMap.new LwwReg.new
local_read = refl

retrieve_list_example :
    (merged : ShoppingList) × (retrieve_list hashing sql 1 rows 7 (reply (ack_list "r" remote))
      ≡ ok (from_crdt merged, stored_or_same hashing sql 1 rows merged))
    × (merged.id ≡ 7)
    × (map_view merged.list ≡ map_view (merge local.list remote.list))
retrieve_list_example =
    retrieve_list_lem hashing sql 1 rows local remote "r" local_read (milk-IsValid 1 2 0)
      (milk-IsValid 2 5 1)
