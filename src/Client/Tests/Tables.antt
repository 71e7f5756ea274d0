-- ===== src/Client/Tests/Tables.antt =====
-- A client with tables in memory, which retrieves a list that it does not know yet.
use sdle_shopping_list.Common.{
  string_eq, Option, some, ℕ, String, Bool, true, List, [], ◌∷◌, ◌⊎◌, ◌≡◌, refl, arith,
}
use sdle_shopping_list.Common.Result.{ok, err}
use sdle_shopping_list.HashMap.{insert, get, remove}
use sdle_shopping_list.Crdt.LwwReg
use sdle_shopping_list.Crdt.AworMap
use sdle_shopping_list.Crdt.AworMap.{ShoppingList, merge}
use sdle_shopping_list.Crdt.AworMap.Convergence.{map_view, join_map}
use sdle_shopping_list.Crdt.Tests.{milk-IsValid, register}
use sdle_shopping_list.Storage.Client.{read_shopping_list, write_shopping_list, get_user_lists}
use sdle_shopping_list.Storage.Client.Tables.{IsConsistent}
use sdle_shopping_list.Storage.Client.Roundtrip.{CoversList, read-write}
use sdle_shopping_list.Sample.{hashing}
use sdle_shopping_list.Sample.Tables.{Memory, memory}
use sdle_shopping_list.Sample.Tables.Laws.{tables}
use sdle_shopping_list.Server.Message.{ack_list}
use sdle_shopping_list.Client.{
  ShoppingListInterface, from_crdt, reply, stored_or_same, retrieve_list, retrieve_available_lists,
}
use sdle_shopping_list.Client.Listing.{identifiers, retrieved_unlisted}
use sdle_shopping_list.Client.Saved.{retrieved_saved}
use sdle_shopping_list.Client.Tests.{remote}

-- The tables of a client that knows no list yet, and the list that a server sends.
abbrev pub no_tables : Memory
no_tables = record { items = []; counts = []; counters = 0; locals = [] }

abbrev pub no_owner : ℕ → String × String × Bool
no_owner j = ("", "", true)

pub no_tables-IsConsistent : IsConsistent hashing tables no_owner no_tables
no_tables-IsConsistent = record {
  positive = λ l n row e. absurd (ground (arith, e));
  negative = λ l n row e. absurd (ground (arith, e));
  unused = λ j a h. refl;
  printed = λ j a v e. absurd (ground (arith, e));
}

abbrev pub nothing : ShoppingList
nothing = record { id = 7; list = AworMap.new }

nothing_read : read_shopping_list hashing memory 1 no_tables 7 ≡ ok nothing
unfolding read_shopping_list AworMap.new
nothing_read = refl

-- One item with its two counters, of which each has a count.
abbrev pub kept : Memory
kept = record {
  items =
      (
        "uuuuuuu",
        record {
          item_id = 0;
          name = "milk";
          acquired_val = 1;
          acquired_clock = 1;
          acquired_actor = "uu";
          p_id = 0;
          n_id = 1;
        },
      )
      ∷ [];
  counts = (1, "uu", 0) ∷ (0, "uu", 5) ∷ [];
  counters = 2;
  locals = [];
}

retrieved :
    retrieve_list hashing memory 1 no_tables 7 (reply (ack_list "r" remote))
    ≡ ok (from_crdt (record nothing { list = merge nothing.list remote.list }), kept)
unfolding retrieve_list stored_or_same merge AworMap.new read_shopping_list AworMap.merge_items
    write_shopping_list insert get
retrieved = refl

-- The same counts, under the identifier of the client.
abbrev pub again : ShoppingList
again = record nothing {
  list = record {
    items =
        (
          "milk",
          record {
            amount = record {
              p = record { counter = (2, 5) ∷ []; actor_id = 1 };
              n = record { counter = (2, 0) ∷ []; actor_id = 1 };
            };
            acquired = register 1 1 2;
          },
        )
        ∷ [];
  };
}

pub read_again : read_shopping_list hashing memory 1 kept 7 ≡ ok again
unfolding read_shopping_list remove AworMap.insert insert LwwReg.new AworMap.new get
read_again = refl

abbrev twice_merged : ShoppingList
twice_merged = record nothing { list = merge nothing.list (merge nothing.list remote.list) }

retrieved_saved_example :
    ((write_shopping_list hashing memory 1 no_tables twice_merged ≡ err) × (kept ≡ no_tables))
    ⊎ (map_view again.list ≡ join_map (map_view nothing.list) (map_view remote.list))
retrieved_saved_example =
    retrieved_saved hashing tables 1 no_owner no_tables kept 7 nothing remote again "r"
      (from_crdt (record nothing { list = merge nothing.list remote.list })) no_tables-IsConsistent
      (milk-IsValid 2 5 1) nothing_read retrieved read_again

pub no_tables-CoversList : CoversList hashing tables 1 no_tables remote
no_tables-CoversList = record {
  items = λ name i g row found. absurd (ground (arith, found));
  names = λ name g. refl;
}

pub remote_written : write_shopping_list hashing memory 1 no_tables remote ≡ ok kept
unfolding write_shopping_list insert get
remote_written = refl

read-write_example : map_view again.list ≡ map_view remote.list
read-write_example =
    read-write hashing tables 1 no_owner no_tables kept remote again no_tables-IsConsistent
      (milk-IsValid 2 5 1) no_tables-CoversList remote_written read_again

-- The same client, once it has made a list 1, which has no items yet.
abbrev with_own : Memory → Memory
with_own db = record db { locals = "u" ∷ [] }

abbrev own : Option (List ShoppingListInterface)
own = some (record { list_id = 1; items = [] } ∷ [])

available_before : retrieve_available_lists hashing memory 1 (with_own no_tables) ≡ ok own
unfolding retrieve_available_lists get_user_lists from_crdt AworMap.new
available_before = refl

available_after : retrieve_available_lists hashing memory 1 (with_own kept) ≡ ok own
unfolding retrieve_available_lists get_user_lists from_crdt AworMap.new
available_after = refl

retrieved_with_own :
    retrieve_list hashing memory 1 (with_own no_tables) 7 (reply (ack_list "r" remote))
    ≡ ok (from_crdt (record nothing { list = merge nothing.list remote.list }), with_own kept)
unfolding retrieve_list stored_or_same merge AworMap.new read_shopping_list AworMap.merge_items
    write_shopping_list insert get
retrieved_with_own = refl

retrieved_unlisted_example : identifiers own ≡ identifiers own
retrieved_unlisted_example =
    retrieved_unlisted hashing tables 1 (with_own no_tables) (with_own kept) 7
      (reply (ack_list "r" remote))
      (from_crdt (record nothing { list = merge nothing.list remote.list })) own own
      available_before retrieved_with_own available_after
