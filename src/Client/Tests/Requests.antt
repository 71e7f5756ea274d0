-- ===== src/Client/Tests/Requests.antt =====
-- A client with tables in memory, which changes an item of a list that it has retrieved.
use sdle_shopping_list.Common.{
  false, ◌+◌, ◌<◌, subst, some_inj, string_eq, some, Bool, true, ◌≡◌, refl, arith,
}
use sdle_shopping_list.Common.Result.{Result, ok, err}
use sdle_shopping_list.HashMap.{insert, get, remove}
use sdle_shopping_list.Crdt.LwwReg
use sdle_shopping_list.Crdt.AworMap
use sdle_shopping_list.Crdt.AworMap.{ShoppingList, merge}
use sdle_shopping_list.Crdt.Tests.{milk-IsValid}
use sdle_shopping_list.Storage.Client.{read_shopping_list, write_shopping_list}
use sdle_shopping_list.Sample.{hashing}
use sdle_shopping_list.Sample.Tables.{Memory, memory}
use sdle_shopping_list.Sample.Tables.Laws.{tables}
use sdle_shopping_list.Client.{timed_out, send_item_storage_request}
use sdle_shopping_list.Client.Requested.{requested_saved}
use sdle_shopping_list.Storage.Client.Saving.{ListSaved, write_items-ListSaved}
use sdle_shopping_list.Storage.Client.Quantity.{Fits}
use sdle_shopping_list.HashMap.Total.{total}
use sdle_shopping_list.Crdt.PnCounter
use sdle_shopping_list.Crdt.Item.{Item, as_u32}
use sdle_shopping_list.Crdt.Item.Merge as Item
use sdle_shopping_list.Crdt.AworMap.Merge.{Entries-get}
use sdle_shopping_list.Common.Int.{pos, u32_mod, sub_i64, as_i64, as_u64}
use sdle_shopping_list.Common.Sets.{contains}
use sdle_shopping_list.Crdt.GCounter.{inc_by, value_total, merge_counts, merge as merge_counter}
use sdle_shopping_list.Crdt.Item.{merge as merge_item}
use sdle_shopping_list.Client.Tests.{remote}
use sdle_shopping_list.Client.{send_list}
use sdle_shopping_list.Storage.Client.{
  handle_item_storage_request, ensure_list, read_item, build_item, overwrite_item, updated_item,
  with_quantity, read_counts, read_gcounter, read_rows, with_acquired, write_counts,
}
use sdle_shopping_list.Client.Tests.Tables.{
  no_tables, no_owner, kept, again, no_tables-IsConsistent, no_tables-CoversList, remote_written,
  read_again,
}

-- The client has the list now: the tables are consistent, and it asks for three, not acquired.
kept-ListSaved : ListSaved hashing tables 1 no_tables kept "uuuuuuu" remote.list.items
unfolding write_shopping_list get
kept-ListSaved =
    write_items-ListSaved hashing tables 1 no_owner no_tables kept "uuuuuuu" remote.list.items
      no_tables-IsConsistent (milk-IsValid 2 5 1).distinct
      (λ name i e. (
        no_tables-CoversList.items name i e,
        Entries-get Item.IsValid remote.list.items name (milk-IsValid 2 5 1).items e,
      ))
      remote_written

requested : Result Memory
unfolding send_item_storage_request
requested = send_item_storage_request hashing memory 1 kept "milk" 3 false 7 (timed_out true)

after : Memory
unfolding requested
after = elim requested [ err ↦ kept | ok db ↦ db ]

abbrev succeeded : (r : Result Memory) → Bool
succeeded err = false
succeeded (ok db) = true

-- The request succeeds.
runs : succeeded requested ≡ true
unfolding send_item_storage_request requested after handle_item_storage_request ensure_list
    read_item contains build_item remove overwrite_item updated_item merge_item PnCounter.merge
    merge_counter merge_counts with_quantity sub_i64 as_i64 as_u64 PnCounter.value_total send_list
    AworMap.insert AworMap.new inc_by value_total LwwReg.merge LwwReg.new LwwReg.should_update
    PnCounter.dec_by total get insert read_counts read_gcounter read_rows read_shopping_list
    with_acquired write_counts
runs = refl

sent : send_item_storage_request hashing memory 1 kept "milk" 3 false 7 (timed_out true) ≡ ok after
unfolding requested after
sent = unwrapped requested runs
  where
    unwrapped :
        (r : Result Memory) → succeeded r ≡ true → r ≡ ok (elim r [ err ↦ kept | ok db ↦ db ])
    unwrapped err h = absurd (ground (arith, h))
    unwrapped (ok db) h = refl

fits :
    (i : Item)
    → get again.list.items "milk" ≡ some i
    → Fits i.amount 3 × (i.acquired.clock + 1 < u32_mod)
unfolding get total
fits i e =
    let same = some_inj e in
    subst (λ (i : Item). Fits i.amount 3 × (i.acquired.clock + 1 < u32_mod)) same
      (omega arith, omega arith)

requested_saved_example :
    (r : ShoppingList) × (i : Item) × (read_shopping_list hashing memory 1 after 7 ≡ ok r)
    × (get r.list.items "milk" ≡ some i)
    × (PnCounter.value_total i.amount ≡ pos 3)
    × (i.acquired.val ≡ as_u32 false)
requested_saved_example =
    requested_saved hashing tables 1 kept-ListSaved.owner kept after 7 "milk" 3 false again
      (timed_out true) kept-ListSaved.consistent (omega arith) read_again fits sent
