-- ===== src/Cli/Session/Tests.antt =====
-- A session in which a list is chosen, and then its first item.
use sdle_shopping_list.Common.{String, false, true, List, [], ◌∷◌, ◌≡◌, refl}
use sdle_shopping_list.Common.Result.{ok}
use sdle_shopping_list.HashMap.{insert, get}
use sdle_shopping_list.Storage.Client.{StoredItemRow, read_shopping_list, get_user_lists}
use sdle_shopping_list.Sample.{hashing}
use sdle_shopping_list.Client.{timed_out, from_crdt, retrieve_list, retrieve_available_lists}
use sdle_shopping_list.Crdt.AworMap
use sdle_shopping_list.Crdt.LwwReg
use sdle_shopping_list.Crdt.PnCounter
use sdle_shopping_list.Common.Int.{as_u64, as_i64, sub_i64}
use sdle_shopping_list.Crdt.GCounter
use sdle_shopping_list.HashMap.Total.{total}
use sdle_shopping_list.Common.Sets.{contains}
use sdle_shopping_list.Common.Text.{trim, parse_usize}
use sdle_shopping_list.Client.Tests.{sql, rows}
use sdle_shopping_list.Cli.{
  ItemInterface, handle_list_edit, handle_main_menu, is_done, read_validated_input, list_edit,
  item_edit,
}
use sdle_shopping_list.Cli.Session.{Input, new, process_items, render, session}
use sdle_shopping_list.Cli.Session.Shown.{IsShown, render_lem}

abbrev typing : List String → Input (List StoredItemRow)
typing lines = record {
  lines = lines;
  fetching = timed_out true;
  sending = timed_out true;
  new_id = 9;
  left = [];
}

abbrev milk : ItemInterface
milk = record { name = "milk"; amount = 2; acquired = false }

shown :
    render hashing sql 1 (list_edit 7) rows (typing ("9" ∷ " 1 " ∷ []))
    ≡ ok (item_edit 7 milk, rows)
unfolding render retrieve_list read_shopping_list read_validated_input contains trim parse_usize
    process_items from_crdt get AworMap.insert AworMap.new insert handle_list_edit as_u64
    PnCounter.value_total LwwReg.new sub_i64 as_i64 GCounter.value_total total
shown = refl

render_example : IsShown hashing sql 1 (typing ("9" ∷ " 1 " ∷ [])) 7 milk rows (list_edit 7) rows
render_example =
    render_lem hashing sql 1 (typing ("9" ∷ " 1 " ∷ [])) 7 milk rows (list_edit 7) rows shown

chosen :
    session hashing sql 1 (typing ("1" ∷ []) ∷ typing ("1" ∷ []) ∷ []) new rows
    ≡ ok (item_edit 7 milk, rows)
unfolding session new render is_done retrieve_available_lists get_user_lists handle_main_menu
    retrieve_list read_shopping_list read_validated_input contains trim parse_usize process_items
    from_crdt get AworMap.insert AworMap.new insert handle_list_edit as_u64 PnCounter.value_total
    LwwReg.new sub_i64 as_i64 GCounter.value_total total
chosen = refl
