-- ===== src/Client/Requested.antt =====
-- What a client has stored of an item after a storage request.
use sdle_shopping_list.Common.{ℕ, ◌+◌, ◌<◌, Uuid, String, string_eq, Bool, some, ◌≡◌, subst}
use sdle_shopping_list.Common.Int.{pos, i64_half, u32_mod}
use sdle_shopping_list.Common.Result.{ok, >>=-eq-ok, ok_inj}
use sdle_shopping_list.HashMap.{get}
use sdle_shopping_list.Crdt.PnCounter
use sdle_shopping_list.Crdt.Item.{Item, as_u32}
use sdle_shopping_list.Crdt.AworMap.{ShoppingList}
use sdle_shopping_list.External.{Hashing}
use sdle_shopping_list.Storage.Client.{ClientDb, read_shopping_list, handle_item_storage_request}
use sdle_shopping_list.Storage.Client.Tables.{ClientTables, IsConsistent}
use sdle_shopping_list.Storage.Client.Quantity.{Fits}
use sdle_shopping_list.Storage.Client.Request.{requested_read}
use sdle_shopping_list.Client.{Exchange, send_list, send_item_storage_request}

module _ (c : Hashing) {sql : ClientDb} (t : ClientTables sql) (client_id : Uuid) where
  -- When a storage request of a client of consistent tables succeeds, whatever comes of the
  -- exchange, the list can be read and has the item with the quantity and the flag that were asked
  -- for, whether it was there or is new. It asks for a quantity below 2 ^ 63 and, where the list
  -- that was read before has the item, for counts that with the quantity stay below 2 ^ 63, and a
  -- clock of the flag that can still grow.
  pub requested_saved :
      (owner : ℕ → String × String × Bool) (db db' : sql.Db) (id : Uuid) (name : String)
      (quantity : ℕ) (acquired : Bool) (local : ShoppingList) (exchange : Exchange)
      → IsConsistent c t owner db
      → quantity < i64_half
      → read_shopping_list c sql client_id db id ≡ ok local
      → ((i : Item)
          → get local.list.items name ≡ some i
          → Fits i.amount quantity × (i.acquired.clock + 1 < u32_mod))
      → send_item_storage_request c sql client_id db name quantity acquired id exchange ≡ ok db'
      → (r : ShoppingList) × (i : Item) × (read_shopping_list c sql client_id db' id ≡ ok r)
        × (get r.list.items name ≡ some i)
        × (PnCounter.value_total i.amount ≡ pos quantity)
        × (i.acquired.val ≡ as_u32 acquired)
  unfolding send_item_storage_request
  requested_saved owner db db' id name quantity acquired local exchange v small h fits sent =
      let (db1, asked, h1) =
        >>=-eq-ok (handle_item_storage_request c sql client_id db name quantity acquired id) _
          sent in
      let (r, read, h2) = >>=-eq-ok (read_shopping_list c sql client_id db1 id) _ h1 in
      let (_, _, e) = >>=-eq-ok (send_list exchange) _ h2 in
      let (i, got, amount, flag) =
        requested_read c t client_id owner db db1 id name quantity acquired local r v small h fits
          asked read in
      (
        r,
        i,
        subst (λ d. read_shopping_list c sql client_id d id ≡ ok r) (ok_inj e) read,
        got,
        amount,
        flag,
      )
