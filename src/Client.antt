-- ===== src/Client.antt =====
-- `Client` of src/client.rs, over the storage of a client and what comes of an exchange with the
-- proxy. The socket is not modelled.
pub mod Retrieval
pub mod Listing
pub mod Requested
pub mod Saved
pub mod Tests
use sdle_shopping_list.Common.{
  ℕ, Uuid, String, string_eq, eqb, not, Bool, true, false, Option, none, some, List, [], ◌∷◌, map,
}
use sdle_shopping_list.Common.Int.{as_u64}
use sdle_shopping_list.Common.Result.{Result, ok, err, ◌>>=◌, ◌>>◌, succeeds}
use sdle_shopping_list.HashMap
use sdle_shopping_list.HashMap.{HashMap}
use sdle_shopping_list.Crdt.PnCounter
use sdle_shopping_list.Crdt.Item.{Item}
use sdle_shopping_list.Crdt.AworMap
use sdle_shopping_list.Crdt.AworMap.{ShoppingList}
use sdle_shopping_list.External.{Hashing}
use sdle_shopping_list.Storage.Client.{
  ClientDb, read_shopping_list, write_shopping_list, get_user_lists, handle_item_storage_request,
}
use sdle_shopping_list.Storage.Client.Identity.{MetadataTable}
use sdle_shopping_list.Storage.Files.{Files, ClientStorage, new_client}
use sdle_shopping_list.Server.Message.{Msg, ack_list, nack, get_list}

pub record ShoppingListInterface : Type 0 where
  pub list_id : Uuid
  pub items : HashMap String (ℕ × Bool)

-- The loop of `from_crdt`.
unfoldable pub from_items :
    HashMap String (ℕ × Bool) → HashMap String Item → HashMap String (ℕ × Bool)
from_items items [] = items
from_items items ((k, v) ∷ rest) =
    from_items
      (HashMap.insert items k (as_u64 (PnCounter.value_total v.amount), not (eqb v.acquired.val 0)))
      rest

unfoldable pub from_crdt : ShoppingList → ShoppingListInterface
unfolding from_items
from_crdt sl = record { list_id = sl.id; items = from_items [] sl.list.items }

pub record Client (Db : Type 0) : Type 0 where
  pub id : Uuid
  pub storage_handler : ClientStorage Db

-- `Client::new`, and whether its socket opens.
unfoldable pub new :
    {Db : Type 0}
    → Files Db
    → Hashing
    → MetadataTable Db
    → String
    → Uuid
    → Bool
    → Result (Client Db)
unfolding new_client
new files c metadata username new_id connects = do
  storage_handler ← new_client files c metadata username new_id
  succeeds connects
  ok (record { id = storage_handler.client_id; storage_handler = storage_handler })

-- `connect`: the message that it sends, where its socket opens, sends and receives. Nothing calls it.
unfoldable pub connect : Uuid → Bool → Bool → Bool → Result Msg
connect list_id connects sends receives = do
  succeeds connects
  let msg = get_list (record { id = list_id; list = AworMap.new })
  succeeds sends
  succeeds receives
  ok msg

-- What comes of a message to the proxy: it is not sent; there is a reply, that parses or not; there
-- is none in time; another error. Where the socket is reset, whether that succeeds.
pub data Exchange : Type 0 where
  not_sent : Bool → Exchange
  reply : Msg → Exchange
  unreadable : Exchange
  timed_out : Bool → Exchange
  broken : Exchange

abbrev pub if_reset {ℓ} : {A : Type ℓ} → Bool → A → Result A
if_reset true a = ok a
if_reset false a = err

-- The answer of a server to a request for a list.
unfoldable pub on_reply : ShoppingList → Msg → Result (Option ShoppingList)
on_reply list (ack_list _ l) = ok (some (record list { list = AworMap.merge list.list l.list }))
on_reply list (nack _) = ok none
on_reply list _ = err

unfoldable pub fetch_list : ShoppingList → Exchange → Result (Option ShoppingList)
unfolding on_reply
fetch_list list (not_sent reset) = if_reset reset none
fetch_list list (reply msg) = on_reply list msg
fetch_list list unreadable = err
fetch_list list (timed_out reset) = if_reset reset none
fetch_list list broken = err

-- `send_list`, which does nothing with a reply.
unfoldable pub send_list : Exchange → Result (Unit {0})
send_list (not_sent reset) = if_reset reset tt
send_list (reply _) = ok tt
send_list unreadable = err
send_list (timed_out reset) = if_reset reset tt
send_list broken = err

module _ (c : Hashing) (sql : ClientDb) (client_id : Uuid) where
  unfoldable pub retrieve_available_lists : sql.Db → Result (Option (List ShoppingListInterface))
  retrieve_available_lists db = do
    lists ← get_user_lists c sql client_id db
    ok (elim lists [ none ↦ none | some vec ↦ some (map from_crdt vec) ])

  -- `let _ = …write_shopping_list(…)`: an error leaves the database as it was.
  unfoldable pub stored_or_same : sql.Db → ShoppingList → sql.Db
  stored_or_same db list = elim (write_shopping_list c sql client_id db list) [
    | err ↦ db
    | ok db' ↦ db'
  ]

  unfoldable pub with_remote :
      sql.Db → ShoppingList → Option ShoppingList → ShoppingListInterface × sql.Db
  unfolding stored_or_same
  with_remote db local_list none = (from_crdt local_list, db)
  with_remote db local_list (some remote) =
      let merged = record local_list { list = AworMap.merge local_list.list remote.list } in
      (from_crdt merged, stored_or_same db merged)

  unfoldable pub retrieve_list : sql.Db → Uuid → Exchange → Result (ShoppingListInterface × sql.Db)
  unfolding with_remote fetch_list
  retrieve_list db list_id exchange = do
    local_list ← read_shopping_list c sql client_id db list_id
    remote_list ← fetch_list local_list exchange
    ok (with_remote db local_list remote_list)

  -- The database stays changed where sending fails; here an error leaves no database.
  unfoldable pub send_item_storage_request :
      sql.Db → String → ℕ → Bool → Uuid → Exchange → Result sql.Db
  unfolding send_list
  send_item_storage_request db item_name quantity acquired shoppinglist_id exchange = do
    db ← handle_item_storage_request c sql client_id db item_name quantity acquired shoppinglist_id
    updated_list ← read_shopping_list c sql client_id db shoppinglist_id
    _ ← send_list exchange
    ok db
