-- ===== src/Server/Sound.antt =====
-- A property of lists that merging keeps, held by every list that a server has: in its table, in the
-- requests in flight, and in what it has sent.
pub mod Tables
pub mod Sending
pub mod Storing
pub mod Handling
pub mod Delivering
pub mod Requesting
pub mod Answering
pub mod Starting
use sdle_shopping_list.Common.{ℕ, All, none, some, List, ◌≡◌}
use sdle_shopping_list.Crdt.AworMap
use sdle_shopping_list.Crdt.AworMap.{ShoppingList}
use sdle_shopping_list.External.{Platform, Row}
use sdle_shopping_list.Server.Quorum.{QuoromState}
use sdle_shopping_list.Server.Message.{
  Msg, hello, gossip, ping, ack, nack, ack_list, get_list, put_list, replicate_list, merge_list,
  list_response, handoff, leave,
}
use sdle_shopping_list.Server.Peer.{Peer}
use sdle_shopping_list.Server.Peer.Handlers.{Handled, done, failed, blocked}

-- Merging a second list into a first one keeps the property.
abbrev pub IsClosed : (ShoppingList → Type 0) → Type 0
IsClosed P = (a b : ShoppingList) → P a → P b → P (record a { list = AworMap.merge a.list b.list })

module _ (P : ShoppingList → Type 0) where
  -- The list in a message has the property.
  abbrev pub Holds : Msg → Type 0
  Holds (hello u addr) = Unit
  Holds (gossip table) = Unit
  Holds ping = Unit
  Holds (ack id) = Unit
  Holds (nack id) = Unit
  Holds (ack_list id list) = P list
  Holds (get_list list) = P list
  Holds (put_list list) = P list
  Holds (replicate_list id list write) = P list
  Holds (merge_list list) = P list
  Holds (list_response none) = Unit
  Holds (list_response (some list)) = P list
  Holds (handoff id list node) = P list
  Holds leave = Unit

  abbrev pub HoldsAll {ℓ} : {A : Type ℓ} → List (A × Msg) → Type 0
  HoldsAll = All (λ m. Holds m.1)

  abbrev pub HoldsFlights {ℓ} : {A : Type ℓ} → List (A × QuoromState) → Type 0
  HoldsFlights = All (λ e. All P e.1.lists)

  module _ (x : Platform) where
    -- Every row of the table is a list with the property.
    abbrev pub HoldsRows : x.Table → Type 0
    HoldsRows db =
        (k : ℕ) (row : Row x.Bytes)
        → x.content db k ≡ some row
        → (l : ShoppingList) × (x.from_slice row.crdt_data ≡ some l) × P l

    pub record IsSound (p : Peer x.Table) : Type 0 where
      pub rows : HoldsRows p.storage
      pub flights : HoldsFlights p.in_flight
      pub sent : HoldsAll p.sent
      pub replies : HoldsAll p.to_proxy

    -- A handler leaves a sound server, also if it never returns.
    abbrev pub EndsSound : Handled x.Table → Type 0
    EndsSound (done q) = IsSound q
    EndsSound (failed q) = IsSound q
    EndsSound (blocked q) = IsSound q
