-- ===== src/Server/Message.antt =====
-- `Msg` of src/message.rs, the messages between servers, clients and the proxy. The types `Request` and
-- `Response` of that file, which have no use, are in a child module.
pub mod Unused
use sdle_shopping_list.Common.{ℕ, List, some, ◌≡◌, Uuid, String, Bool, Option}
use sdle_shopping_list.HashMap.{HashMap}
use sdle_shopping_list.Crdt.AworMap.{ShoppingList}

-- `MembershipTable` of src/server.rs: the address of each known server.
abbrev pub MembershipTable : Type 0
MembershipTable = HashMap Uuid String

pub data Msg : Type 0 where
  hello : Uuid → String → Msg
  gossip : MembershipTable → Msg
  ping : Msg
  ack : String → Msg
  nack : String → Msg
  ack_list : String → ShoppingList → Msg
  get_list : ShoppingList → Msg
  put_list : ShoppingList → Msg
  replicate_list : String → ShoppingList → Bool → Msg
  merge_list : ShoppingList → Msg
  list_response : Option ShoppingList → Msg
  handoff : String → ShoppingList → Uuid → Msg
  leave : Msg

unfoldable pub name : Msg → String
name (hello u addr) = "HELLO"
name (gossip table) = "GOSSIP"
name (ack id) = "ACK"
name (nack id) = "NACK"
name (get_list list) = "GET_LIST"
name (put_list list) = "PUT_LIST"
name (merge_list list) = "MERGE_LIST"
name (list_response list) = "LIST_RESPONSE"
name (replicate_list id list write) = "REPLICATE"
name (ack_list id list) = "AckList"
name (handoff id list node) = "HANDOFF"
name ping = "PING"
name leave = "LEAVE"

-- A frame of a message on a socket: its bytes.
abbrev pub Frame : Type 0
Frame = List ℕ

-- What the proxy and the servers take from other crates: the printing of an identifier to bytes and its parsing,
-- and the parsing of a message by `serde_json`.
pub record Wire : Type 0 where
  pub identity : Uuid → Frame
  pub parse_identity : Frame → Option Uuid
  pub parse_identity-identity : (u : Uuid) → parse_identity (identity u) ≡ some u
  pub from_slice : Frame → Option Msg
