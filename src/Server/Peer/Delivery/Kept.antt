-- ===== src/Server/Peer/Delivery/Kept.antt =====
-- From `handle_handoff` of src/server.rs to the round of `hinted_handoff` that hands the list over.
use sdle_shopping_list.Common.{
  ℕ, ◌≤◌, length, Uuid, String, nat_eq, true, List, ◌≡◌, ◌≢◌, sym, ap, ◌∙◌, All, subst,
}
use sdle_shopping_list.Common.Result.{ok, err}
use sdle_shopping_list.HashMap.{contains_key}
use sdle_shopping_list.Crdt.AworMap.{ShoppingList}
use sdle_shopping_list.External.{Platform}
use sdle_shopping_list.Storage.Server.{get_hinted_handoffs, write_shopping_list_handoff}
use sdle_shopping_list.Storage.Server.Writes.{IsKeyed}
use sdle_shopping_list.Storage.Server.Hints.{write_handoff-Mem}
use sdle_shopping_list.Server.Message.{ack}
use sdle_shopping_list.Server.Peer.{Network, Peer, send_to_any}
use sdle_shopping_list.Server.Peer.Handlers.{hinted_handoff, handle_handoff}
use sdle_shopping_list.Server.Peer.Sending.{send_to-storage}
use sdle_shopping_list.Server.Peer.Delivery.Promise.{
  SendsAll, IsHandedOver, send_to-membership, hinted_handoff-IsHandedOver,
}

module _ (x : Platform) (net : Network) where
  -- The server after it has kept a list: the table is the written one, the members are the same.
  handoff_kept :
      (p : Peer x.Table) (identity : Uuid) (id : String) (list : ShoppingList) (dest : Uuid)
      (db : x.Table)
      → write_shopping_list_handoff x p.storage list dest ≡ ok db
      → ((handle_handoff x net p identity id list dest).storage ≡ db)
        × ((handle_handoff x net p identity id list dest).membership ≡ p.membership)
  unfolding handle_handoff send_to_any
  handoff_kept p identity id list dest db w =
      let kept = record p { storage = db } in
      (
        rw (w, handle_handoff) (send_to-storage net kept identity (ack id)),
        rw (w, handle_handoff) (send_to-membership net kept identity (ack id)),
      )

  -- Where every attempt to send and every statement that deletes a row succeed, the next round of
  -- the hinted handoff hands over a list that a server was asked to keep: if the rows of its table
  -- are lists under their keys, the list is written and the hinted lists are read, a write of the
  -- list is then on the network to the server that the request named, and no row is left under the
  -- key of the list, whatever was there before it was written. It asks for an id for each message,
  -- and for every server that a hint names to be in the table of members.
  pub handoff_delivered :
      SendsAll net
      → ((db : x.Table) (k : ℕ) → x.delete db k ≢ err)
      → (p : Peer x.Table) (identity : Uuid) (id : String) (list : ShoppingList) (dest : Uuid)
        (db : x.Table) (handoffs : List (Uuid × ShoppingList)) (ids : List String)
      → IsKeyed x p.storage
      → write_shopping_list_handoff x p.storage list dest ≡ ok db
      → get_hinted_handoffs x db ≡ ok handoffs
      → length handoffs ≤ length ids
      → All (λ (h : Uuid × ShoppingList). contains_key p.membership h.0 ≡ true) handoffs
      → IsHandedOver x net dest list
          (hinted_handoff x net ids (handle_handoff x net p identity id list dest))
  handoff_delivered all del p identity id list dest db handoffs ids v w h n known =
      let (table, members) = handoff_kept p identity id list dest db w in
      hinted_handoff-IsHandedOver x net all del ids (handle_handoff x net p identity id list dest)
        handoffs dest list (ap (get_hinted_handoffs x) table ∙ h) n
        (subst (λ t. All (λ (h : Uuid × ShoppingList). contains_key t h.0 ≡ true) handoffs)
          (sym members) known)
        (write_handoff-Mem x p.storage list dest db handoffs v w h)
