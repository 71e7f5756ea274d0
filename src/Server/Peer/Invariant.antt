-- ===== src/Server/Peer/Invariant.antt =====
-- What every message leaves of a server's table: its rows are lists under their keys.
use sdle_shopping_list.Common.{
  ℕ, Uuid, String, nat_eq, Bool, true, false, Option, none, some, List, [], ◌∷◌, ◌≡◌, refl, sym,
  subst, All-of, arith, if◌then◌else◌,
}
use sdle_shopping_list.Common.Sets.{contains}
use sdle_shopping_list.Common.Result.{Result, ok, err}
use sdle_shopping_list.HashMap.{insert}
use sdle_shopping_list.HashRing.{prev_node_hash}
use sdle_shopping_list.External.{Platform}
use sdle_shopping_list.Crdt.AworMap.{ShoppingList}
use sdle_shopping_list.Storage.Server.{
  get_shopping_list, write_shopping_list, write_shopping_list_handoff, get_old_data, get_all_rows,
}
use sdle_shopping_list.Storage.Server.Writes.{IsKeyed, write-IsKeyed, write_handoff-IsKeyed}
use sdle_shopping_list.Server.Message.{
  Msg, MembershipTable, hello, gossip, ping, ack, nack, ack_list, get_list, put_list,
  replicate_list, merge_list, list_response, handoff, leave,
}
use sdle_shopping_list.Server.Peer.{Network, Peer, send_to_any}
use sdle_shopping_list.Server.Peer.Handlers.{
  Handled, done, failed, blocked, gossip_entries, handle_gossip, handle_ack, handle_ack_list,
  handle_replicate_list, handle_handoff, handle_merge_list, handle_incoming, leave_ring, store,
}
use sdle_shopping_list.Server.Peer.Sending.{send_to-storage, keeps_storage}
use sdle_shopping_list.Server.Peer.Keeps.{hello-keeps, leave_lists-keeps}

module _ (x : Platform) (net : Network) where
  -- After a handler, also one that never returns, the table satisfies the invariant.
  abbrev pub KeepsKeys : Handled x.Table → Type 0
  KeepsKeys (done q) = IsKeyed x q.storage
  KeepsKeys (failed q) = IsKeyed x q.storage
  KeepsKeys (blocked q) = IsKeyed x q.storage

  IsKeyed-as : {db db' : x.Table} → db' ≡ db → IsKeyed x db → IsKeyed x db'
  IsKeyed-as e v = subst (IsKeyed x) (sym e) v

  leave_ring-storage : (p : Peer x.Table) → (leave_ring x net p).0.storage ≡ p.storage
  unfolding leave_ring
  leave_ring-storage p = go (get_all_rows x p.storage) refl
    where
      go :
          (r : Result (List (ℕ × ShoppingList)))
          → get_all_rows x p.storage ≡ r
          → (leave_ring x net p).0.storage ≡ p.storage
      go err e = rw (e, leave_ring) (refl)
      go (ok rows) e =
          rw (e, leave_ring)
            (leave_lists-keeps x (keeps_storage net p) _ rows refl (All-of (λ r. tt) rows))

  replicate-KeepsKeys :
      (p : Peer x.Table) (identity : Uuid) (id : String) (list : ShoppingList) (write : Bool)
      → IsKeyed x p.storage
      → IsKeyed x (handle_replicate_list x net p identity id list write).storage
  unfolding handle_replicate_list send_to_any
  replicate-KeepsKeys p identity id list true v = go (write_shopping_list x p.storage list) refl
    where
      go :
          (r : Result x.Table)
          → write_shopping_list x p.storage list ≡ r
          → IsKeyed x (handle_replicate_list x net p identity id list true).storage
      go err e = rw (e, handle_replicate_list) (v)
      go (ok db) e =
          rw (e, handle_replicate_list)
            (IsKeyed-as (send_to-storage net _ identity (ack id))
              (write-IsKeyed x p.storage list db v e))
  replicate-KeepsKeys p identity id list false v = go (get_shopping_list x p.storage list.id) refl
    where
      go :
          (r : Result (Option ShoppingList))
          → get_shopping_list x p.storage list.id ≡ r
          → IsKeyed x (handle_replicate_list x net p identity id list false).storage
      go err e = rw (e, handle_replicate_list) (v)
      go (ok none) e = rw (e, handle_replicate_list) (v)
      go (ok (some l)) e =
          rw (e, handle_replicate_list)
            (IsKeyed-as (send_to-storage net p identity (ack_list id l)) v)

  gossip_entries-KeepsKeys :
      (p : Peer x.Table) (predecessors : List Uuid) (entries : MembershipTable)
      → IsKeyed x p.storage
      → KeepsKeys (gossip_entries x net p predecessors entries)
  unfolding gossip_entries
  gossip_entries-KeepsKeys p predecessors [] v = v
  gossip_entries-KeepsKeys p predecessors ((u, addr) ∷ entries) v =
      let known = record p { membership = insert p.membership u addr } in
      keeps known (contains predecessors u) (prev_node_hash p.hashring p.uuid)
        (λ h. get_old_data x p.storage p.uuid h) (gossip_entries x net known predecessors entries) v
        (gossip_entries-KeepsKeys known predecessors entries v)
    where
      keeps :
          (known : Peer x.Table) (is_predecessor : Bool) (prev : Option ℕ)
          (old : ℕ → Result (List ShoppingList)) (rest : Handled x.Table)
          → IsKeyed x known.storage
          → KeepsKeys rest
          → KeepsKeys (
              if is_predecessor
              then elim prev as (λ _. Handled x.Table) [
                | none ↦ rest
                | some h ↦ elim (old h) as (λ _. Handled x.Table) [
                  | err ↦ failed known
                  | ok lists ↦ elim lists as (λ _. Handled x.Table) [
                    | [] ↦ rest
                    | _ ∷ _ ↦ blocked known
                  ]
                ]
              ]
              else rest)
      keeps known false prev old rest v w = w
      keeps known true none old rest v w = w
      keeps known true (some h) old rest v w = old_keeps (old h)
        where
          old_keeps :
              (r : Result (List ShoppingList))
              → KeepsKeys (elim r as (λ _. Handled x.Table) [
                | err ↦ failed known
                | ok lists ↦ elim lists as (λ _. Handled x.Table) [
                  | [] ↦ rest
                  | _ ∷ _ ↦ blocked known
                ]
              ])
          old_keeps err = v
          old_keeps (ok []) = w
          old_keeps (ok (l ∷ lists)) = v

  handoff-KeepsKeys :
      (p : Peer x.Table) (identity : Uuid) (id : String) (list : ShoppingList) (node : Uuid)
      → IsKeyed x p.storage
      → IsKeyed x (handle_handoff x net p identity id list node).storage
  unfolding handle_handoff send_to_any
  handoff-KeepsKeys p identity id list node v =
      go (write_shopping_list_handoff x p.storage list node) refl
    where
      go :
          (r : Result x.Table)
          → write_shopping_list_handoff x p.storage list node ≡ r
          → IsKeyed x (handle_handoff x net p identity id list node).storage
      go err e = rw (e, handle_handoff) (IsKeyed-as (send_to-storage net p identity (ack id)) v)
      go (ok db) e =
          rw (e, handle_handoff)
            (IsKeyed-as (send_to-storage net _ identity (ack id))
              (write_handoff-IsKeyed x p.storage list node db v e))

  -- A write whose error is passed on keeps the invariant.
  pub store-KeepsKeys :
      (p : Peer x.Table) (list : ShoppingList)
      → IsKeyed x p.storage
      → KeepsKeys (store x net p list)
  unfolding store
  store-KeepsKeys p list v = go (write_shopping_list x p.storage list) refl
    where
      go :
          (r : Result x.Table)
          → write_shopping_list x p.storage list ≡ r
          → KeepsKeys (store x net p list)
      go err e = rw (e, store) v
      go (ok db) e = rw (e, store) (write-IsKeyed x p.storage list db v e)

  merge_list-KeepsKeys :
      (p : Peer x.Table) (list : ShoppingList)
      → IsKeyed x p.storage
      → KeepsKeys (handle_merge_list x net p list)
  unfolding handle_merge_list
  merge_list-KeepsKeys p list v = go (get_shopping_list x p.storage list.id) refl
    where
      go :
          (r : Result (Option ShoppingList))
          → get_shopping_list x p.storage list.id ≡ r
          → KeepsKeys (handle_merge_list x net p list)
      go err e = rw (e, handle_merge_list) v
      go (ok none) e = rw (e, handle_merge_list) (store-KeepsKeys p list v)
      go (ok (some l)) e = rw (e, handle_merge_list) (store-KeepsKeys p _ v)

  ack-storage : (p : Peer x.Table) (id : String) → (handle_ack p id).storage ≡ p.storage
  unfolding handle_ack
  ack-storage p id = ground arith

  ack_list-storage :
      (p : Peer x.Table) (id : String) (list : ShoppingList)
      → (handle_ack_list p id list).storage ≡ p.storage
  unfolding handle_ack_list
  ack_list-storage p id list = ground arith

  -- Whatever message a server handles, if the rows of its table are lists under their keys before,
  -- they are so after the handler has returned, with an error or without.
  pub handle_incoming-KeepsKeys :
      (p : Peer x.Table) (identity : Uuid) (msg : Msg)
      → IsKeyed x p.storage
      → KeepsKeys (handle_incoming x net p identity msg)
  unfolding handle_incoming handle_gossip
  handle_incoming-KeepsKeys p identity leave v = IsKeyed-as (leave_ring-storage p) v
  handle_incoming-KeepsKeys p identity (gossip table) v = gossip_entries-KeepsKeys _ _ _ v
  handle_incoming-KeepsKeys p identity (hello u addr) v =
      IsKeyed-as (hello-keeps (keeps_storage net p) p u addr refl) v
  handle_incoming-KeepsKeys p identity (replicate_list id list write) v =
      replicate-KeepsKeys p identity id list write v
  handle_incoming-KeepsKeys p identity (ack id) v = IsKeyed-as (ack-storage p id) v
  handle_incoming-KeepsKeys p identity (ack_list id list) v =
      IsKeyed-as (ack_list-storage p id list) v
  handle_incoming-KeepsKeys p identity (handoff id list node) v =
      handoff-KeepsKeys p identity id list node v
  handle_incoming-KeepsKeys p identity (merge_list list) v = merge_list-KeepsKeys p list v
  handle_incoming-KeepsKeys p identity (list_response list) v = v
  handle_incoming-KeepsKeys p identity ping v = v
  handle_incoming-KeepsKeys p identity (nack id) v = v
  handle_incoming-KeepsKeys p identity (get_list list) v = v
  handle_incoming-KeepsKeys p identity (put_list list) v = v
