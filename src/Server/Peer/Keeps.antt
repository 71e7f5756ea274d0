-- ===== src/Server/Peer/Keeps.antt =====
-- A property of a server that an attempt to send keeps, if the message is allowed, is kept by all
-- that only sends.
use sdle_shopping_list.Common.{
  ℕ, zero, suc, Uuid, String, All, nat_eq, ◌==◌, Bool, true, false, Option, none, some, List, [],
  ◌∷◌, if◌then◌else◌,
}
use sdle_shopping_list.HashMap.{contains_key, insert, keys}
use sdle_shopping_list.HashRing
use sdle_shopping_list.External.{Platform}
use sdle_shopping_list.Crdt.AworMap.{ShoppingList}
use sdle_shopping_list.Server.Message.{Msg, MembershipTable, gossip, replicate_list}
use sdle_shopping_list.Server.Peer.{Network, Peer, send_to, send_gossip, send_gossip_to}
use sdle_shopping_list.Server.Peer.Handlers.{
  handle_hello, send_with_retries, leave_lists, max_retries,
}

-- Each attempt to send an allowed message keeps the property, and any gossip is allowed.
pub record Keeps {T : Type 0} (net : Network) (Q : Peer T → Type 0) (Allowed : Msg → Type 0)
    : Type 0 where
  pub sends : (p : Peer T) (u : Uuid) (msg : Msg) → Q p → Allowed msg → Q (send_to net p u msg).0
  pub gossips : (table : MembershipTable) → Allowed (gossip table)

module _ {T : Type 0} {net : Network} {Q : Peer T → Type 0} {Allowed : Msg → Type 0}
    (k : Keeps net Q Allowed) where
  open k use {sends, gossips}

  pub send_gossip-keeps : (p : Peer T) → Q p → Q (send_gossip net p).0
  unfolding send_gossip
  send_gossip-keeps p v = go (net.choose p.attempts (keys p.membership))
    where
      to :
          (u : Uuid) (b : Bool)
          → Q (if b then (p, true) else send_to net p u (gossip p.membership)).0
      to u true = v
      to u false = sends p u (gossip p.membership) v (gossips p.membership)

      go :
          (o : Option Uuid)
          → Q
              (elim o as (λ _. Peer T × Bool) [
                | none ↦ (p, false)
                | some u ↦ if u == p.uuid then (p, true) else send_to net p u (gossip p.membership)
              ]).0
      go none = v
      go (some u) = to u (u == p.uuid)

  pub send_gossip_to-keeps : (p : Peer T) (u : Uuid) → Q p → Q (send_gossip_to net p u).0
  unfolding send_gossip_to
  send_gossip_to-keeps p u v = go (contains_key p.membership u)
    where
      go : (b : Bool) → Q (if b then send_to net p u (gossip p.membership) else (p, false)).0
      go true = sends p u (gossip p.membership) v (gossips p.membership)
      go false = v

  pub hello-keeps :
      (p : Peer T) (u : Uuid) (addr : String)
      → Q (record p { membership = insert p.membership u addr })
      → Q (handle_hello net p u addr)
  unfolding handle_hello
  hello-keeps p u addr v = send_gossip-keeps _ (send_gossip_to-keeps _ u v)

  pub retries-keeps :
      (left : ℕ) (p : Peer T) (u : Uuid) (msg : Msg)
      → Q p
      → Allowed msg
      → Q (send_with_retries net left p u msg)
  unfolding send_with_retries
  retries-keeps zero p u msg v a = v
  retries-keeps (suc left) p u msg v a =
      go (send_to net p u msg).1 (sends p u msg v a)
        (retries-keeps left (send_to net p u msg).0 u msg (sends p u msg v a) a)
    where
      go :
          (b : Bool)
          → Q (send_to net p u msg).0
          → Q (send_with_retries net left (send_to net p u msg).0 u msg)
          → Q (
              if b
              then (send_to net p u msg).0
              else send_with_retries net left (send_to net p u msg).0 u msg)
      go true v w = v
      go false v w = w

module _ (x : Platform) {net : Network} {Q : Peer x.Table → Type 0} {Allowed : Msg → Type 0}
    (k : Keeps net Q Allowed) where
  pub leave_lists-keeps :
      (p : Peer x.Table) (rows : List (ℕ × ShoppingList))
      → Q p
      → All (λ (r : ℕ × ShoppingList). Allowed (replicate_list "" r.1 true)) rows
      → Q (leave_lists x net p rows)
  unfolding leave_lists
  leave_lists-keeps p [] v a = v
  leave_lists-keeps p ((hash, list) ∷ rows) v a =
      go (HashRing.get_preference_list_hash p.hashring hash) (leave_lists-keeps p rows v a.1) (λ id.
        leave_lists-keeps (send_with_retries net max_retries p id (replicate_list "" list true))
          rows (retries-keeps k max_retries p id (replicate_list "" list true) v a.0) a.1)
    where
      go :
          (l : List Uuid)
          → Q (leave_lists x net p rows)
          → ((id : Uuid)
              → Q (
                  leave_lists x net
                    (send_with_retries net max_retries p id (replicate_list "" list true))
                    rows))
          → Q (elim l as (λ _. Peer x.Table) [
            | [] ↦ leave_lists x net p rows
            | id ∷ _ ↦
                leave_lists x net
                  (send_with_retries net max_retries p id (replicate_list "" list true))
                  rows
          ])
      go [] a b = a
      go (id ∷ ids) a b = b id
