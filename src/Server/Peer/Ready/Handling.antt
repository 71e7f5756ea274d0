-- ===== src/Server/Peer/Ready/Handling.antt =====
-- A server that knows all servers of its ring still does after it has handled a message.
use sdle_shopping_list.Common.{
  ℕ, Uuid, String, nat_eq, string_eq, inl, inr, true, List, [], ◌∷◌, ◌≡◌, refl, sym, subst, All-imp,
  All-of,
}
use sdle_shopping_list.Common.Result.{Result, ok, err}
use sdle_shopping_list.HashMap.{contains_key, insert, keys, Distinct}
use sdle_shopping_list.HashRing
use sdle_shopping_list.HashRing.{add_vnodes, remove_vnodes, vnode_hash, get_predecessors}
use sdle_shopping_list.External.{Platform}
use sdle_shopping_list.Crdt.AworMap.{ShoppingList}
use sdle_shopping_list.Storage.Server.{get_all_rows}
use sdle_shopping_list.Server.Failure.Available.{new-AllFailed}
use sdle_shopping_list.Server.Message.{
  Msg, MembershipTable, hello, gossip, ping, ack, nack, ack_list, get_list, put_list,
  replicate_list, merge_list, list_response, handoff, leave,
}
use sdle_shopping_list.Server.Peer
use sdle_shopping_list.Server.Peer.{Network, Peer, add_nodes, send_to_any, send_gossip_to}
use sdle_shopping_list.Server.Peer.Handlers.{
  Handled, done, failed, blocked, new_entries, handle_gossip, handle_hello, handle_incoming,
  leave_ring,
}
use sdle_shopping_list.Server.Peer.Tables.{adopt, known_or_lem, gossip_entries_done}
use sdle_shopping_list.Server.Peer.Keeps.{Keeps, hello-keeps, leave_lists-keeps}
use sdle_shopping_list.Server.Peer.Ready.{IsReady, send_to-IsReady}
use sdle_shopping_list.Server.Peer.Ready.Ring.{
  insert-Known, known_of, single_key, keys-All, add_vnodes-Known, remove_vnodes-Known,
  add_nodes-Known,
}
use sdle_shopping_list.Server.Peer.Ready.Storing.{
  EndsReady, replicate-IsReady, handoff-IsReady, merge_list-EndsReady, ack-IsReady,
  ack_list-IsReady,
}

-- The table of a gossip is a map.
abbrev pub IsMap : Msg → Type 0
IsMap (gossip table) = Distinct table
IsMap (hello u addr) = Unit
IsMap ping = Unit
IsMap (ack id) = Unit
IsMap (nack id) = Unit
IsMap (ack_list id list) = Unit
IsMap (get_list list) = Unit
IsMap (put_list list) = Unit
IsMap (replicate_list id list write) = Unit
IsMap (merge_list list) = Unit
IsMap (list_response list) = Unit
IsMap (handoff id list node) = Unit
IsMap leave = Unit

keeps : {T : Type 0} (net : Network) → Keeps net (IsReady {T = T}) (λ msg. Unit)
keeps net = record { sends = λ p u msg v a. send_to-IsReady net p u msg v; gossips = λ table. tt }

module _ (x : Platform) where
  -- A server that has just started.
  pub new-IsReady :
      (u : Uuid) (addr : String) (storage : x.Table) → IsReady (Peer.new x u addr storage)
  unfolding Peer.new HashRing.add_node HashRing.new
  new-IsReady u addr storage = record {
    failures = new-AllFailed;
    members = add_vnodes-Known x ((u, addr) ∷ []) u 0 3 [] (single_key u addr []) tt;
  }

  module _ (net : Network) where
    hello-IsReady :
        (p : Peer x.Table) (u : Uuid) (addr : String)
        → IsReady p
        → IsReady (handle_hello net p u addr)
    unfolding handle_hello
    hello-IsReady p u addr v =
        let ready : IsReady (record p { membership = insert p.membership u addr }) = record {
          failures = v.failures;
          members =
              All-imp (λ e h. insert-Known p.membership u e.1 addr h) p.hashring.ring v.members;
        } in
        hello-keeps (keeps net) p u addr ready

    leave_ring-IsReady : (p : Peer x.Table) → IsReady p → IsReady (leave_ring x net p).0
    unfolding leave_ring HashRing.remove_node
    leave_ring-IsReady p v = go (get_all_rows x p.storage) refl
      where
        alone : IsReady (record p { hashring = HashRing.remove_node x.hashing p.hashring p.uuid })
        alone = record {
          failures = v.failures;
          members =
              remove_vnodes-Known x p.membership p.uuid 0 p.hashring.virtual_nodes p.hashring.ring
                v.members;
        }

        go :
            (r : Result (List (ℕ × ShoppingList)))
            → get_all_rows x p.storage ≡ r
            → IsReady (leave_ring x net p).0
        go err e = rw (e, leave_ring) alone
        go (ok rows) e =
            rw (e, leave_ring)
              (leave_lists-keeps x (keeps net) _ rows alone (All-of (λ r. tt) rows))

    gossip-EndsReady :
        (p : Peer x.Table) (table : MembershipTable)
        → Distinct table
        → IsReady p
        → EndsReady x net (handle_gossip x net p table)
    unfolding handle_gossip
    gossip-EndsReady p table d v = go (handle_gossip x net p table) refl
      where
        after : MembershipTable
        after = adopt p.membership (new_entries p.membership table)

        grown : Peer x.Table
        grown = record p { hashring = add_nodes x p.hashring (keys table) }

        kept : (u : Uuid) → contains_key p.membership u ≡ true → contains_key after u ≡ true
        kept u h =
            known_of p.membership table after u (known_or_lem x net p.membership table u d) (inl h)

        ready : IsReady (record grown { membership = after })
        ready = record {
          failures = v.failures;
          members =
              add_nodes-Known x after p.hashring (keys table)
                (keys-All table after (λ u h.
                  known_of p.membership table after u (known_or_lem x net p.membership table u d)
                    (inr h)))
                (All-imp (λ e h. kept e.1 h) p.hashring.ring v.members);
        }

        go : (r : Handled x.Table) → handle_gossip x net p table ≡ r → EndsReady x net r
        go (done q) e =
            subst IsReady
              (sym (
                gossip_entries_done x net grown q (get_predecessors grown.hashring p.uuid)
                  (new_entries p.membership table) e))
              ready
        go (failed q) e = tt
        go (blocked q) e = tt

    -- Whatever message a server handles, a gossip whose table has no key twice included, if it has
    -- the address of every server of its ring and every record of its failure table says failed, so
    -- it does after a handler that returns without an error.
    pub handle_incoming-EndsReady :
        (p : Peer x.Table) (identity : Uuid) (msg : Msg)
        → IsReady p
        → IsMap msg
        → EndsReady x net (handle_incoming x net p identity msg)
    unfolding handle_incoming
    handle_incoming-EndsReady p identity leave v d = leave_ring-IsReady p v
    handle_incoming-EndsReady p identity (gossip table) v d = gossip-EndsReady p table d v
    handle_incoming-EndsReady p identity (hello u addr) v d = hello-IsReady p u addr v
    handle_incoming-EndsReady p identity (replicate_list id list write) v d =
        replicate-IsReady x net p identity id list write v
    handle_incoming-EndsReady p identity (ack id) v d = ack-IsReady x net p id v
    handle_incoming-EndsReady p identity (ack_list id list) v d = ack_list-IsReady x net p id list v
    handle_incoming-EndsReady p identity (handoff id list node) v d =
        handoff-IsReady x net p identity id list node v
    handle_incoming-EndsReady p identity (merge_list list) v d = merge_list-EndsReady x net p list v
    handle_incoming-EndsReady p identity (list_response list) v d = v
    handle_incoming-EndsReady p identity ping v d = v
    handle_incoming-EndsReady p identity (nack id) v d = v
    handle_incoming-EndsReady p identity (get_list list) v d = v
    handle_incoming-EndsReady p identity (put_list list) v d = v
