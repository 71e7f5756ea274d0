-- ===== src/Server/Peer/Ready/Storing.antt =====
-- A server that knows all servers of its ring still does after it has handled a list or an answer.
use sdle_shopping_list.Common.{
  Uuid, String, nat_eq, string_eq, Bool, true, false, Option, none, some, ◌≡◌, refl,
}
use sdle_shopping_list.Common.Result.{Result, ok, err}
use sdle_shopping_list.HashMap.{get}
use sdle_shopping_list.External.{Platform}
use sdle_shopping_list.Crdt.AworMap.{ShoppingList}
use sdle_shopping_list.Storage.Server.{
  get_shopping_list, write_shopping_list, write_shopping_list_handoff,
}
use sdle_shopping_list.Server.Message.{ack, ack_list}
use sdle_shopping_list.Server.Peer.{Network, Peer, send_to_any}
use sdle_shopping_list.Server.Peer.Handlers.{
  Handled, done, failed, blocked, handle_ack, handle_ack_list, handle_replicate_list,
  handle_handoff, handle_merge_list, store,
}
use sdle_shopping_list.Server.Peer.Ready.{IsReady, send_to-IsReady}

module _ (x : Platform) where
  module _ (net : Network) where
    abbrev pub EndsReady : Handled x.Table → Type 0
    EndsReady (done q) = IsReady q
    EndsReady (failed q) = Unit
    EndsReady (blocked q) = Unit

    with_table-IsReady :
        (p : Peer x.Table) (db : x.Table) → IsReady p → IsReady (record p { storage = db })
    with_table-IsReady p db v = record { failures = v.failures; members = v.members }

    pub replicate-IsReady :
        (p : Peer x.Table) (identity : Uuid) (id : String) (list : ShoppingList) (write : Bool)
        → IsReady p
        → IsReady (handle_replicate_list x net p identity id list write)
    unfolding handle_replicate_list send_to_any
    replicate-IsReady p identity id list true v = go (write_shopping_list x p.storage list) refl
      where
        go :
            (r : Result x.Table)
            → write_shopping_list x p.storage list ≡ r
            → IsReady (handle_replicate_list x net p identity id list true)
        go err e = rw (e, handle_replicate_list) v
        go (ok db) e =
            rw (e, handle_replicate_list)
              (send_to-IsReady net _ identity (ack id) (with_table-IsReady p db v))
    replicate-IsReady p identity id list false v = go (get_shopping_list x p.storage list.id) refl
      where
        go :
            (r : Result (Option ShoppingList))
            → get_shopping_list x p.storage list.id ≡ r
            → IsReady (handle_replicate_list x net p identity id list false)
        go err e = rw (e, handle_replicate_list) v
        go (ok none) e = rw (e, handle_replicate_list) v
        go (ok (some l)) e =
            rw (e, handle_replicate_list) (send_to-IsReady net p identity (ack_list id l) v)

    pub handoff-IsReady :
        (p : Peer x.Table) (identity : Uuid) (id : String) (list : ShoppingList) (node : Uuid)
        → IsReady p
        → IsReady (handle_handoff x net p identity id list node)
    unfolding handle_handoff send_to_any
    handoff-IsReady p identity id list node v =
        go (write_shopping_list_handoff x p.storage list node) refl
      where
        go :
            (r : Result x.Table)
            → write_shopping_list_handoff x p.storage list node ≡ r
            → IsReady (handle_handoff x net p identity id list node)
        go err e = rw (e, handle_handoff) (send_to-IsReady net p identity (ack id) v)
        go (ok db) e =
            rw (e, handle_handoff)
              (send_to-IsReady net _ identity (ack id) (with_table-IsReady p db v))

    store-EndsReady :
        (p : Peer x.Table) (list : ShoppingList) → IsReady p → EndsReady (store x net p list)
    unfolding store
    store-EndsReady p list v = go (write_shopping_list x p.storage list) refl
      where
        go :
            (r : Result x.Table)
            → write_shopping_list x p.storage list ≡ r
            → EndsReady (store x net p list)
        go err e = rw (e, store) tt
        go (ok db) e = rw (e, store) (with_table-IsReady p db v)

    pub merge_list-EndsReady :
        (p : Peer x.Table) (list : ShoppingList)
        → IsReady p
        → EndsReady (handle_merge_list x net p list)
    unfolding handle_merge_list
    merge_list-EndsReady p list v = go (get_shopping_list x p.storage list.id) refl
      where
        go :
            (r : Result (Option ShoppingList))
            → get_shopping_list x p.storage list.id ≡ r
            → EndsReady (handle_merge_list x net p list)
        go err e = rw (e, handle_merge_list) tt
        go (ok none) e = rw (e, handle_merge_list) (store-EndsReady p list v)
        go (ok (some l)) e = rw (e, handle_merge_list) (store-EndsReady p _ v)

    pub ack-IsReady : (p : Peer x.Table) (id : String) → IsReady p → IsReady (handle_ack p id)
    unfolding handle_ack
    ack-IsReady p id v = go (get p.in_flight id) refl
      where
        go : (o : _) → get p.in_flight id ≡ o → IsReady (handle_ack p id)
        go none e = rw (e, handle_ack) v
        go (some q) e = rw (e, handle_ack) (record { failures = v.failures; members = v.members })

    pub ack_list-IsReady :
        (p : Peer x.Table) (id : String) (list : ShoppingList)
        → IsReady p
        → IsReady (handle_ack_list p id list)
    unfolding handle_ack_list
    ack_list-IsReady p id list v = go (get p.in_flight id) refl
      where
        go : (o : _) → get p.in_flight id ≡ o → IsReady (handle_ack_list p id list)
        go none e = rw (e, handle_ack_list) v
        go (some q) e =
            rw (e, handle_ack_list) (record { failures = v.failures; members = v.members })
