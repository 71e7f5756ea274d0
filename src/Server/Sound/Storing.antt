-- ===== src/Server/Sound/Storing.antt =====
-- A sound server stays sound when it handles an answer, or a message with a list to store.
use sdle_shopping_list.Common.{
  leb, Uuid, String, nat_eq, string_eq, Bool, true, false, Option, none, some, ◌≡◌, refl, All,
  All-snoc, if◌then◌else◌,
}
use sdle_shopping_list.Common.Result.{Result, ok, err}
use sdle_shopping_list.HashMap.{get, insert}
use sdle_shopping_list.Crdt.AworMap.{ShoppingList}
use sdle_shopping_list.External.{Platform}
use sdle_shopping_list.Storage.Server.{
  get_shopping_list, write_shopping_list, write_shopping_list_handoff,
}
use sdle_shopping_list.Server.Quorum.{
  QuoromState, on_ack, on_ack_list, take_responder, add_list, increment_received,
}
use sdle_shopping_list.Server.Message.{ack, ack_list}
use sdle_shopping_list.Server.Peer.{Network, Peer, send_to_any}
use sdle_shopping_list.Server.Peer.Handlers.{
  handle_ack, handle_ack_list, handle_replicate_list, handle_handoff, handle_merge_list, store,
}
use sdle_shopping_list.Server.Sound.{IsClosed, IsSound, HoldsRows, EndsSound}
use sdle_shopping_list.Server.Sound.Tables.{get-Holds, write-Holds, write_handoff-Holds}
use sdle_shopping_list.Server.Sound.Sending.{insert-HoldsFlights, get-HoldsFlights, send_to-IsSound}

module _ (P : ShoppingList → Type 0) where
  take_responder-All : (q : QuoromState) → All P q.lists → All P (take_responder q).0.lists
  unfolding take_responder
  take_responder-All q h = go (leb q.needed q.received)
    where
      go :
          (b : Bool)
          → All P (
              (λ (r : QuoromState × Bool). r.0.lists)
                (if b then (record q { responder = false }, q.responder) else (q, false)))
      go true = h
      go false = h

  module _ (x : Platform) (net : Network) where
    -- A server with another table.
    pub with_table-IsSound :
        (p : Peer x.Table) (db : x.Table)
        → IsSound P x p
        → HoldsRows P x db
        → IsSound P x (record p { storage = db })
    with_table-IsSound p db v h = record {
      rows = h;
      flights = v.flights;
      sent = v.sent;
      replies = v.replies;
    }

    flight-IsSound :
        (p : Peer x.Table) (k : String) (q : QuoromState)
        → IsSound P x p
        → All P q.lists
        → IsSound P x (record p { in_flight = insert p.in_flight k q })
    flight-IsSound p k q v h = record {
      rows = v.rows;
      flights = insert-HoldsFlights P p.in_flight k q v.flights h;
      sent = v.sent;
      replies = v.replies;
    }

    pub ack-IsSound :
        (p : Peer x.Table) (id : String) → IsSound P x p → IsSound P x (handle_ack p id)
    unfolding handle_ack on_ack increment_received
    ack-IsSound p id v = go (get p.in_flight id) refl
      where
        go : (o : Option QuoromState) → get p.in_flight id ≡ o → IsSound P x (handle_ack p id)
        go none e = rw (e, handle_ack) v
        go (some q) e =
            rw (e, handle_ack)
              (flight-IsSound p id _ v (
                take_responder-All (increment_received q)
                  (get-HoldsFlights P p.in_flight id q v.flights e)))

    pub ack_list-IsSound :
        (p : Peer x.Table) (id : String) (list : ShoppingList)
        → IsSound P x p
        → P list
        → IsSound P x (handle_ack_list p id list)
    unfolding handle_ack_list on_ack_list add_list
    ack_list-IsSound p id list v h = go (get p.in_flight id) refl
      where
        go :
            (o : Option QuoromState)
            → get p.in_flight id ≡ o
            → IsSound P x (handle_ack_list p id list)
        go none e = rw (e, handle_ack_list) v
        go (some q) e =
            rw (e, handle_ack_list)
              (flight-IsSound p id _ v (
                take_responder-All (add_list q list)
                  (All-snoc P q.lists list (get-HoldsFlights P p.in_flight id q v.flights e) h)))

    pub replicate-IsSound :
        (p : Peer x.Table) (identity : Uuid) (id : String) (list : ShoppingList) (write : Bool)
        → IsSound P x p
        → P list
        → IsSound P x (handle_replicate_list x net p identity id list write)
    unfolding handle_replicate_list send_to_any
    replicate-IsSound p identity id list true v h = go (write_shopping_list x p.storage list) refl
      where
        go :
            (r : Result x.Table)
            → write_shopping_list x p.storage list ≡ r
            → IsSound P x (handle_replicate_list x net p identity id list true)
        go err e = rw (e, handle_replicate_list) v
        go (ok db) e =
            rw (e, handle_replicate_list)
              (send_to-IsSound P x net _ identity (ack id)
                (with_table-IsSound p db v (write-Holds P x p.storage db list v.rows h e)) tt)
    replicate-IsSound p identity id list false v h = go (get_shopping_list x p.storage list.id) refl
      where
        go :
            (r : Result (Option ShoppingList))
            → get_shopping_list x p.storage list.id ≡ r
            → IsSound P x (handle_replicate_list x net p identity id list false)
        go err e = rw (e, handle_replicate_list) v
        go (ok none) e = rw (e, handle_replicate_list) v
        go (ok (some l)) e =
            rw (e, handle_replicate_list)
              (send_to-IsSound P x net p identity (ack_list id l) v
                (get-Holds P x p.storage list.id l v.rows e))

    pub handoff-IsSound :
        (p : Peer x.Table) (identity : Uuid) (id : String) (list : ShoppingList) (node : Uuid)
        → IsSound P x p
        → P list
        → IsSound P x (handle_handoff x net p identity id list node)
    unfolding handle_handoff send_to_any
    handoff-IsSound p identity id list node v h =
        go (write_shopping_list_handoff x p.storage list node) refl
      where
        go :
            (r : Result x.Table)
            → write_shopping_list_handoff x p.storage list node ≡ r
            → IsSound P x (handle_handoff x net p identity id list node)
        go err e = rw (e, handle_handoff) (send_to-IsSound P x net p identity (ack id) v tt)
        go (ok db) e =
            rw (e, handle_handoff)
              (send_to-IsSound P x net _ identity (ack id)
                (with_table-IsSound p db v
                  (write_handoff-Holds P x p.storage db list node v.rows h e))
                tt)

    -- A write of a list with the property.
    pub store-EndsSound :
        (p : Peer x.Table) (list : ShoppingList)
        → IsSound P x p
        → P list
        → EndsSound P x (store x net p list)
    unfolding store
    store-EndsSound p list v h = go (write_shopping_list x p.storage list) refl
      where
        go :
            (r : Result x.Table)
            → write_shopping_list x p.storage list ≡ r
            → EndsSound P x (store x net p list)
        go err e = rw (e, store) v
        go (ok db) e =
            rw (e, store) (with_table-IsSound p db v (write-Holds P x p.storage db list v.rows h e))

    pub merge_list-EndsSound :
        IsClosed P
        → (p : Peer x.Table) (list : ShoppingList) → IsSound P x p
        → P list
        → EndsSound P x (handle_merge_list x net p list)
    unfolding handle_merge_list
    merge_list-EndsSound closed p list v h = go (get_shopping_list x p.storage list.id) refl
      where
        go :
            (r : Result (Option ShoppingList))
            → get_shopping_list x p.storage list.id ≡ r
            → EndsSound P x (handle_merge_list x net p list)
        go err e = rw (e, handle_merge_list) v
        go (ok none) e = rw (e, handle_merge_list) (store-EndsSound p list v h)
        go (ok (some l)) e =
            rw (e, handle_merge_list)
              (store-EndsSound p _ v (closed l list (get-Holds P x p.storage list.id l v.rows e) h))
