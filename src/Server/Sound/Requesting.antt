-- ===== src/Server/Sound/Requesting.antt =====
-- A sound server stays sound when it starts a request of a client, about a list with the property.
use sdle_shopping_list.Common.{
  ℕ, Uuid, String, nat_eq, string_eq, Bool, true, false, Option, none, some, List, [], ◌∷◌, ◌≡◌,
  refl, if◌then◌else◌,
}
use sdle_shopping_list.Common.Result.{Result, ok, err}
use sdle_shopping_list.HashRing.{write_nodes, read_nodes}
use sdle_shopping_list.Crdt.AworMap.{ShoppingList}
use sdle_shopping_list.External.{Platform}
use sdle_shopping_list.Storage.Server.{get_shopping_list}
use sdle_shopping_list.Server.Message.{
  Msg, hello, gossip, ping, ack, nack, ack_list, get_list, put_list, replicate_list, merge_list,
  list_response, handoff, leave,
}
use sdle_shopping_list.Server.Peer.{
  Network, Peer, send_to, send_to_any, get_replicas, next_available,
}
use sdle_shopping_list.Server.Peer.Requests.{
  Writes, written, searching, Started, refused, waiting_write, waiting_read, stuck, unsupported,
  last, quorom, send_writes, send_write_replicate, send_all, send_read_replicate, in_flight_with,
  start_put, start_proxy,
}
use sdle_shopping_list.Server.Sound.{IsSound, Holds}
use sdle_shopping_list.Server.Sound.Tables.{get-Holds}
use sdle_shopping_list.Server.Sound.Sending.{insert-HoldsFlights, send_to-IsSound}

module _ (P : ShoppingList → Type 0) where
  module _ (x : Platform) (net : Network) where
    abbrev pub StartsSound : Started x.Table → Type 0
    StartsSound (refused q) = IsSound P x q
    StartsSound (waiting_write q list) = IsSound P x q × P list
    StartsSound (waiting_read q list) = IsSound P x q × P list
    StartsSound (stuck q) = IsSound P x q
    StartsSound (unsupported q) = IsSound P x q

    flight-IsSound :
        (p : Peer x.Table) (k : String) (needed : ℕ) (list : ShoppingList)
        → IsSound P x p
        → P list
        → IsSound P x (in_flight_with net p k (quorom needed list))
    unfolding in_flight_with quorom
    flight-IsSound p k needed list v h = record {
      rows = v.rows;
      flights = insert-HoldsFlights P p.in_flight k _ v.flights (h, tt);
      sent = v.sent;
      replies = v.replies;
    }

    abbrev WritesSound : Writes x.Table → Type 0
    WritesSound (searching q) = IsSound P x q
    WritesSound (written q) = IsSound P x q

    writes-WritesSound :
        (fuel : ℕ) (msg : Msg) (id : String) (list : ShoppingList) (last : Uuid)
        (replicas : List Uuid) (p : Peer x.Table)
        → IsSound P x p
        → Holds P msg
        → P list
        → WritesSound (send_writes net fuel msg id list last replicas p)
    unfolding send_writes send_to_any
    writes-WritesSound fuel msg id list last [] p v m h = v
    writes-WritesSound fuel msg id list last (replica ∷ replicas) p v m h =
        let after = (send_to net p replica msg).0 in
        let sound = send_to-IsSound P x net p replica msg v m in
        go after ((send_to net p replica msg).1) sound
          (writes-WritesSound fuel msg id list last replicas after sound m h)
          (next_available fuel after last last)
          (λ next.
            writes-WritesSound fuel msg id list last replicas
              (send_to net after next (handoff id list replica)).0
              (send_to-IsSound P x net after next (handoff id list replica) sound h) m h)
      where
        go :
            (after : Peer x.Table) (sent : Bool)
            → IsSound P x after
            → WritesSound (send_writes net fuel msg id list last replicas after)
            → (found : Option (Result Uuid))
            → ((next : Uuid)
                → WritesSound (
                    send_writes net fuel msg id list last replicas
                      (send_to net after next (handoff id list replica)).0))
            → WritesSound (
                if sent
                then send_writes net fuel msg id list last replicas after
                else elim found as (λ _. Writes x.Table) [
                  | none ↦ searching after
                  | some r ↦ elim r as (λ _. Writes x.Table) [
                    | err ↦ written after
                    | ok next ↦
                        send_writes net fuel msg id list last replicas
                          (send_to net after next (handoff id list replica)).0
                  ]
                ])
        go after true s a found b = a
        go after false s a none b = s
        go after false s a (some err) b = s
        go after false s a (some (ok next)) b = b next

    all-IsSound :
        (msg : Msg) (replicas : List Uuid) (p : Peer x.Table)
        → IsSound P x p
        → Holds P msg
        → IsSound P x (send_all net msg replicas p)
    unfolding send_all send_to_any
    all-IsSound msg [] p v m = v
    all-IsSound msg (replica ∷ replicas) p v m =
        all-IsSound msg replicas (send_to net p replica msg).0
          (send_to-IsSound P x net p replica msg v m) m

    put-StartsSound :
        (fuel : ℕ) (p : Peer x.Table) (id : String) (list : ShoppingList)
        → IsSound P x p
        → P list
        → StartsSound (start_put x net fuel p id list)
    unfolding start_put send_write_replicate
    put-StartsSound fuel p id list v h = go (get_replicas x p list.id)
      where
        write :
            (o : Writes x.Table)
            → WritesSound o
            → StartsSound (elim o as (λ _. Started x.Table) [
              | searching after ↦ stuck after
              | written after ↦ waiting_write after list
            ])
        write (searching after) s = s
        write (written after) s = (s, h)

        replicate :
            (r : Uuid) (rs : List Uuid) (l : Option Uuid)
            → WritesSound (elim l as (λ _. Writes x.Table) [
              | none ↦ searching (in_flight_with net p id (quorom write_nodes list))
              | some l ↦
                  send_writes net fuel
                    (replicate_list id list true)
                    id
                    list
                    l
                    (r ∷ rs)
                    (in_flight_with net p id (quorom write_nodes list))
            ])
        replicate r rs none = flight-IsSound p id write_nodes list v h
        replicate r rs (some l) =
            writes-WritesSound fuel (replicate_list id list true) id list l (r ∷ rs) _
              (flight-IsSound p id write_nodes list v h) h h

        go :
            (l : List Uuid)
            → StartsSound (elim l as (λ _. Started x.Table) [
              | [] ↦ refused p
              | r ∷ rs ↦
                  elim (send_write_replicate net fuel p id list (r ∷ rs))
                    as (λ _. Started x.Table) [
                      | searching after ↦ stuck after
                      | written after ↦ waiting_write after list
                    ]
            ])
        go [] = v
        go (r ∷ rs) = write _ (replicate r rs (last (r ∷ rs)))

    -- The start of a request of a client.
    pub start_proxy-StartsSound :
        (fuel : ℕ) (p : Peer x.Table) (id : String) (msg : Msg)
        → IsSound P x p
        → Holds P msg
        → StartsSound (start_proxy x net fuel p id msg)
    unfolding start_proxy send_read_replicate
    start_proxy-StartsSound fuel p id (get_list list) v h =
        go (get_shopping_list x p.storage list.id) refl
      where
        read :
            (l : ShoppingList)
            → P l
            → (rs : List Uuid)
            → StartsSound (elim rs as (λ _. Started x.Table) [
              | [] ↦ refused p
              | r ∷ rs ↦ waiting_read (send_read_replicate net p id list (r ∷ rs)) l
            ])
        read l pl [] = v
        read l pl (r ∷ rs) = (
          all-IsSound (replicate_list id list false) (r ∷ rs) _
              (flight-IsSound p id read_nodes list v h) h,
          pl,
        )

        go :
            (r : Result (Option ShoppingList))
            → get_shopping_list x p.storage list.id ≡ r
            → StartsSound (start_proxy x net fuel p id (get_list list))
        go err e = rw (e, start_proxy) v
        go (ok none) e = rw (e, start_proxy) (put-StartsSound fuel p id list v h)
        go (ok (some l)) e =
            rw (e, start_proxy)
              (read l (get-Holds P x p.storage list.id l v.rows e) (get_replicas x p list.id))
    start_proxy-StartsSound fuel p id (put_list list) v h = put-StartsSound fuel p id list v h
    start_proxy-StartsSound fuel p id (hello u a) v h = v
    start_proxy-StartsSound fuel p id (gossip t) v h = v
    start_proxy-StartsSound fuel p id ping v h = v
    start_proxy-StartsSound fuel p id (ack i) v h = v
    start_proxy-StartsSound fuel p id (nack i) v h = v
    start_proxy-StartsSound fuel p id (ack_list i l) v h = v
    start_proxy-StartsSound fuel p id (replicate_list i l w) v h = v
    start_proxy-StartsSound fuel p id (merge_list l) v h = v
    start_proxy-StartsSound fuel p id (list_response l) v h = v
    start_proxy-StartsSound fuel p id (handoff i l n) v h = v
    start_proxy-StartsSound fuel p id leave v h = v
