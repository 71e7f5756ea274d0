-- ===== src/Server/Peer/Waiting.antt =====
-- What the start of a put leaves as it was.
use sdle_shopping_list.Common.{
  ℕ, Uuid, String, string_eq, nat_eq, Bool, true, false, Option, none, some, List, [], ◌∷◌, refl,
  if◌then◌else◌,
}
use sdle_shopping_list.Common.Result.{Result, ok, err}
use sdle_shopping_list.HashRing.{write_nodes}
use sdle_shopping_list.External.{Platform}
use sdle_shopping_list.Crdt.AworMap.{ShoppingList}
use sdle_shopping_list.Server.Message.{Msg, replicate_list, handoff}
use sdle_shopping_list.Server.Peer.{
  Network, Peer, send_to, send_to_any, get_replicas, next_available,
}
use sdle_shopping_list.Server.Peer.Requests.{
  Writes, written, searching, Started, refused, stuck, waiting_write, last, quorom, in_flight_with,
  send_writes, send_write_replicate, start_put,
}
use sdle_shopping_list.Server.Peer.Sending.{IsLike, send_to-IsLike}

module _ {T : Type 0} where
  module _ (net : Network) where
    abbrev WritesLike : Peer T → Writes T → Type 0
    WritesLike p (written q) = IsLike p q
    WritesLike p (searching q) = Unit

    writes-WritesLike :
        (p : Peer T) (fuel : ℕ) (msg : Msg) (id : String) (list : ShoppingList) (end : Uuid)
        (replicas : List Uuid) (q : Peer T)
        → IsLike p q
        → WritesLike p (send_writes net fuel msg id list end replicas q)
    unfolding send_writes send_to_any
    writes-WritesLike p fuel msg id list end [] q v = v
    writes-WritesLike p fuel msg id list end (replica ∷ replicas) q v =
        let after = (send_to net q replica msg).0 in
        let like = send_to-IsLike net p q replica msg v in
        go after ((send_to net q replica msg).1) like
          (writes-WritesLike p fuel msg id list end replicas after like)
          (next_available fuel after end end)
          (λ next.
            writes-WritesLike p fuel msg id list end replicas
              (send_to net after next (handoff id list replica)).0
              (send_to-IsLike net p after next (handoff id list replica) like))
      where
        go :
            (after : Peer T) (sent : Bool)
            → IsLike p after
            → WritesLike p (send_writes net fuel msg id list end replicas after)
            → (found : Option (Result Uuid))
            → ((next : Uuid)
                → WritesLike p (
                    send_writes net fuel msg id list end replicas
                      (send_to net after next (handoff id list replica)).0))
            → WritesLike p (
                if sent
                then send_writes net fuel msg id list end replicas after
                else elim found as (λ _. Writes T) [
                  | none ↦ searching after
                  | some r ↦ elim r as (λ _. Writes T) [
                    | err ↦ written after
                    | ok next ↦
                        send_writes net fuel msg id list end replicas
                          (send_to net after next (handoff id list replica)).0
                  ]
                ])
        go after true s a found b = a
        go after false s a none b = tt
        go after false s a (some err) b = s
        go after false s a (some (ok next)) b = b next

module _ (x : Platform) (net : Network) where
  abbrev pub StartsLike : Peer x.Table → String → ShoppingList → Started x.Table → Type 0
  StartsLike p id list (waiting_write q l) =
      IsLike (in_flight_with net p id (quorom write_nodes list)) q
  StartsLike p id list _ = Unit

  -- The start of a put changes neither the table nor the messages to clients, and of the requests
  -- in flight only its own.
  pub start_put-StartsLike :
      (fuel : ℕ) (p : Peer x.Table) (id : String) (list : ShoppingList)
      → StartsLike p id list (start_put x net fuel p id list)
  unfolding start_put send_write_replicate
  start_put-StartsLike fuel p id list = go (get_replicas x p list.id)
    where
      write :
          (o : Writes x.Table)
          → WritesLike net (in_flight_with net p id (quorom write_nodes list)) o
          → StartsLike p id list (elim o as (λ _. Started x.Table) [
            | searching after ↦ stuck after
            | written after ↦ waiting_write after list
          ])
      write (searching after) s = tt
      write (written after) s = s

      replicate :
          (r : Uuid) (rs : List Uuid) (l : Option Uuid)
          → WritesLike net
              (in_flight_with net p id (quorom write_nodes list))
              (elim l as (λ _. Writes x.Table) [
                | none ↦ searching (in_flight_with net p id (quorom write_nodes list))
                | some l ↦
                    send_writes net fuel
                      (replicate_list id list true)
                      id
                      list
                      l
                      (r ∷ rs)
                      (in_flight_with net p id (quorom write_nodes list))
              ])
      replicate r rs none = tt
      replicate r rs (some l) =
          writes-WritesLike net (in_flight_with net p id (quorom write_nodes list)) fuel
            (replicate_list id list true) id list l (r ∷ rs) _ (refl, refl, refl)

      go :
          (l : List Uuid)
          → StartsLike p id list (elim l as (λ _. Started x.Table) [
            | [] ↦ refused p
            | r ∷ rs ↦
                elim (send_write_replicate net fuel p id list (r ∷ rs)) as (λ _. Started x.Table) [
                  | searching after ↦ stuck after
                  | written after ↦ waiting_write after list
                ]
          ])
      go [] = tt
      go (r ∷ rs) = write _ (replicate r rs (last (r ∷ rs)))
