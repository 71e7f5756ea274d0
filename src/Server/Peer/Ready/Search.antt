-- ===== src/Server/Peer/Ready/Search.antt =====
-- A server that has the address of all servers of its ring finds another node at once: a request does
-- not search for ever.
use sdle_shopping_list.Common.{
  ℕ, suc, Uuid, All, ap, eqb_iff, String, nat_eq, string_eq, true, false, Option, none, some, List,
  [], ◌∷◌, ◌≡◌, ◌≢◌, refl, sym, ◌∙◌, arith, Bool, if◌then◌else◌,
}
use sdle_shopping_list.Common.Sets.{contains, contains-collect}
use sdle_shopping_list.Common.Result.{Result, ok, err}
use sdle_shopping_list.HashMap.{contains_key}
use sdle_shopping_list.BTreeMap.{BTreeMap, values}
use sdle_shopping_list.HashRing.{next_node, get_all_servers}
use sdle_shopping_list.HashRing.Neighbours.{next_node_found}
use sdle_shopping_list.Crdt.AworMap.{ShoppingList}
use sdle_shopping_list.External.{Platform}
use sdle_shopping_list.Storage.Server.{get_shopping_list}
use sdle_shopping_list.Server.Failure.Available.{is_available_lem}
use sdle_shopping_list.Server.Message.{
  Msg, MembershipTable, hello, gossip, ping, ack, nack, ack_list, get_list, put_list,
  replicate_list, merge_list, list_response, handoff, leave,
}
use sdle_shopping_list.Server.Peer.{
  Network, Peer, send_to, send_to_any, is_peer_available, next_available, get_replicas,
}
use sdle_shopping_list.Server.Peer.Requests.{
  Writes, written, searching, is_searching, is_stuck, Started, refused, waiting_write, waiting_read,
  stuck, last, in_flight_with, send_writes, send_write_replicate, start_put, start_proxy,
}
use sdle_shopping_list.Server.Peer.Ready.{IsReady, send_to-IsReady}

-- What holds of the servers of all entries holds of each server of the ring.
servers-All :
    (ring : BTreeMap Uuid) (m : MembershipTable) (u : Uuid)
    → All (λ (e : ℕ × Uuid). contains_key m e.1 ≡ true) ring
    → contains (values ring) u ≡ true
    → contains_key m u ≡ true
unfolding contains values
servers-All [] m u a c = absurd (ground arith)
servers-All ((k, w) ∷ ring) m u a c =
    ground (arith, eqb_iff w u, servers-All ring m u a.1, a.0, ap (contains_key m))

last_found : (r : Uuid) (rs : List Uuid) → last (r ∷ rs) ≢ none
unfolding last
last_found r rs = go (last rs)
  where
    go : (o : Option Uuid) → elim o as (λ _. Option Uuid) [ none ↦ some r | some v ↦ some v ] ≢ none
    go none = ground arith
    go (some v) = ground arith

module _ {T : Type 0} (net : Network) where
  -- One round of the search is enough.
  next_available-returns :
      (fuel : ℕ) (p : Peer T) (start current : Uuid)
      → IsReady p
      → next_available (suc fuel) p start current ≢ none
  unfolding next_available is_peer_available
  next_available-returns fuel p start current v = go (next_node p.hashring current) refl
    where
      go :
          (o : Option Uuid)
          → next_node p.hashring current ≡ o
          → next_available (suc fuel) p start current ≢ none
      go none e = rw (e, next_available) (ground arith)
      go (some next) e =
          let there = (next_node_found p.hashring current next e).1 in
          rw
            (
              e,
              next_available,
              is_peer_available,
              servers-All p.hashring.ring p.membership next v.members (
                  unfold get_all_servers in
                  sym (contains-collect (values p.hashring.ring) next) ∙ there),
              is_available_lem p.failure next v.failures,
            )
            (ground arith)

  -- The rest of the loop, once an attempt has ended.
  round_returns :
      (fuel : ℕ) (id : String) (list : ShoppingList) (final replica : Uuid)
      (rest : Peer T → Writes T)
      → ((q : Peer T) → IsReady q → is_searching (rest q) ≡ false)
      → (sent : Bool) (after : Peer T) → IsReady after
      → is_searching (
          if sent
          then rest after
          else elim (next_available (suc fuel) after final final) as (λ _. Writes T) [
            | none ↦ searching after
            | some err ↦ written after
            | some (ok next) ↦ rest (send_to net after next (handoff id list replica)).0
          ])
        ≡ false
  round_returns fuel id list final replica rest h true after v = h after v
  round_returns fuel id list final replica rest h false after v =
      found (next_available (suc fuel) after final final)
        (next_available-returns fuel after final final v)
    where
      found :
          (o : Option (Result Uuid))
          → o ≢ none
          → is_searching (elim o as (λ _. Writes T) [
            | none ↦ searching after
            | some err ↦ written after
            | some (ok next) ↦ rest (send_to net after next (handoff id list replica)).0
          ])
            ≡ false
      found none k = absurd (k refl)
      found (some err) k = ground arith
      found (some (ok next)) k = h _ (send_to-IsReady net after next (handoff id list replica) v)

  send_writes-returns :
      (fuel : ℕ) (msg : Msg) (id : String) (list : ShoppingList) (final : Uuid)
      (replicas : List Uuid) (p : Peer T)
      → IsReady p
      → is_searching (send_writes net (suc fuel) msg id list final replicas p) ≡ false
  unfolding send_writes send_to_any
  send_writes-returns fuel msg id list final [] p v = ground arith
  send_writes-returns fuel msg id list final (replica ∷ replicas) p v =
      round_returns fuel id list final replica
        (send_writes net (suc fuel) msg id list final replicas)
        (send_writes-returns fuel msg id list final replicas) _ _
        (send_to-IsReady net p replica msg v)

  send_write_replicate-returns :
      (fuel : ℕ) (p : Peer T) (id : String) (list : ShoppingList) (r : Uuid) (rs : List Uuid)
      → IsReady p
      → is_searching (send_write_replicate net (suc fuel) p id list (r ∷ rs)) ≡ false
  unfolding send_write_replicate in_flight_with
  send_write_replicate-returns fuel p id list r rs v = go (last (r ∷ rs)) refl
    where
      go :
          (o : Option Uuid)
          → last (r ∷ rs) ≡ o
          → is_searching (send_write_replicate net (suc fuel) p id list (r ∷ rs)) ≡ false
      go none e = absurd (last_found r rs e)
      go (some l) e =
          rw (e, send_write_replicate)
            (send_writes-returns fuel _ id list l (r ∷ rs) _
              (record { failures = v.failures; members = v.members }))

module _ (x : Platform) (net : Network) where
  start_put-returns :
      (fuel : ℕ) (p : Peer x.Table) (id : String) (list : ShoppingList)
      → IsReady p
      → is_stuck (start_put x net (suc fuel) p id list) ≡ false
  unfolding start_put
  start_put-returns fuel p id list v = go (get_replicas x p list.id)
    where
      wait :
          (o : Writes x.Table)
          → is_searching o ≡ false
          → is_stuck (elim o as (λ _. Started x.Table) [
            | searching after ↦ stuck after
            | written after ↦ waiting_write after list
          ])
            ≡ false
      wait (searching after) h = absurd (ground (arith, h))
      wait (written after) h = refl

      go :
          (l : List Uuid)
          → is_stuck (elim l as (λ _. Started x.Table) [
            | [] ↦ refused p
            | r ∷ rs ↦
                elim (send_write_replicate net (suc fuel) p id list (r ∷ rs))
                  as (λ _. Started x.Table) [
                    | searching after ↦ stuck after
                    | written after ↦ waiting_write after list
                  ]
          ])
            ≡ false
      go [] = ground arith
      go (r ∷ rs) = wait _ (send_write_replicate-returns net fuel p id list r rs v)

  -- Whatever a client asks, if the server has the address of every server of its ring and every
  -- record of its failure table says failed, the handler comes to its wait or its end: each search
  -- for another node ends within one round.
  pub start_proxy-returns :
      (fuel : ℕ) (p : Peer x.Table) (id : String) (msg : Msg)
      → IsReady p
      → is_stuck (start_proxy x net (suc fuel) p id msg) ≡ false
  unfolding start_proxy
  start_proxy-returns fuel p id (get_list list) v = go (get_shopping_list x p.storage list.id) refl
    where
      read :
          (rs : List Uuid) (l : ShoppingList) (q : Uuid → List Uuid → Peer x.Table)
          → is_stuck (elim rs as (λ _. Started x.Table) [
            | [] ↦ refused p
            | r ∷ rs ↦ waiting_read (q r rs) l
          ])
            ≡ false
      read [] l q = ground arith
      read (r ∷ rs) l q = ground arith

      go :
          (r : Result (Option ShoppingList))
          → get_shopping_list x p.storage list.id ≡ r
          → is_stuck (start_proxy x net (suc fuel) p id (get_list list)) ≡ false
      go err e = rw (e, start_proxy) (ground arith)
      go (ok none) e = rw (e, start_proxy) (start_put-returns fuel p id list v)
      go (ok (some l)) e = rw (e, start_proxy) (read (get_replicas x p list.id) l _)
  start_proxy-returns fuel p id (put_list list) v = start_put-returns fuel p id list v
  start_proxy-returns fuel p id (hello u a) v = ground arith
  start_proxy-returns fuel p id (gossip t) v = ground arith
  start_proxy-returns fuel p id ping v = ground arith
  start_proxy-returns fuel p id (ack i) v = ground arith
  start_proxy-returns fuel p id (nack i) v = ground arith
  start_proxy-returns fuel p id (ack_list i l) v = ground arith
  start_proxy-returns fuel p id (replicate_list i l w) v = ground arith
  start_proxy-returns fuel p id (merge_list l) v = ground arith
  start_proxy-returns fuel p id (list_response l) v = ground arith
  start_proxy-returns fuel p id (handoff i l n) v = ground arith
  start_proxy-returns fuel p id leave v = ground arith
