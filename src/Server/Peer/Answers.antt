-- ===== src/Server/Peer/Answers.antt =====
-- What a client is told of a list that it puts, and what is stored then.
use sdle_shopping_list.Common.{
  ℕ, zero, suc, leb, ltb, not, String, string_eq, nat_eq, Bool, true, false, none, some, List, [],
  ◌∷◌, ◌++◌, ◌≡◌, refl, ap, ◌∙◌, arith, subst, if◌then◌else◌,
}
use sdle_shopping_list.Common.Result.{ok, err}
use sdle_shopping_list.HashMap.{HashMap, get, contains_key}
use sdle_shopping_list.HashMap.Laws.{get-insert, get-remove}
use sdle_shopping_list.HashRing.{write_nodes}
use sdle_shopping_list.External.{Platform}
use sdle_shopping_list.Crdt.AworMap.{ShoppingList}
use sdle_shopping_list.Storage.Server.{write_shopping_list}
use sdle_shopping_list.Server.Quorum.{
  QuoromState, on_ack, take_responder, is_quorom_reached, increment_received,
}
use sdle_shopping_list.Server.Message.{Msg, ack_list, nack}
use sdle_shopping_list.Server.Peer.{
  Network, ProxyOutcome, unwritten, unsent, passed_on, Peer, send_to_proxy,
}
use sdle_shopping_list.Server.Peer.Handlers.{Handled, done, failed, blocked, store, handle_ack}
use sdle_shopping_list.Server.Peer.Waiting.{StartsLike, start_put-StartsLike}
use sdle_shopping_list.Server.Peer.Requests.{
  waiting_write, quorom, in_flight_with, start_put, end_write, end_put, answer,
}

-- The messages to clients behind one more, which is there only if the proxy gets it.
abbrev pub passed : ProxyOutcome → List (List ℕ × Msg) → List ℕ → Msg → List (List ℕ × Msg)
passed unwritten l client_id msg = l
passed unsent l client_id msg = l
passed passed_on l client_id msg = l ++ (client_id, msg) ∷ []

-- The state of a put with `n` answers.
abbrev acked : ℕ → ShoppingList → QuoromState
acked n list = record {
  needed = write_nodes;
  received = n;
  responder = ltb n write_nodes;
  lists = list ∷ [];
}

on_ack-acked : (n : ℕ) (list : ShoppingList) → (on_ack (acked n list)).0 ≡ acked (suc n) list
unfolding on_ack take_responder is_quorom_reached increment_received
on_ack-acked n list = ground arith

module _ {T : Type 0} where
  -- The state after `n` answers `Ack` to the request.
  unfoldable pub after_acks : ℕ → Peer T → String → Peer T
  after_acks zero p id = p
  after_acks (suc n) p id = handle_ack (after_acks n p id) id

  -- Whether the responder of the request was taken, and so told.
  abbrev pub is_told : Peer T → String → Bool
  is_told p id = elim (get p.in_flight id) [ none ↦ false | some q ↦ not q.responder ]

  -- What is seen of the end of a request: whether the handler returns without an error, the table,
  -- the messages to clients, and whether the request is still in flight.
  abbrev pub seen : String → Handled T → Bool × T × List (List ℕ × Msg) × Bool
  seen id (done q) = (true, q.storage, q.to_proxy, contains_key q.in_flight id)
  seen id (failed q) = (false, q.storage, q.to_proxy, contains_key q.in_flight id)
  seen id (blocked q) = (false, q.storage, q.to_proxy, contains_key q.in_flight id)

  -- Answers change the request alone.
  acks_rest :
      (n : ℕ) (p : Peer T) (id : String)
      → ((after_acks n p id).storage ≡ p.storage)
        × ((after_acks n p id).to_proxy ≡ p.to_proxy)
        × ((after_acks n p id).attempts ≡ p.attempts)
  unfolding after_acks handle_ack
  acks_rest zero p id = (refl, refl, refl)
  acks_rest (suc n) p id = ground (arith, acks_rest n p id)

  handle_ack-acked :
      (n : ℕ) (p : Peer T) (id : String) (list : ShoppingList)
      → get p.in_flight id ≡ some (acked n list)
      → get (handle_ack p id).in_flight id ≡ some (acked (suc n) list)
  unfolding handle_ack
  handle_ack-acked n p id list h =
      rw (h, handle_ack)
        (get-insert p.in_flight id ((on_ack (acked n list)).0) id
          ∙ ground (arith, string_eq.beq_iff id id, on_ack-acked n list))

  acks-acked :
      (n : ℕ) (p : Peer T) (id : String) (list : ShoppingList)
      → get p.in_flight id ≡ some (acked 0 list)
      → get (after_acks n p id).in_flight id ≡ some (acked n list)
  unfolding after_acks
  acks-acked zero p id list h = h
  acks-acked (suc n) p id list h =
      handle_ack-acked n (after_acks n p id) id list (acks-acked n p id list h)

  told_enough :
      (n : ℕ) (p : Peer T) (id : String) (list : ShoppingList)
      → get p.in_flight id ≡ some (acked 0 list)
      → is_told (after_acks n p id) id ≡ leb write_nodes n
  told_enough n p id list h = rw (acks-acked n p id list h, is_told) (ground arith)

module _ (x : Platform) (net : Network) where
  -- What a put comes to, given the table, the messages to clients and the attempts so far, and
  -- whether enough replicas answered.
  abbrev pub put_outcome :
      x.Table
      → List (List ℕ × Msg)
      → ℕ
      → List ℕ
      → ShoppingList
      → Bool
      → Bool × x.Table × List (List ℕ × Msg) × Bool
  put_outcome db to_proxy attempts client_id list enough =
      if enough
      then elim (write_shopping_list x db list) [
        | err ↦ (false, db, to_proxy, false)
        | ok db' ↦ (
          true,
          db',
          passed (net.to_client attempts client_id (ack_list "" list)) to_proxy client_id
              (ack_list "" list),
          false,
        )
      ]
      else (
        true,
        db,
        passed (net.to_client attempts client_id (nack "")) to_proxy client_id (nack ""),
        false,
      )

  outcome_eq :
      {a b : x.Table} {l m : List (List ℕ × Msg)} {i j : ℕ} {s t : Bool} (client_id : List ℕ)
      (list : ShoppingList)
      → a ≡ b
      → l ≡ m
      → i ≡ j
      → s ≡ t
      → put_outcome a l i client_id list s ≡ put_outcome b m j client_id list t
  outcome_eq client_id list e f g h = cc

  end_seen :
      (p : Peer x.Table) (client_id : List ℕ) (id : String) (list : ShoppingList) (told : Bool)
      → seen id (end_put x net p client_id id list told)
        ≡ put_outcome p.storage p.to_proxy p.attempts client_id list told
  unfolding end_put end_write answer store send_to_proxy contains_key
  end_seen p client_id id list told =
      ground (arith, get-remove p.in_flight id id, string_eq.beq_iff id id)

  -- When a put has started and waits, and some number of acknowledgements of it come, it ends like
  -- this, with the responder told or not as they left it: with as many of them as a write needs,
  -- the list is written to the table that the server had at the start and the client is answered
  -- with it, or the write fails and the handler returns an error; with fewer, nothing is written
  -- and the client is refused. An answer leaves only if the message to the proxy can be written and
  -- sent. The request is no longer in flight.
  pub put_answered :
      (fuel n : ℕ) (p w : Peer x.Table) (client_id : List ℕ) (id : String) (list : ShoppingList)
      → start_put x net fuel p id list ≡ waiting_write w list
      → seen id
          (end_put x net (after_acks n w id) client_id id list (is_told (after_acks n w id) id))
        ≡ put_outcome p.storage p.to_proxy w.attempts client_id list (leb write_nodes n)
  unfolding in_flight_with quorom
  put_answered fuel n p w client_id id list h =
      let (same_db, same_proxy, flights) =
        subst (StartsLike x net p id list) h (start_put-StartsLike x net fuel p id list) in
      let (db, proxy, tries) = acks_rest n w id in
      end_seen (after_acks n w id) client_id id list (is_told (after_acks n w id) id)
      ∙ outcome_eq client_id list (db ∙ same_db) (proxy ∙ same_proxy) tries (
          told_enough n w id list (
            ap (λ (m : HashMap String QuoromState). get m id) flights
            ∙ get-insert p.in_flight id (quorom write_nodes list) id
            ∙ ground (arith, string_eq.beq_iff id id)))
