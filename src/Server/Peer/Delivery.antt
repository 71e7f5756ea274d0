-- ===== src/Server/Peer/Delivery.antt =====
-- What a round of `hinted_handoff` of src/server.rs takes out of a server's table.
pub mod Kept
pub mod Promise
use mathlib.Core.List.{Memᴰ}
use mathlib.Core.List.Memᴰ
use sdle_shopping_list.Common.{
  ℕ, Uuid, String, nat_eq, eqb_iff, ◌==◌, Bool, true, false, Option, none, some, List, [], ◌∷◌,
  ◌++◌, ◌≡◌, refl, ap, ◌∙◌, ◌⊎◌, inl, inr, Bool-cases, arith, if◌then◌else◌,
}
use sdle_shopping_list.Common.Result.{Result, ok, err}
use sdle_shopping_list.HashMap.{get}
use sdle_shopping_list.Crdt.AworMap.{ShoppingList}
use sdle_shopping_list.External.{Platform}
use sdle_shopping_list.Storage.Server.{key_of, delete_shopping_list, get_hinted_handoffs}
use sdle_shopping_list.Server.Message.{Msg, replicate_list}
use sdle_shopping_list.Server.Peer.{
  Network, Peer, Outcome, no_socket, no_frame, not_written, no_data, not_closed, sent_ok, send_to,
  send_attempt, clear_peer_failure, mark_peer_failed,
}
use sdle_shopping_list.Server.Peer.Handlers.{deliver, hinted_handoff}
use sdle_shopping_list.Server.Peer.Sending.{send_to-storage}

Mem-snoc : {A : Type 0} → (xs : List A) (y a : A) → Memᴰ a xs → Memᴰ a (xs ++ y ∷ [])
Mem-snoc xs y a m = Memᴰ.append_left (y ∷ []) m

module _ {T : Type 0} (net : Network) where
  clear-sent : (p : Peer T) (u : Uuid) → (clear_peer_failure p u).sent ≡ p.sent
  unfolding clear_peer_failure
  clear-sent p u = ground arith

  attempt-keeps :
      (p : Peer T) (u : Uuid) (msg : Msg) (o : Outcome) (m : Uuid × Msg)
      → Memᴰ m p.sent
      → Memᴰ m (send_attempt net p u msg o).0.sent
  unfolding send_attempt mark_peer_failed
  attempt-keeps p u msg no_socket m h = h
  attempt-keeps p u msg no_frame m h = h
  attempt-keeps p u msg not_written m h = h
  attempt-keeps p u msg no_data m h = h
  attempt-keeps p u msg not_closed m h = Mem-snoc p.sent (u, msg) m h
  attempt-keeps p u msg sent_ok m h = Mem-snoc p.sent (u, msg) m h

  attempt_sent :
      (p : Peer T) (u : Uuid) (msg : Msg) (o : Outcome)
      → (send_attempt net p u msg o).1 ≡ true
      → Memᴰ (u, msg) (send_attempt net p u msg o).0.sent
  unfolding send_attempt
  attempt_sent p u msg no_socket h = absurd (ground (arith, h))
  attempt_sent p u msg no_frame h = absurd (ground (arith, h))
  attempt_sent p u msg not_written h = absurd (ground (arith, h))
  attempt_sent p u msg no_data h = absurd (ground (arith, h))
  attempt_sent p u msg not_closed h = absurd (ground (arith, h))
  attempt_sent p u msg sent_ok h = Memᴰ.append_right p.sent (Memᴰ.head refl)

  -- What was sent before is still there.
  pub send_to-keeps :
      (p : Peer T) (u : Uuid) (msg : Msg) (m : Uuid × Msg)
      → Memᴰ m p.sent
      → Memᴰ m (send_to net p u msg).0.sent
  unfolding send_to mark_peer_failed
  send_to-keeps p u msg m h = go (get p.membership u) refl
    where
      go : (o : Option String) → get p.membership u ≡ o → Memᴰ m (send_to net p u msg).0.sent
      go none e = rw (e, send_to) h
      go (some a) e = rw (e, send_to) (attempt-keeps _ u msg (net.outcome p.attempts a msg) m h)

  -- A message that is said to be sent is.
  pub send_to_sent :
      (p : Peer T) (u : Uuid) (msg : Msg)
      → (send_to net p u msg).1 ≡ true
      → Memᴰ (u, msg) (send_to net p u msg).0.sent
  unfolding send_to
  send_to_sent p u msg h = go (get p.membership u) refl
    where
      go : (o : Option String) → get p.membership u ≡ o → Memᴰ (u, msg) (send_to net p u msg).0.sent
      go none e = absurd (ground (arith, rw (e, send_to) at h))
      go (some a) e =
          rw (e, send_to)
            (attempt_sent _ u msg (net.outcome p.attempts a msg) (rw (e, send_to) at h))

module _ (x : Platform) where
  -- A list under a key, among those to hand over, that was sent where it belongs.
  abbrev HandedOver : List (Uuid × ShoppingList) → ℕ → Peer x.Table → Type 0
  HandedOver handoffs k q =
      (dest : Uuid) × (list : ShoppingList) × (id : String) × (key_of x list.id ≡ k)
      × Memᴰ (dest, list) handoffs
      × Memᴰ (dest, replicate_list id list true) q.sent

  -- The row under a key is as it was, or it is gone and its list was handed over.
  abbrev pub IsSafe : List (Uuid × ShoppingList) → ℕ → Peer x.Table → Peer x.Table → Type 0
  IsSafe handoffs k p q =
      (x.content q.storage k ≡ x.content p.storage k)
      ⊎ ((x.content q.storage k ≡ none) × HandedOver handoffs k q)

  pub record Rest (handoffs : List (Uuid × ShoppingList)) (p q : Peer x.Table) : Type 0 where
    pub keeps : (m : Uuid × Msg) → Memᴰ m p.sent → Memᴰ m q.sent
    pub safe : (k : ℕ) → IsSafe handoffs k p q

  later-IsSafe :
      (h : Uuid × ShoppingList) (handoffs : List (Uuid × ShoppingList)) (k : ℕ)
      (p after q : Peer x.Table)
      → after.storage ≡ p.storage
      → IsSafe handoffs k after q
      → IsSafe (h ∷ handoffs) k p q
  later-IsSafe h handoffs k p after q e (inl s) = inl (s ∙ ap (λ db. x.content db k) e)
  later-IsSafe h handoffs k p after q e (inr (gone, (dest, list, id, key, m, sent))) =
      inr (gone, (dest, list, id, key, Memᴰ.tail m, sent))

  deleted-IsSafe :
      (dest : Uuid) (list : ShoppingList) (id : String) (handoffs : List (Uuid × ShoppingList))
      (k : ℕ) (p after q : Peer x.Table) (db : x.Table)
      → after.storage ≡ p.storage
      → Memᴰ (dest, replicate_list id list true) q.sent
      → delete_shopping_list x after.storage list.id ≡ ok db
      → IsSafe handoffs k (record after { storage = db }) q
      → IsSafe ((dest, list) ∷ handoffs) k p q
  unfolding delete_shopping_list
  deleted-IsSafe dest list id handoffs k p after q db e m d
        (inr (gone, (dest', list', id', key, m', sent))) =
      inr (gone, (dest', list', id', key, Memᴰ.tail m', sent))
  deleted-IsSafe dest list id handoffs k p after q db e m d (inl s) =
      elim (Bool-cases (key_of x list.id == k)) [
        | inl same ↦ inr (
          s ∙ rw same at (x.content-delete after.storage (key_of x list.id) db k d),
          (dest, list, id, (eqb_iff (key_of x list.id) k).0 same, Memᴰ.head refl, m),
        )
        | inr other ↦ inl (
            s
            ∙ rw other at (x.content-delete after.storage (key_of x list.id) db k d)
            ∙ ap (λ db. x.content db k) e)
      ]

  module _ (net : Network) where
    pub deliver-Rest :
        (handoffs : List (Uuid × ShoppingList)) (ids : List String) (p : Peer x.Table)
        → Rest handoffs p (deliver x net handoffs ids p)
    unfolding deliver
    deliver-Rest [] ids p = record { keeps = λ m h. h; safe = λ k. inl refl }
    deliver-Rest (h ∷ handoffs) [] p = record { keeps = λ m h. h; safe = λ k. inl refl }
    deliver-Rest ((dest, list) ∷ handoffs) (id ∷ ids) p =
        let msg = replicate_list id list true in
        let after = (send_to net p dest msg).0 in
        go (send_to net p dest msg).1 refl (delete_shopping_list x after.storage list.id) refl
          (deliver-Rest handoffs ids after)
          (λ db. deliver-Rest handoffs ids (record after { storage = db }))
      where
        msg : Msg
        msg = replicate_list id list true

        after : Peer x.Table
        after = (send_to net p dest msg).0

        stays : after.storage ≡ p.storage
        stays = send_to-storage net p dest msg

        kept : (q : Peer x.Table) → Rest handoffs after q → Rest ((dest, list) ∷ handoffs) p q
        kept q r = record {
          keeps = λ m h. r.keeps m (send_to-keeps net p dest msg m h);
          safe = λ k. later-IsSafe (dest, list) handoffs k p after q stays (r.safe k);
        }

        dropped :
            (db : x.Table) (q : Peer x.Table)
            → (send_to net p dest msg).1 ≡ true
            → delete_shopping_list x after.storage list.id ≡ ok db
            → Rest handoffs (record after { storage = db }) q
            → Rest ((dest, list) ∷ handoffs) p q
        dropped db q sent d r = record {
          keeps = λ m h. r.keeps m (send_to-keeps net p dest msg m h);
          safe = λ k.
              deleted-IsSafe dest list id handoffs k p after q db stays
                (r.keeps (dest, msg) (send_to_sent net p dest msg sent)) d (r.safe k);
        }

        go :
            (b : Bool)
            → (send_to net p dest msg).1 ≡ b
            → (d : Result x.Table) → delete_shopping_list x after.storage list.id ≡ d
            → Rest handoffs after (deliver x net handoffs ids after)
            → ((db : x.Table)
                → Rest handoffs
                    (record after { storage = db })
                    (deliver x net handoffs ids (record after { storage = db })))
            → Rest ((dest, list) ∷ handoffs) p (
                if b
                then elim d as (λ _. Peer x.Table) [
                  | err ↦ deliver x net handoffs ids after
                  | ok db ↦ deliver x net handoffs ids (record after { storage = db })
                ]
                else deliver x net handoffs ids after)
        go false e d f r s = kept _ r
        go true e err f r s = kept _ r
        go true e (ok db) f r s = dropped db _ e f (s db)

    -- After a round of the hinted handoff whose hinted lists could be read, the row under each key
    -- is as it was, or it is gone and a hinted list with that key was put on the network, to the
    -- server that its hint names and as a write.
    pub hinted_handoff-IsSafe :
        (ids : List String) (p : Peer x.Table) (handoffs : List (Uuid × ShoppingList)) (k : ℕ)
        → get_hinted_handoffs x p.storage ≡ ok handoffs
        → IsSafe handoffs k p (hinted_handoff x net ids p)
    unfolding hinted_handoff
    hinted_handoff-IsSafe ids p handoffs k h =
        rw (h, hinted_handoff) ((deliver-Rest handoffs ids p).safe k)
