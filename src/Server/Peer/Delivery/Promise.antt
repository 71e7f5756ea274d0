-- ===== src/Server/Peer/Delivery/Promise.antt =====
-- A round of `hinted_handoff` hands every hinted list over, where sending and deleting succeed.
use mathlib.Core.List.{Memᴰ}
use mathlib.Core.List.Memᴰ
use sdle_shopping_list.Common.{
  ℕ, ◌≤◌, length, Uuid, String, nat_eq, eqb_iff, ◌==◌, true, Option, none, some, List, [], ◌∷◌, ◌≡◌,
  ◌≢◌, refl, sym, ◌∙◌, inl, inr, All, subst, arith, if◌then◌else◌,
}
use sdle_shopping_list.Common.Result.{Result, ok, err}
use sdle_shopping_list.HashMap.{get, contains_key}
use sdle_shopping_list.Crdt.AworMap.{ShoppingList}
use sdle_shopping_list.External.{Platform, Row}
use sdle_shopping_list.Storage.Server.{key_of, delete_shopping_list, get_hinted_handoffs}
use sdle_shopping_list.Server.Message.{Msg, replicate_list}
use sdle_shopping_list.Server.Peer.{
  Network, Peer, Outcome, sent_ok, send_to, send_attempt, clear_peer_failure, mark_peer_failed,
}
use sdle_shopping_list.Server.Peer.Handlers.{deliver, hinted_handoff}
use sdle_shopping_list.Server.Peer.Delivery.{IsSafe, Rest, deliver-Rest, send_to_sent}

-- Every attempt to send succeeds.
abbrev pub SendsAll : Network → Type 0
SendsAll net = (n : ℕ) (addr : String) (msg : Msg) → net.outcome n addr msg ≡ sent_ok

module _ {T : Type 0} (net : Network) where
  attempt-membership :
      (p : Peer T) (u : Uuid) (msg : Msg) (o : Outcome)
      → (send_attempt net p u msg o).0.membership ≡ p.membership
  unfolding send_attempt clear_peer_failure mark_peer_failed
  attempt-membership p u msg o = ground arith

  pub send_to-membership :
      (p : Peer T) (u : Uuid) (msg : Msg) → (send_to net p u msg).0.membership ≡ p.membership
  unfolding send_to mark_peer_failed
  send_to-membership p u msg = go (get p.membership u) refl
    where
      go :
          (o : Option String)
          → get p.membership u ≡ o
          → (send_to net p u msg).0.membership ≡ p.membership
      go none e = rw (e, send_to) refl
      go (some a) e = rw (e, send_to) (attempt-membership _ u msg _)

  send_to_succeeds :
      (p : Peer T) (u : Uuid) (msg : Msg)
      → SendsAll net
      → contains_key p.membership u ≡ true
      → (send_to net p u msg).1 ≡ true
  unfolding send_to send_attempt contains_key
  send_to_succeeds p u msg all h = go (get p.membership u) refl
    where
      go : (o : Option String) → get p.membership u ≡ o → (send_to net p u msg).1 ≡ true
      go none e = absurd (ground (arith, h, e))
      go (some a) e = rw (e, send_to, all p.attempts a msg) refl

module _ (x : Platform) (net : Network) where
  -- A row that is gone stays so.
  still_gone :
      (handoffs : List (Uuid × ShoppingList)) (k : ℕ) (p q : Peer x.Table)
      → IsSafe x handoffs k p q
      → x.content p.storage k ≡ none
      → x.content q.storage k ≡ none
  still_gone handoffs k p q (inl same) h = same ∙ h
  still_gone handoffs k p q (inr gone) h = gone.0

  -- The list was put on the network, to the server it is for, and its row is gone.
  abbrev pub IsHandedOver : Uuid → ShoppingList → Peer x.Table → Type 0
  IsHandedOver dest list q =
      (id : String) × Memᴰ (dest, replicate_list id list true) q.sent
      × (x.content q.storage (key_of x list.id) ≡ none)

  -- A list that was sent and whose row was deleted is handed over, whatever comes after.
  gone_here :
      (dest : Uuid) (list : ShoppingList) (id : String) (handoffs : List (Uuid × ShoppingList))
      (k : ℕ) (p q : Peer x.Table) (o : Option (Row x.Bytes))
      → key_of x list.id ≡ k
      → Rest x handoffs p q
      → Memᴰ (dest, replicate_list id list true) p.sent
      → x.content p.storage k ≡ (if k == k then none else o)
      → IsHandedOver dest list q
  gone_here dest list id handoffs k p q o e rest sent h =
      let same : (k == k) ≡ true = (eqb_iff k k).1 refl in
      (
        id,
        rest.keeps (dest, replicate_list id list true) sent,
        rw e (still_gone handoffs k p q (rest.safe k) (rw same at h)),
      )

  deliver-IsHandedOver :
      SendsAll net
      → ((db : x.Table) (k : ℕ) → x.delete db k ≢ err)
      → (handoffs : List (Uuid × ShoppingList)) (ids : List String) (p : Peer x.Table) (dest : Uuid)
        (list : ShoppingList)
      → length handoffs ≤ length ids
      → All (λ (h : Uuid × ShoppingList). contains_key p.membership h.0 ≡ true) handoffs
      → Memᴰ (dest, list) handoffs
      → IsHandedOver dest list (deliver x net handoffs ids p)
  unfolding deliver delete_shopping_list
  deliver-IsHandedOver all del [] ids p dest list n known m = absurd (Memᴰ.not-nil m)
  deliver-IsHandedOver all del (h ∷ handoffs) [] p dest list n known m = absurd (omega arith)
  deliver-IsHandedOver all del ((to, l) ∷ handoffs) (id ∷ ids) p dest list n known m =
      go (delete_shopping_list x after.storage l.id) refl (λ db m'.
        deliver-IsHandedOver all del handoffs ids (record after { storage = db }) dest list
          (omega arith)
          (subst (λ t. All (λ (h : Uuid × ShoppingList). contains_key t h.0 ≡ true) handoffs)
            (sym (send_to-membership net p to msg)) known.1)
          m')
    where
      msg : Msg
      msg = replicate_list id l true

      after : Peer x.Table
      after = (send_to net p to msg).0

      sent : (send_to net p to msg).1 ≡ true
      sent = send_to_succeeds net p to msg all known.0

      here :
          (db : x.Table)
          → delete_shopping_list x after.storage l.id ≡ ok db
          → IsHandedOver to l (deliver x net handoffs ids (record after { storage = db }))
      here db e =
          gone_here to l id handoffs (key_of x l.id) (record after { storage = db }) _ _ refl
            (deliver-Rest x net handoffs ids (record after { storage = db }))
            (send_to_sent net p to msg sent)
            (x.content-delete after.storage (key_of x l.id) db (key_of x l.id) e)

      goes_on :
          (db : x.Table)
          → delete_shopping_list x after.storage l.id ≡ ok db
          → deliver x net ((to, l) ∷ handoffs) (id ∷ ids) p
            ≡ deliver x net handoffs ids (record after { storage = db })
      goes_on db e = rw (sent, e) refl

      go :
          (d : Result x.Table)
          → delete_shopping_list x after.storage l.id ≡ d
          → ((db : x.Table)
              → Memᴰ (dest, list) handoffs
              → IsHandedOver dest list (deliver x net handoffs ids (record after { storage = db })))
          → IsHandedOver dest list (deliver x net ((to, l) ∷ handoffs) (id ∷ ids) p)
      go err e later = absurd (del after.storage (key_of x l.id) e)
      go (ok db) e later = rw (goes_on db e) (elim (Memᴰ.cases_cons m) [
        | inl first ↦
            subst
              (λ h.
                IsHandedOver h.0 h.1 (deliver x net handoffs ids (record after { storage = db })))
              (sym first) (here db e)
        | inr rest ↦ later db rest
      ])

  -- Where every attempt to send and every statement that deletes a row succeed, a round of the
  -- hinted handoff hands over every hinted list that was read: a write of the list is on the
  -- network to the server that its hint names, and no row is left under the key of the list. It
  -- asks for an id for each message, and for every server that a hint names to be in the table of
  -- members.
  pub hinted_handoff-IsHandedOver :
      SendsAll net
      → ((db : x.Table) (k : ℕ) → x.delete db k ≢ err)
      → (ids : List String) (p : Peer x.Table) (handoffs : List (Uuid × ShoppingList)) (dest : Uuid)
        (list : ShoppingList)
      → get_hinted_handoffs x p.storage ≡ ok handoffs
      → length handoffs ≤ length ids
      → All (λ (h : Uuid × ShoppingList). contains_key p.membership h.0 ≡ true) handoffs
      → Memᴰ (dest, list) handoffs
      → IsHandedOver dest list (hinted_handoff x net ids p)
  unfolding hinted_handoff
  hinted_handoff-IsHandedOver all del ids p handoffs dest list h n known m =
      rw (h, hinted_handoff) (deliver-IsHandedOver all del handoffs ids p dest list n known m)
