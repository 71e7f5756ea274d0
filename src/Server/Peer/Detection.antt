-- ===== src/Server/Peer/Detection.antt =====
-- What becomes of a failure that a server has recorded.
use sdle_shopping_list.Common.{
  ℕ, Uuid, String, nat_eq, true, false, Option, none, some, List, [], ◌∷◌, ◌≡◌, ◌≢◌, refl, arith,
}
use sdle_shopping_list.HashMap.{get, insert, keys}
use sdle_shopping_list.Server.Message.{Msg, ping}
use sdle_shopping_list.Server.Failure
use sdle_shopping_list.Server.Peer.{
  Network, Peer, Outcome, no_socket, no_frame, not_written, no_data, not_closed, sent_ok, send_to,
  send_attempt, mark_peer_failed,
}
use sdle_shopping_list.Server.Peer.Handlers.{is_blocked}
use sdle_shopping_list.Server.Peer.Startup.{ping_all, failure_detection}

-- `serde_json` writes a ping.
abbrev pub WritesPings : Network → Type 0
WritesPings net = (n : ℕ) (addr : String) → net.outcome n addr ping ≢ not_written

keys-insert-ne-nil :
    (m : List (Uuid × Failure.PeerFailureInfo)) (u : Uuid) (i : Failure.PeerFailureInfo)
    → keys (insert m u i) ≢ []
unfolding insert
keys-insert-ne-nil [] u i = ground arith
keys-insert-ne-nil ((v, j) ∷ m) u i = ground arith

module _ {T : Type 0} (net : Network) (writes : WritesPings net) where
  ping_blocked :
      (p : Peer T) (u : Uuid) (us : List Uuid) → is_blocked (ping_all net p (u ∷ us)) ≡ true
  unfolding ping_all
  ping_blocked p u us = go (get p.membership u) refl
    where
      go :
          (o : Option String) → get p.membership u ≡ o → is_blocked (ping_all net p (u ∷ us)) ≡ true
      go none e = rw (e, ping_all) refl
      go (some a) e = rw (e, ping_all) (ground (arith, writes p.attempts a))

  blocked_of_keys : (p : Peer T) (us : List Uuid) → us ≢ [] → is_blocked (ping_all net p us) ≡ true
  blocked_of_keys p [] h = absurd (h refl)
  blocked_of_keys p (u ∷ us) h = ping_blocked p u us

  marked_blocks :
      (p : Peer T) (uuid : Uuid)
      → is_blocked (failure_detection net (mark_peer_failed net p uuid)) ≡ true
  unfolding failure_detection mark_peer_failed Failure.mark_failure
  marked_blocks p uuid = blocked_of_keys _ _ (keys-insert-ne-nil p.failure.peers uuid _)

  attempt_blocks :
      (p : Peer T) (uuid : Uuid) (msg : Msg) (o : Outcome)
      → (send_attempt net p uuid msg o).1 ≡ false
      → o ≢ not_written
      → o ≢ not_closed
      → is_blocked (failure_detection net (send_attempt net p uuid msg o).0) ≡ true
  unfolding send_attempt
  attempt_blocks p uuid msg no_socket h a b = marked_blocks p uuid
  attempt_blocks p uuid msg no_frame h a b = marked_blocks p uuid
  attempt_blocks p uuid msg not_written h a b = absurd (a refl)
  attempt_blocks p uuid msg no_data h a b = marked_blocks p uuid
  attempt_blocks p uuid msg not_closed h a b = absurd (b refl)
  attempt_blocks p uuid msg sent_ok h a b = cc

  -- After a message to a server that could not be sent, other than one that serde does not write or
  -- one whose connection does not close, the next round of the failure detection never returns, if
  -- serde writes pings.
  pub failed_send_blocks :
      (p : Peer T) (uuid : Uuid) (msg : Msg)
      → (send_to net p uuid msg).1 ≡ false
      → ((addr : String) → net.outcome p.attempts addr msg ≢ not_written)
      → ((addr : String) → net.outcome p.attempts addr msg ≢ not_closed)
      → is_blocked (failure_detection net (send_to net p uuid msg).0) ≡ true
  unfolding send_to
  failed_send_blocks p uuid msg h a b = go (get p.membership uuid) refl
    where
      go :
          (o : Option String)
          → get p.membership uuid ≡ o
          → is_blocked (failure_detection net (send_to net p uuid msg).0) ≡ true
      go none e = rw (e, send_to) (marked_blocks _ uuid)
      go (some addr) e =
          rw (e, send_to)
            (attempt_blocks _ uuid msg (net.outcome p.attempts addr msg) (rw (e, send_to) at h)
              (a addr) (b addr))
