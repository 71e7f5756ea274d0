-- ===== src/Server/Peer/Sending.antt =====
-- Messages to peers leave the storage, the requests in flight and the messages to clients alone.
use sdle_shopping_list.Common.{Uuid, String, nat_eq, Option, none, some, ◌≡◌, refl, ◌∙◌, arith}
use sdle_shopping_list.HashMap.{get}
use sdle_shopping_list.Server.Message.{Msg}
use sdle_shopping_list.Server.Peer.{
  Network, Outcome, Peer, send_attempt, send_to, clear_peer_failure, mark_peer_failed,
}
use sdle_shopping_list.Server.Peer.Keeps.{Keeps}

module _ {T : Type 0} where
  -- The servers that differ from `p` in what sending to peers changes only.
  abbrev pub IsLike : Peer T → Peer T → Type 0
  IsLike p q = (q.storage ≡ p.storage) × (q.to_proxy ≡ p.to_proxy) × (q.in_flight ≡ p.in_flight)

  module _ (net : Network) where
    attempt-IsLike :
        (p q : Peer T) (u : Uuid) (msg : Msg) (o : Outcome)
        → IsLike p q
        → IsLike p (send_attempt net q u msg o).0
    unfolding send_attempt clear_peer_failure mark_peer_failed
    attempt-IsLike p q u msg o v = ground arith

    -- Such a server stays one when it tries to send a message to a peer.
    pub send_to-IsLike :
        (p q : Peer T) (u : Uuid) (msg : Msg) → IsLike p q → IsLike p (send_to net q u msg).0
    unfolding send_to mark_peer_failed
    send_to-IsLike p q u msg v = go (get q.membership u) refl
      where
        go : (o : Option String) → get q.membership u ≡ o → IsLike p (send_to net q u msg).0
        go none e = rw (e, send_to) v
        go (some a) e = rw (e, send_to) (attempt-IsLike p _ u msg _ v)

    pub send_to-storage :
        (p : Peer T) (u : Uuid) (msg : Msg) → (send_to net p u msg).0.storage ≡ p.storage
    send_to-storage p u msg = (send_to-IsLike p p u msg (refl, refl, refl)).0

    -- The storage stays that of the server `p`, whatever is sent.
    pub keeps_storage : (p : Peer T) → Keeps net (λ q. q.storage ≡ p.storage) (λ msg. Unit)
    keeps_storage p = record {
      sends = λ q u msg e a. send_to-storage q u msg ∙ e;
      gossips = λ table. tt;
    }
