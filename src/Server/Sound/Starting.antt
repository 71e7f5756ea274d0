-- ===== src/Server/Sound/Starting.antt =====
-- A server that starts with an empty table is sound, and stays sound while it joins and looks for
-- failures.
use sdle_shopping_list.Common.{
  ℕ, ◌+◌, Uuid, nat_eq, Bool, true, false, Option, none, some, List, [], ◌∷◌, ◌++◌, All-snoc, refl,
  ◌≡◌, arith, String,
}
use sdle_shopping_list.Crdt.AworMap.{ShoppingList}
use sdle_shopping_list.External.{Platform}
use sdle_shopping_list.Server.Message.{
  Msg, Frame, Wire, gossip, ping, hello, ack, nack, ack_list, get_list, put_list, replicate_list,
  merge_list, list_response, handoff, leave,
}
use sdle_shopping_list.Server.Peer.{
  Network, Peer, new as new_peer, Outcome, no_socket, no_frame, not_written, no_data, not_closed,
  sent_ok,
}
use sdle_shopping_list.HashMap.{get, keys}
use sdle_shopping_list.Server.Peer.Startup.{join_loop, on_joined, join, ping_all, failure_detection}
use sdle_shopping_list.Server.Sound.{Holds, IsSound, EndsSound}

module _ (P : ShoppingList → Type 0) (x : Platform) where
  pub new_peer-IsSound :
      (u : Uuid) (addr : String) (storage : x.Table)
      → ((k : ℕ) → x.content storage k ≡ none)
      → IsSound P x (new_peer x u addr storage)
  unfolding new_peer
  new_peer-IsSound u addr storage empty = record {
    rows = λ k row e. absurd (ground (arith, e, empty k));
    flights = tt;
    sent = tt;
    replies = tt;
  }

  joined-IsSound :
      (p : Peer x.Table) (buf : Option Msg) (disconnected : Bool)
      → IsSound P x p
      → IsSound P x (on_joined p buf disconnected).0
  unfolding on_joined
  joined-IsSound p (some (gossip table)) d v = record {
    rows = v.rows;
    flights = v.flights;
    sent = v.sent;
    replies = v.replies;
  }
  joined-IsSound p none d v = v
  joined-IsSound p (some (hello u a)) d v = v
  joined-IsSound p (some ping) d v = v
  joined-IsSound p (some (ack i)) d v = v
  joined-IsSound p (some (nack i)) d v = v
  joined-IsSound p (some (ack_list i l)) d v = v
  joined-IsSound p (some (get_list l)) d v = v
  joined-IsSound p (some (put_list l)) d v = v
  joined-IsSound p (some (replicate_list i l w)) d v = v
  joined-IsSound p (some (merge_list l)) d v = v
  joined-IsSound p (some (list_response l)) d v = v
  joined-IsSound p (some (handoff i l n)) d v = v
  joined-IsSound p (some leave) d v = v

  pub join-IsSound :
      (w : Wire) (p : Peer x.Table) (hello_sent : Bool) (rounds : List (Option Frame))
      (disconnected : Bool)
      → IsSound P x p
      → IsSound P x (join w p hello_sent rounds disconnected).0
  unfolding join
  join-IsSound w p true rounds d v = joined-IsSound p (join_loop w.from_slice none rounds) d v
  join-IsSound w p false rounds d v = v

  module _ (net : Network) where
    ping_all-EndsSound :
        (p : Peer x.Table) (uuids : List Uuid)
        → IsSound P x p
        → EndsSound P x (ping_all net p uuids)
    unfolding ping_all
    ping_all-EndsSound p [] v = v
    ping_all-EndsSound p (u ∷ uuids) v =
        to (get p.membership u) refl
          (ping_all-EndsSound (record p { attempts = p.attempts + 1 }) uuids tried)
      where
        tried : IsSound P x (record p { attempts = p.attempts + 1 })
        tried = record { rows = v.rows; flights = v.flights; sent = v.sent; replies = v.replies }

        pinged :
            IsSound P x (record p { attempts = p.attempts + 1; sent = p.sent ++ (u, ping) ∷ [] })
        pinged = record {
          rows = v.rows;
          flights = v.flights;
          sent = All-snoc (λ m. Holds P m.1) p.sent (u, ping) v.sent tt;
          replies = v.replies;
        }

        on :
            (addr : String) (o : Outcome)
            → get p.membership u ≡ some addr
            → net.outcome p.attempts addr ping ≡ o
            → EndsSound P x (ping_all net (record p { attempts = p.attempts + 1 }) uuids)
            → EndsSound P x (ping_all net p (u ∷ uuids))
        on addr not_written g e rest = rw (g, e, ping_all) rest
        on addr no_socket g e rest = rw (g, e, ping_all) tried
        on addr no_frame g e rest = rw (g, e, ping_all) tried
        on addr no_data g e rest = rw (g, e, ping_all) tried
        on addr not_closed g e rest = rw (g, e, ping_all) pinged
        on addr sent_ok g e rest = rw (g, e, ping_all) pinged

        to :
            (o : Option String)
            → get p.membership u ≡ o
            → EndsSound P x (ping_all net (record p { attempts = p.attempts + 1 }) uuids)
            → EndsSound P x (ping_all net p (u ∷ uuids))
        to none g rest = rw (g, ping_all) tried
        to (some addr) g rest = on addr (net.outcome p.attempts addr ping) g refl rest

    pub failure_detection-EndsSound :
        (p : Peer x.Table) → IsSound P x p → EndsSound P x (failure_detection net p)
    unfolding failure_detection
    failure_detection-EndsSound p v = ping_all-EndsSound p (keys p.failure.peers) v
