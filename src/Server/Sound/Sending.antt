-- ===== src/Server/Sound/Sending.antt =====
-- A sound server stays sound when it sends a message whose list has the property.
use sdle_shopping_list.Common.{
  ℕ, ◌+◌, Uuid, String, nat_eq, string_eq, ◌==◌, Bool, true, false, Option, none, some, List, [],
  ◌∷◌, ◌++◌, ◌≡◌, refl, subst, All, All-snoc, arith, if◌then◌else◌, Bool-cases, inl, inr,
}
use sdle_shopping_list.Common.Result.{Result, ok, err}
use sdle_shopping_list.HashMap.{HashMap, get, contains_key, insert, remove}
use sdle_shopping_list.HashRing
use sdle_shopping_list.Crdt.AworMap.{ShoppingList}
use sdle_shopping_list.External.{Platform}
use sdle_shopping_list.Storage.Server.{get_all_rows}
use sdle_shopping_list.Server.Failure
use sdle_shopping_list.Server.Quorum.{QuoromState}
use sdle_shopping_list.Server.Message.{Msg}
use sdle_shopping_list.Server.Peer.{
  ProxyOutcome, unwritten, unsent, passed_on, Network, Peer, Outcome, no_socket, no_frame,
  not_written, no_data, not_closed, sent_ok, send_attempt, send_to, send_to_proxy,
  clear_peer_failure, mark_peer_failed,
}
use sdle_shopping_list.Server.Peer.Handlers.{leave_ring}
use sdle_shopping_list.Server.Sound.{IsSound, Holds, HoldsAll, HoldsFlights}
use sdle_shopping_list.Server.Sound.Tables.{get_all_rows-Holds}
use sdle_shopping_list.Server.Peer.Keeps.{Keeps, leave_lists-keeps}

module _ (P : ShoppingList → Type 0) where
  pub insert-HoldsFlights :
      (m : HashMap String QuoromState) (k : String) (q : QuoromState)
      → HoldsFlights P m
      → All P q.lists
      → HoldsFlights P (insert m k q)
  unfolding insert
  insert-HoldsFlights [] k q h p = (p, tt)
  insert-HoldsFlights ((j, r) ∷ m) k q h p = go (j == k) (insert-HoldsFlights m k q h.1 p)
    where
      go :
          (b : Bool)
          → HoldsFlights P (insert m k q)
          → HoldsFlights P (if b then (j, q) ∷ m else (j, r) ∷ insert m k q)
      go true rest = (p, h.1)
      go false rest = (h.0, rest)

  pub remove-HoldsFlights :
      (m : HashMap String QuoromState) (k : String) → HoldsFlights P m → HoldsFlights P (remove m k)
  unfolding remove
  remove-HoldsFlights [] k h = tt
  remove-HoldsFlights ((j, r) ∷ m) k h = go (j == k) (remove-HoldsFlights m k h.1)
    where
      go :
          (b : Bool)
          → HoldsFlights P (remove m k)
          → HoldsFlights P (if b then remove m k else (j, r) ∷ remove m k)
      go true rest = rest
      go false rest = (h.0, rest)

  pub get-HoldsFlights :
      (m : HashMap String QuoromState) (k : String) (q : QuoromState)
      → HoldsFlights P m
      → get m k ≡ some q
      → All P q.lists
  unfolding get
  get-HoldsFlights [] k q h e = absurd (ground arith)
  get-HoldsFlights ((j, r) ∷ m) k q h e = elim (Bool-cases (j == k)) [
    | inl same ↦
        let eq : r ≡ q = ground (arith, rw same at e) in
        subst (λ (q : QuoromState). All P q.lists) eq h.0
    | inr other ↦ get-HoldsFlights m k q h.1 (rw other at e)
  ]

  module _ (x : Platform) (net : Network) where
    mark-IsSound :
        (p : Peer x.Table) (u : Uuid) → IsSound P x p → IsSound P x (mark_peer_failed net p u)
    unfolding mark_peer_failed
    mark-IsSound p u v = record {
      rows = v.rows;
      flights = v.flights;
      sent = v.sent;
      replies = v.replies;
    }

    clear-IsSound :
        (p : Peer x.Table) (u : Uuid) → IsSound P x p → IsSound P x (clear_peer_failure p u)
    unfolding clear_peer_failure
    clear-IsSound p u v = go (contains_key p.failure.peers u)
      where
        go :
            (b : Bool)
            → IsSound P x
                (if b then record p { failure = Failure.clear_failure p.failure u } else p)
        go true = record { rows = v.rows; flights = v.flights; sent = v.sent; replies = v.replies }
        go false = v

    -- The log of what is sent grows by a message.
    put_on-IsSound :
        (p : Peer x.Table) (log : List (Uuid × Msg)) (u : Uuid) (msg : Msg)
        → IsSound P x p
        → HoldsAll P log
        → Holds P msg
        → IsSound P x (record p { sent = log ++ (u, msg) ∷ [] })
    put_on-IsSound p log u msg v l h = record {
      rows = v.rows;
      flights = v.flights;
      sent = All-snoc (λ m. Holds P m.1) log (u, msg) l h;
      replies = v.replies;
    }

    attempt-IsSound :
        (p : Peer x.Table) (u : Uuid) (msg : Msg) (o : Outcome)
        → IsSound P x p
        → Holds P msg
        → IsSound P x (send_attempt net p u msg o).0
    unfolding send_attempt
    attempt-IsSound p u msg no_socket v h = mark-IsSound p u v
    attempt-IsSound p u msg no_frame v h = mark-IsSound p u v
    attempt-IsSound p u msg not_written v h = v
    attempt-IsSound p u msg no_data v h = mark-IsSound p u v
    attempt-IsSound p u msg not_closed v h =
        put_on-IsSound (clear_peer_failure p u) p.sent u msg (clear-IsSound p u v) v.sent h
    attempt-IsSound p u msg sent_ok v h =
        put_on-IsSound (clear_peer_failure p u) p.sent u msg (clear-IsSound p u v) v.sent h

    tried-IsSound :
        (p : Peer x.Table) → IsSound P x p → IsSound P x (record p { attempts = p.attempts + 1 })
    tried-IsSound p v = record {
      rows = v.rows;
      flights = v.flights;
      sent = v.sent;
      replies = v.replies;
    }

    pub send_to-IsSound :
        (p : Peer x.Table) (u : Uuid) (msg : Msg)
        → IsSound P x p
        → Holds P msg
        → IsSound P x (send_to net p u msg).0
    unfolding send_to
    send_to-IsSound p u msg v h = go (get p.membership u) refl
      where
        go : (o : Option String) → get p.membership u ≡ o → IsSound P x (send_to net p u msg).0
        go none e = rw (e, send_to) (mark-IsSound _ u (tried-IsSound p v))
        go (some a) e = rw (e, send_to) (attempt-IsSound _ u msg _ (tried-IsSound p v) h)

    pub to_proxy-IsSound :
        (p : Peer x.Table) (client_id : List ℕ) (msg : Msg)
        → IsSound P x p
        → Holds P msg
        → IsSound P x (send_to_proxy net p client_id msg).0
    unfolding send_to_proxy
    to_proxy-IsSound p client_id msg v h = go (net.to_client p.attempts client_id msg) refl
      where
        go :
            (o : ProxyOutcome)
            → net.to_client p.attempts client_id msg ≡ o
            → IsSound P x (send_to_proxy net p client_id msg).0
        go unwritten e = rw (e, send_to_proxy) (tried-IsSound p v)
        go unsent e = rw (e, send_to_proxy) (tried-IsSound p v)
        go passed_on e =
            rw (e, send_to_proxy)
              (record {
                rows = v.rows;
                flights = v.flights;
                sent = v.sent;
                replies = All-snoc (λ m. Holds P m.1) p.to_proxy (client_id, msg) v.replies h;
              })

    -- Sending keeps a server sound, if the list of the message has the property.
    pub keeps : Keeps net (IsSound P x) (Holds P)
    keeps = record { sends = send_to-IsSound; gossips = λ table. tt }

    pub leave_ring-IsSound : (p : Peer x.Table) → IsSound P x p → IsSound P x (leave_ring x net p).0
    unfolding leave_ring
    leave_ring-IsSound p v = go (get_all_rows x p.storage) refl
      where
        alone :
            IsSound P x (record p { hashring = HashRing.remove_node x.hashing p.hashring p.uuid })
        alone = record { rows = v.rows; flights = v.flights; sent = v.sent; replies = v.replies }

        go :
            (r : Result (List (ℕ × ShoppingList)))
            → get_all_rows x p.storage ≡ r
            → IsSound P x (leave_ring x net p).0
        go err e = rw (e, leave_ring) alone
        go (ok rows) e =
            rw (e, leave_ring)
              (leave_lists-keeps x keeps _ rows alone
                (get_all_rows-Holds P x p.storage rows v.rows e))
