-- ===== src/Server/Sound/Answering.antt =====
-- A sound server stays sound when the wait of a request ends.
use sdle_shopping_list.Common.{
  ℕ, String, nat_eq, string_eq, Bool, true, false, Option, none, some, List, [], ◌∷◌, ◌≡◌, refl,
  subst, All, arith,
}
use sdle_shopping_list.Common.Result.{Result, ok, err}
use sdle_shopping_list.HashMap.{get, remove}
use sdle_shopping_list.Crdt.AworMap
use sdle_shopping_list.Crdt.AworMap.{ShoppingList, AworMap}
use sdle_shopping_list.External.{Platform}
use sdle_shopping_list.Server.Quorum.{QuoromState, merge_lists, merge_rest}
use sdle_shopping_list.Server.Message.{nack, ack_list}
use sdle_shopping_list.Server.Peer.{Network, Peer, send_to_proxy}
use sdle_shopping_list.Server.Peer.Handlers.{Handled, done, failed, blocked, store}
use sdle_shopping_list.Server.Peer.Requests.{end_write, end_read, end_put, end_get, answer}
use sdle_shopping_list.Server.Sound.{IsClosed, IsSound, EndsSound}
use sdle_shopping_list.Server.Sound.Sending.{
  remove-HoldsFlights, get-HoldsFlights, to_proxy-IsSound,
}
use sdle_shopping_list.Server.Sound.Storing.{store-EndsSound}

module _ (P : ShoppingList → Type 0) where
  merge_rest-Holds :
      IsClosed P
      → (first : ShoppingList) (rest : List ShoppingList) → P first
      → All P rest
      → P (record first { list = merge_rest first.list rest })
  unfolding merge_rest
  merge_rest-Holds closed first [] p h = p
  merge_rest-Holds closed first (l ∷ rest) p h =
      merge_rest-Holds closed (record first { list = AworMap.merge first.list l.list }) rest
        (closed first l p h.0) h.1

  -- The merge of the lists of a quorum.
  pub merge_lists-Holds :
      IsClosed P
      → (q : QuoromState) (merged : ShoppingList) → All P q.lists
      → merge_lists q ≡ ok merged
      → P merged
  unfolding merge_lists
  merge_lists-Holds closed q merged = go q.lists
    where
      go :
          (lists : List ShoppingList)
          → All P lists
          → elim lists as (λ _. Result ShoppingList) [
            | [] ↦ err
            | first ∷ rest ↦ ok (record first { list = merge_rest first.list rest })
          ]
            ≡ ok merged
          → P merged
      go [] h e = absurd (ground (arith, e))
      go (first ∷ rest) h e =
          let same : record first { list = merge_rest first.list rest } ≡ merged =
            ground (arith, e) in
          subst P same (merge_rest-Holds closed first rest h.0 h.1)

  module _ (x : Platform) (net : Network) where
    ended-IsSound :
        (p : Peer x.Table) (k : String)
        → IsSound P x p
        → IsSound P x (record p { in_flight = remove p.in_flight k })
    ended-IsSound p k v = record {
      rows = v.rows;
      flights = remove-HoldsFlights P p.in_flight k v.flights;
      sent = v.sent;
      replies = v.replies;
    }

    answer-EndsSound :
        (client_id : List ℕ) (list : ShoppingList) (r : Handled x.Table)
        → EndsSound P x r
        → P list
        → EndsSound P x (answer x net client_id list r)
    unfolding answer
    answer-EndsSound client_id list (done p) v h =
        to_proxy-IsSound P x net p client_id (ack_list "" list) v h
    answer-EndsSound client_id list (failed p) v h = v
    answer-EndsSound client_id list (blocked p) v h = v

    pub end_put-EndsSound :
        (p : Peer x.Table) (client_id : List ℕ) (id : String) (list : ShoppingList) (told : Bool)
        → IsSound P x p
        → P list
        → EndsSound P x (end_put x net p client_id id list told)
    unfolding end_put end_write
    end_put-EndsSound p client_id id list true v h =
        answer-EndsSound client_id list _ (store-EndsSound P x net _ list (ended-IsSound p id v) h)
          h
    end_put-EndsSound p client_id id list false v h =
        to_proxy-IsSound P x net _ client_id (nack "") (ended-IsSound p id v) tt

    -- A read that ends leaves a sound server, and the list it returns has the property.
    record ReadSound (e : Peer x.Table × Result ShoppingList) : Type 0 where
      peer : IsSound P x e.0
      list : (s : ShoppingList) → e.1 ≡ ok s → P s

    read_end :
        IsClosed P
        → (ended : Peer x.Table) (o : Option QuoromState) → IsSound P x ended
        → ((q : QuoromState) → o ≡ some q → All P q.lists)
        → ReadSound (elim o as (λ _. Peer x.Table × Result ShoppingList) [
          | none ↦ (ended, err)
          | some q ↦ (ended, merge_lists q)
        ])
    read_end closed ended none v h = record { peer = v; list = λ s e. absurd (ground (arith, e)) }
    read_end closed ended (some q) v h = record {
      peer = v;
      list = λ s e. merge_lists-Holds closed q s (h q refl) e;
    }

    end_read-ReadSound :
        IsClosed P
        → (p : Peer x.Table) (id : String) (told : Bool) → IsSound P x p
        → ReadSound (end_read net p id told)
    unfolding end_read
    end_read-ReadSound closed p id false v = record {
      peer = ended-IsSound p id v;
      list = λ s e. absurd (ground (arith, e));
    }
    end_read-ReadSound closed p id true v =
        read_end closed _ (get p.in_flight id) (ended-IsSound p id v)
          (λ q e. get-HoldsFlights P p.in_flight id q v.flights e)

    pub end_get-EndsSound :
        IsClosed P
        → (p : Peer x.Table) (client_id : List ℕ) (id : String) (l : ShoppingList) (told : Bool)
        → IsSound P x p
        → P l
        → EndsSound P x (end_get x net p client_id id l told)
    unfolding end_get
    end_get-EndsSound closed p client_id id l told v h =
        go (end_read net p id told).0 (end_read net p id told).1 read.peer read.list
      where
        read : ReadSound (end_read net p id told)
        read = end_read-ReadSound closed p id told v

        go :
            (q : Peer x.Table) (r : Result ShoppingList)
            → IsSound P x q
            → ((s : ShoppingList) → r ≡ ok s → P s)
            → EndsSound P x (elim r as (λ _. Handled x.Table) [
              | err ↦ done (send_to_proxy net q client_id (nack "")).0
              | ok s ↦
                  let merged = record l { list = AworMap.merge l.list s.list } in
                  answer x net client_id merged (store x net q merged)
            ])
        go q err w k = to_proxy-IsSound P x net q client_id (nack "") w tt
        go q (ok s) w k =
            let merged = closed l s h (k s refl) in
            answer-EndsSound client_id _ _ (store-EndsSound P x net q _ w merged) merged
