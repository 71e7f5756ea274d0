-- ===== src/Server/Sound/Delivering.antt =====
-- A sound server stays sound while it hands lists over to the servers they are for.
use sdle_shopping_list.Common.{
  Uuid, String, nat_eq, string_eq, Bool, true, false, List, [], ◌∷◌, ◌≡◌, refl, All, if◌then◌else◌,
}
use sdle_shopping_list.Common.Result.{Result, ok, err}
use sdle_shopping_list.Crdt.AworMap.{ShoppingList}
use sdle_shopping_list.External.{Platform}
use sdle_shopping_list.Storage.Server.{delete_shopping_list, get_hinted_handoffs}
use sdle_shopping_list.Server.Message.{replicate_list}
use sdle_shopping_list.Server.Peer.{Network, Peer, send_to}
use sdle_shopping_list.Server.Peer.Handlers.{deliver, hinted_handoff}
use sdle_shopping_list.Server.Sound.{IsSound}
use sdle_shopping_list.Server.Sound.Tables.{delete-Holds, hinted_handoffs-Holds}
use sdle_shopping_list.Server.Sound.Sending.{send_to-IsSound}
use sdle_shopping_list.Server.Sound.Storing.{with_table-IsSound}

module _ (P : ShoppingList → Type 0) where
  module _ (x : Platform) (net : Network) where
    deliver-IsSound :
        (handoffs : List (Uuid × ShoppingList)) (ids : List String) (p : Peer x.Table)
        → IsSound P x p
        → All (λ (r : Uuid × ShoppingList). P r.1) handoffs
        → IsSound P x (deliver x net handoffs ids p)
    unfolding deliver
    deliver-IsSound [] ids p v h = v
    deliver-IsSound (r ∷ handoffs) [] p v h = v
    deliver-IsSound ((dest, list) ∷ handoffs) (id ∷ ids) p v h =
        let after = (send_to net p dest (replicate_list id list true)).0 in
        let sound = send_to-IsSound P x net p dest (replicate_list id list true) v h.0 in
        go after sound ((send_to net p dest (replicate_list id list true)).1)
          (deliver-IsSound handoffs ids after sound h.1)
          (delete_shopping_list x after.storage list.id)
          (λ db e.
            deliver-IsSound handoffs ids (record after { storage = db })
              (with_table-IsSound P x net after db sound
                (delete-Holds P x after.storage db list.id sound.rows e))
              h.1)
      where
        deleted :
            (after : Peer x.Table)
            → IsSound P x (deliver x net handoffs ids after)
            → (r : Result x.Table)
            → ((db : x.Table)
                → r ≡ ok db
                → IsSound P x (deliver x net handoffs ids (record after { storage = db })))
            → IsSound P x (elim r as (λ _. Peer x.Table) [
              | err ↦ deliver x net handoffs ids after
              | ok db ↦ deliver x net handoffs ids (record after { storage = db })
            ])
        deleted after a err b = a
        deleted after a (ok db) b = b db refl

        go :
            (after : Peer x.Table)
            → IsSound P x after
            → (sent : Bool) → IsSound P x (deliver x net handoffs ids after)
            → (r : Result x.Table)
            → ((db : x.Table)
                → r ≡ ok db
                → IsSound P x (deliver x net handoffs ids (record after { storage = db })))
            → IsSound P x (
                if sent
                then elim r as (λ _. Peer x.Table) [
                  | err ↦ deliver x net handoffs ids after
                  | ok db ↦ deliver x net handoffs ids (record after { storage = db })
                ]
                else deliver x net handoffs ids after)
        go after s true a r b = deleted after a r b
        go after s false a r b = a

    pub hinted_handoff-IsSound :
        (ids : List String) (p : Peer x.Table)
        → IsSound P x p
        → IsSound P x (hinted_handoff x net ids p)
    unfolding hinted_handoff
    hinted_handoff-IsSound ids p v = go (get_hinted_handoffs x p.storage) refl
      where
        go :
            (r : Result (List (Uuid × ShoppingList)))
            → get_hinted_handoffs x p.storage ≡ r
            → IsSound P x (hinted_handoff x net ids p)
        go err e = rw (e, hinted_handoff) v
        go (ok handoffs) e =
            rw (e, hinted_handoff)
              (deliver-IsSound handoffs ids p v
                (hinted_handoffs-Holds P x p.storage handoffs v.rows e))
