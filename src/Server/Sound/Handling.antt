-- ===== src/Server/Sound/Handling.antt =====
-- A sound server stays sound whatever message it handles.
use sdle_shopping_list.Common.{
  ℕ, Uuid, nat_eq, string_eq, Bool, true, false, Option, none, some, List, [], ◌∷◌, if◌then◌else◌,
}
use sdle_shopping_list.Common.Sets.{contains}
use sdle_shopping_list.Common.Result.{Result, ok, err}
use sdle_shopping_list.HashMap.{keys, insert}
use sdle_shopping_list.HashRing.{prev_node_hash}
use sdle_shopping_list.Crdt.AworMap.{ShoppingList}
use sdle_shopping_list.External.{Platform}
use sdle_shopping_list.Storage.Server.{get_old_data}
use sdle_shopping_list.Server.Message.{
  Msg, MembershipTable, hello, gossip, ping, ack, nack, ack_list, get_list, put_list,
  replicate_list, merge_list, list_response, handoff, leave,
}
use sdle_shopping_list.Server.Peer.{Network, Peer, add_nodes}
use sdle_shopping_list.Server.Peer.Handlers.{
  Handled, failed, blocked, gossip_entries, handle_gossip, handle_incoming,
}
use sdle_shopping_list.Server.Sound.{IsClosed, IsSound, Holds, EndsSound}
use sdle_shopping_list.Server.Sound.Sending.{keeps, leave_ring-IsSound}
use sdle_shopping_list.Server.Peer.Keeps.{hello-keeps}
use sdle_shopping_list.Server.Sound.Storing.{
  ack-IsSound, ack_list-IsSound, replicate-IsSound, handoff-IsSound, merge_list-EndsSound,
}

module _ (P : ShoppingList → Type 0) where
  module _ (x : Platform) (net : Network) where
    entries-EndsSound :
        (p : Peer x.Table) (predecessors : List Uuid) (entries : MembershipTable)
        → IsSound P x p
        → EndsSound P x (gossip_entries x net p predecessors entries)
    unfolding gossip_entries
    entries-EndsSound p predecessors [] v = v
    entries-EndsSound p predecessors ((u, addr) ∷ entries) v =
        let known = record p { membership = insert p.membership u addr } in
        let known_sound : IsSound P x known = record {
          rows = v.rows;
          flights = v.flights;
          sent = v.sent;
          replies = v.replies;
        } in
        ends known (contains predecessors u) (prev_node_hash p.hashring p.uuid)
          (λ h. get_old_data x p.storage p.uuid h) (gossip_entries x net known predecessors entries)
          known_sound (entries-EndsSound known predecessors entries known_sound)
      where
        old_ends :
            (known : Peer x.Table) (rest : Handled x.Table)
            → IsSound P x known
            → EndsSound P x rest
            → (r : Result (List ShoppingList))
            → EndsSound P x (elim r as (λ _. Handled x.Table) [
              | err ↦ failed known
              | ok lists ↦ elim lists as (λ _. Handled x.Table) [
                | [] ↦ rest
                | _ ∷ _ ↦ blocked known
              ]
            ])
        old_ends known rest v w err = v
        old_ends known rest v w (ok []) = w
        old_ends known rest v w (ok (l ∷ lists)) = v

        ends :
            (known : Peer x.Table) (is_predecessor : Bool) (prev : Option ℕ)
            (old : ℕ → Result (List ShoppingList)) (rest : Handled x.Table)
            → IsSound P x known
            → EndsSound P x rest
            → EndsSound P x (
                if is_predecessor
                then elim prev as (λ _. Handled x.Table) [
                  | none ↦ rest
                  | some h ↦ elim (old h) as (λ _. Handled x.Table) [
                    | err ↦ failed known
                    | ok lists ↦ elim lists as (λ _. Handled x.Table) [
                      | [] ↦ rest
                      | _ ∷ _ ↦ blocked known
                    ]
                  ]
                ]
                else rest)
        ends known false prev old rest v w = w
        ends known true none old rest v w = w
        ends known true (some h) old rest v w = old_ends known rest v w (old h)

    -- A message whose list has the property.
    pub handle_incoming-EndsSound :
        IsClosed P
        → (p : Peer x.Table) (identity : Uuid) (msg : Msg) → IsSound P x p
        → Holds P msg
        → EndsSound P x (handle_incoming x net p identity msg)
    unfolding handle_incoming handle_gossip
    handle_incoming-EndsSound closed p identity leave v h = leave_ring-IsSound P x net p v
    handle_incoming-EndsSound closed p identity (gossip table) v h =
        entries-EndsSound (record p { hashring = add_nodes x p.hashring (keys table) }) _ _
          (record { rows = v.rows; flights = v.flights; sent = v.sent; replies = v.replies })
    handle_incoming-EndsSound closed p identity (hello u addr) v h =
        hello-keeps (keeps P x net) p u addr
          (record { rows = v.rows; flights = v.flights; sent = v.sent; replies = v.replies })
    handle_incoming-EndsSound closed p identity (replicate_list id list write) v h =
        replicate-IsSound P x net p identity id list write v h
    handle_incoming-EndsSound closed p identity (ack id) v h = ack-IsSound P x net p id v
    handle_incoming-EndsSound closed p identity (ack_list id list) v h =
        ack_list-IsSound P x net p id list v h
    handle_incoming-EndsSound closed p identity (handoff id list node) v h =
        handoff-IsSound P x net p identity id list node v h
    handle_incoming-EndsSound closed p identity (merge_list list) v h =
        merge_list-EndsSound P x net closed p list v h
    handle_incoming-EndsSound closed p identity (list_response list) v h = v
    handle_incoming-EndsSound closed p identity ping v h = v
    handle_incoming-EndsSound closed p identity (nack id) v h = v
    handle_incoming-EndsSound closed p identity (get_list list) v h = v
    handle_incoming-EndsSound closed p identity (put_list list) v h = v
