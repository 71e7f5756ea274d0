-- ===== src/Proxy/Routing.antt =====
-- Where the proxy sends what it receives.
use sdle_shopping_list.Common.{
  Uuid, Option, none, some, List, [], ◌∷◌, ◌≡◌, refl, ap, sym, arith, some_inj, ◌<◌, ◌⊎◌, ◌∙◌, ◌==◌,
  ◌||◌, nat_eq,
}
use sdle_shopping_list.Crdt.AworMap.{ShoppingList}
use sdle_shopping_list.External.{Hashing}
use sdle_shopping_list.HashRing
use sdle_shopping_list.Common.Sets.{contains}
use sdle_shopping_list.HashRing.{HashRing, get_coordinator, get_all_servers}
use sdle_shopping_list.HashRing.Members.{add_node_members}
use sdle_shopping_list.HashRing.Placement.{IsValid, Apart}
use sdle_shopping_list.HashRing.Stability.{add_node_moves}
use sdle_shopping_list.Server.Message.{Frame, Wire, Msg}
use sdle_shopping_list.Proxy.{
  list_of, server_for, on_frontend, on_backend, is_ready, without_first, register, ready,
  same_frame,
}

module _ (c : Hashing) (w : Wire) where
  -- A client message about a list that the proxy passes on goes to the coordinator of that list on
  -- its ring, with the frames unchanged behind the identity of the server; the same frames from the
  -- server go back without that identity.
  pub on_frontend_lem :
      (ring : HashRing) (client_id empty payload : Frame) (rest : List Frame) (msg : Msg)
      (list : ShoppingList) (out : List Frame)
      → w.from_slice payload ≡ some msg
      → list_of msg ≡ some list
      → on_frontend c w ring (client_id ∷ empty ∷ payload ∷ rest) ≡ some out
      → (server : Uuid) × (get_coordinator c ring list.id ≡ some server)
        × (out ≡ w.identity server ∷ client_id ∷ empty ∷ payload ∷ rest)
        × (on_backend c w ring out ≡ (ring, some (client_id ∷ empty ∷ payload ∷ rest)))
  unfolding on_frontend server_for on_backend is_ready without_first
  on_frontend_lem ring client_id empty payload rest msg list out p l h =
      found (get_coordinator c ring list.id) refl
    where
      found :
          (o : Option Uuid)
          → get_coordinator c ring list.id ≡ o
          → (server : Uuid) × (get_coordinator c ring list.id ≡ some server)
            × (out ≡ w.identity server ∷ client_id ∷ empty ∷ payload ∷ rest)
            × (on_backend c w ring out ≡ (ring, some (client_id ∷ empty ∷ payload ∷ rest)))
      found none e = absurd (ground (arith, rw (p, l, e, on_frontend, server_for) at h))
      found (some server) e =
          let same = sym (some_inj (rw (p, l, e, on_frontend, server_for) at h)) in
          (server, e, same, ap (on_backend c w ring) same)

  registered :
      (ring : HashRing) (server : Uuid) (frames : List Frame)
      → register c w ring (w.identity server ∷ frames) ≡ HashRing.add_node c ring server
  unfolding register
  registered ring server frames = rw (w.parse_identity-identity server, register) refl

  -- On a valid ring with at least one virtual node and one replica, where the places of the
  -- greeting server are those of no other one, the greeting is passed on to no client, the servers
  -- of the ring are then those of before and the greeting one, and that server becomes the
  -- coordinator of a list or leaves the coordinator of that list as it was.
  pub on_backend-ready :
      (ring : HashRing) (server u list_id : Uuid)
      → 0 < ring.virtual_nodes
      → 0 < ring.replicas
      → IsValid c ring
      → Apart c server ring.virtual_nodes ring.ring
      → ((on_backend c w ring (w.identity server ∷ ready ∷ [])).1 ≡ none)
        × (contains (get_all_servers (on_backend c w ring (w.identity server ∷ ready ∷ [])).0) u
            ≡ (server == u || contains (get_all_servers ring) u))
        × ((get_coordinator c (on_backend c w ring (w.identity server ∷ ready ∷ [])).0 list_id
              ≡ get_coordinator c ring list_id)
            ⊎ (get_coordinator c (on_backend c w ring (w.identity server ∷ ready ∷ [])).0 list_id
                ≡ some server))
  unfolding on_backend is_ready same_frame
  on_backend-ready ring server u list_id v h valid apart = (
    refl,
    ap (λ (r : HashRing). contains (get_all_servers r) u) (registered ring server (ready ∷ []))
        ∙ add_node_members c ring server u v valid apart,
    rw (registered ring server (ready ∷ [])) (add_node_moves c ring server list_id h),
  )
