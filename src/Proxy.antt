-- ===== src/Proxy.antt =====
-- `Proxy` of src/proxy.rs: which frames it passes on, and where. The sockets and the polling loop are
-- not modelled.
pub mod Routing
pub mod Tests
use sdle_shopping_list.Common.{
  ℕ, Uuid, leb, ltb, eqb, length, nat_eq, Bool, true, false, ◌&&◌, Option, none, some, List, [],
  ◌∷◌, ◌≡◌, if◌then◌else◌,
}
use sdle_shopping_list.Crdt.AworMap.{ShoppingList}
use sdle_shopping_list.External.{Hashing}
use sdle_shopping_list.HashRing
use sdle_shopping_list.HashRing.{HashRing, vnodes, replicas_count}
use sdle_shopping_list.Server.Message.{Frame, Wire, Msg, get_list, put_list, merge_list}

unfoldable pub new : HashRing
new = HashRing.new vnodes replicas_count

-- `b"READY"`
abbrev pub ready : Frame
ready = 82 ∷ 69 ∷ 65 ∷ 68 ∷ 89 ∷ []

unfoldable pub same_frame : Frame → Frame → Bool
same_frame [] [] = true
same_frame (a ∷ f) (b ∷ g) = eqb a b && same_frame f g
same_frame _ _ = false

-- The list that a client's message is about.
unfoldable pub list_of : Msg → Option ShoppingList
list_of (get_list list) = some list
list_of (put_list list) = some list
list_of (merge_list list) = some list
list_of _ = none

module _ (c : Hashing) (w : Wire) where
  unfoldable pub server_for : HashRing → Frame → Option Uuid
  unfolding list_of
  server_for ring payload = elim (w.from_slice payload) [
    | none ↦ none
    | some msg ↦ elim (list_of msg) [
      | none ↦ none
      | some list ↦ HashRing.get_coordinator c ring list.id
    ]
  ]

  -- The branch of the frontend: the frames that go to the servers' socket, if any do.
  unfoldable pub on_frontend : HashRing → List Frame → Option (List Frame)
  unfolding server_for
  on_frontend ring (client_id ∷ empty ∷ payload ∷ rest) = elim (server_for ring payload) [
    | none ↦ none
    | some server_id ↦ some (w.identity server_id ∷ client_id ∷ empty ∷ payload ∷ rest)
  ]
  on_frontend ring _ = none

  unfoldable pub is_ready : List Frame → Bool
  unfolding same_frame
  is_ready (id ∷ greeting ∷ []) = same_frame greeting ready
  is_ready _ = false

  unfoldable pub register : HashRing → List Frame → HashRing
  register ring [] = ring
  register ring (id ∷ _) = elim (w.parse_identity id) [
    | none ↦ ring
    | some uuid ↦ HashRing.add_node c ring uuid
  ]

  -- `msg.remove(0)` of a message that has a frame.
  unfoldable pub without_first : List Frame → List Frame
  without_first [] = []
  without_first (_ ∷ frames) = frames

  -- The branch of the backend: the ring after it, and the frames that go to the clients' socket.
  unfoldable pub on_backend : HashRing → List Frame → HashRing × Option (List Frame)
  unfolding is_ready register without_first
  on_backend ring msg =
      if is_ready msg then (register ring msg, none) else (ring, some (without_first msg))
