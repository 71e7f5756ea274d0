-- ===== src/Server/Peer/Startup.antt =====
-- How a server of src/server.rs joins a ring, what the loops `listen` and `listen_proxy` make of the
-- frames that they receive, and a round of `failure_detection`. The polling of the sockets and the
-- timers are not modelled.
use sdle_shopping_list.Common.{
  ℕ, ◌+◌, Uuid, String, nat_eq, Bool, false, Option, none, some, List, [], ◌∷◌, ◌++◌, if◌then◌else◌,
}
use sdle_shopping_list.HashMap.{get, keys}
use sdle_shopping_list.External.{Platform}
use sdle_shopping_list.Server.Message.{Msg, Frame, Wire, hello, gossip, ping}
use sdle_shopping_list.Server.Peer.{
  Network, Peer, no_socket, no_frame, not_written, no_data, not_closed, sent_ok,
}
use sdle_shopping_list.Server.Peer.Handlers.{Handled, done, blocked, handle_incoming}
use sdle_shopping_list.Server.Peer.Requests.{Started, unsupported, start_proxy}

-- The message that `join` sends to the seed.
unfoldable pub join_hello : {T : Type 0} → Peer T → Msg
join_hello p = hello p.uuid p.addr

-- One round of the loop of `join`: a frame is missing, or the data of a message is there. What does
-- not parse is passed over.
unfoldable pub join_round : (Frame → Option Msg) → Option Msg → Option Frame → Option Msg
join_round from_slice buf none = buf
join_round from_slice buf (some bytes) = elim (from_slice bytes) [
  | none ↦ buf
  | some msg ↦ some msg
]

-- The loop of `join` over the rounds until the time is up. It goes on when a message has come, and
-- keeps the last one.
unfoldable pub join_loop : (Frame → Option Msg) → Option Msg → List (Option Frame) → Option Msg
unfolding join_round
join_loop from_slice buf [] = buf
join_loop from_slice buf (round ∷ rounds) =
    join_loop from_slice (join_round from_slice buf round) rounds

module _ {T : Type 0} where
  unfoldable pub on_joined : Peer T → Option Msg → Bool → Peer T × Bool
  on_joined p (some (gossip table)) disconnected = (record p { membership = table }, disconnected)
  on_joined p _ disconnected = (p, false)

  -- `join`: whether the hello is sent, the rounds, and whether the socket disconnects.
  unfoldable pub join : Wire → Peer T → Bool → List (Option Frame) → Bool → Peer T × Bool
  unfolding on_joined
  join w p hello_sent rounds disconnected =
      if hello_sent
      then on_joined p (join_loop w.from_slice none rounds) disconnected
      else (p, false)

  -- The loop of `failure_detection` over the failed peers. The guard of the failure table is held
  -- there, and `send_to` locks the same table on every way out but the failure to write the message:
  -- after the ping has gone out, where it does.
  unfoldable pub ping_all : Network → Peer T → List Uuid → Handled T
  ping_all net p [] = done p
  ping_all net p (uuid ∷ uuids) =
      let tried = record p { attempts = p.attempts + 1 } in
      let rest = ping_all net tried uuids in
      elim (get p.membership uuid) [
        | none ↦ blocked tried
        | some peer_addr ↦ elim (net.outcome p.attempts peer_addr ping) [
          | not_written ↦ rest
          | no_socket ↦ blocked tried
          | no_frame ↦ blocked tried
          | no_data ↦ blocked tried
          | not_closed ↦ blocked (record tried { sent = p.sent ++ (uuid, ping) ∷ [] })
          | sent_ok ↦ blocked (record tried { sent = p.sent ++ (uuid, ping) ∷ [] })
        ]
      ]

  unfoldable pub failure_detection : Network → Peer T → Handled T
  unfolding ping_all
  failure_detection net p = ping_all net p (keys p.failure.peers)

module _ (x : Platform) (net : Network) (w : Wire) where
  -- `listen` on the frames of one message: identity, empty frame, data.
  unfoldable pub on_router : Peer x.Table → Frame → Frame → Handled x.Table
  on_router p identity_msg data_msg = elim (w.from_slice data_msg) [
    | none ↦ done p
    | some msg ↦ elim (w.parse_identity identity_msg) [
      | none ↦ done p
      | some sender_uuid ↦ handle_incoming x net p sender_uuid msg
    ]
  ]

  -- `listen_proxy` on the data of one message, up to the wait of its handler.
  unfoldable pub on_dealer : ℕ → Peer x.Table → String → Frame → Started x.Table
  on_dealer fuel p request_id data_msg = elim (w.from_slice data_msg) [
    | none ↦ unsupported p
    | some msg ↦ start_proxy x net fuel p request_id msg
  ]
