-- ===== src/Mesh/Bridge.antt =====
-- What Laravel sends into the mesh: `handle_send` in crates/meshd/src/bridge/server.rs and
-- `route_outbound` in bridge/ws.rs; and what the WebSocket bridge writes to Laravel (`bridge_loop`).
pub mod Requests
pub mod Outbound
pub mod Loop
use nodemesh.Base.{
  Bool, true, false, ◌&&◌, List, [], ◌∷◌, Option, none, some, if◌then◌else◌, and_then, unwrap_or,
  is_some,
}
use nodemesh.Text.{Text, codes}
use nodemesh.Dict.{insert}
use nodemesh.Amp.Address
use nodemesh.Amp.Address.{is_for_node}
use nodemesh.Amp.Message.{AmpMessage, parse, get, from_addr, to_addr, to_wire, is_empty_message}
use nodemesh.Sfu.Command.{SfuCommand, sdp_offer, is_sfu_command}
use nodemesh.Mesh.Peers.{PeerManager, SendError, ok, err, route}
use nodemesh.Mesh.Sfu.{SfuHandle, send}

pub record BridgeState : Type 0 where
  pub peer_manager : PeerManager
  pub sfu_handle : Option SfuHandle
  pub node_name : Text

-- The HTTP responses, with the `x-mesh-id` of those that accept.
pub data Response : Type 0 where
  bad_request : Response
  accepted_sfu : Text → Response
  sfu_error : Response
  accepted : Text → Response
  bad_gateway : SendError → Response

-- The conditions under which a message is for the SFU of this node: its `to` address.
unfoldable pub local_sfu : Text → AmpMessage → Option Text
unfolding is_sfu_command get Address.parse is_for_node
local_sfu node_name msg =
    if is_sfu_command msg
    then and_then (to_addr msg) (λ to.
      and_then (Address.parse to) (λ addr. if is_for_node addr node_name then some to else none))
    else none

abbrev pub offer_to : Text → Text → AmpMessage → SfuCommand
offer_to request_id to msg =
    sdp_offer request_id (unwrap_or (from_addr msg) (codes "unknown")) to msg.body
      (get msg (codes "room")) (get msg (codes "role"))

-- The SFU and the address, where there is an SFU and the message is for it.
abbrev pub sfu_target : BridgeState → AmpMessage → Option (SfuHandle × Text)
sfu_target state msg =
    and_then state.sfu_handle (λ h. and_then (local_sfu state.node_name msg) (λ to. some (h, to)))

unfoldable pub route_to_peer : BridgeState → Text → AmpMessage → Response × BridgeState
unfolding route
route_to_peer state msg_id msg = elim (route state.peer_manager msg) [
  | ok pm ↦ (accepted msg_id, record state { peer_manager = pm })
  | err e ↦ (bad_gateway e, state)
]

unfoldable pub send_to_sfu : BridgeState → Text → Option SfuHandle → Response × BridgeState
send_to_sfu state msg_id none = (sfu_error, state)
send_to_sfu state msg_id (some h) = (accepted_sfu msg_id, record state { sfu_handle = some h })

abbrev pub message_id : AmpMessage → Text
message_id msg = unwrap_or (get msg (codes "id")) (codes "none")

-- `handle_send` behind the parser.
unfoldable pub send_message : BridgeState → AmpMessage → Response × BridgeState
unfolding send route_to_peer send_to_sfu get local_sfu
send_message state msg = elim (sfu_target state msg) [
  | some (h, to) ↦ send_to_sfu state (message_id msg) (send h (offer_to (message_id msg) to msg))
  | none ↦ route_to_peer state (message_id msg) msg
]

unfoldable pub handle_send : BridgeState → Text → Response × BridgeState
unfolding parse send_message
handle_send state body = elim (parse body) [
  | none ↦ (bad_request, state)
  | some msg ↦ send_message state msg
]

abbrev keep_or : BridgeState → Option SfuHandle → BridgeState
keep_or state none = state
keep_or state (some h) = record state { sfu_handle = some h }

-- `route_outbound` of the WebSocket bridge, which only logs what fails.
unfoldable pub route_outbound : BridgeState → AmpMessage → BridgeState
unfolding send route get local_sfu
route_outbound state msg = elim (sfu_target state msg) [
  | some (h, to) ↦
      keep_or state (send h (offer_to (unwrap_or (get msg (codes "id")) (codes "unknown")) to msg))
  | none ↦ elim (route state.peer_manager msg) [
    | ok pm ↦ record state { peer_manager = pm }
    | err e ↦ state
  ]
]

-- What the bridge writes to Laravel for a message of a peer; nothing for an empty one.
unfoldable pub forward_wire : Text → AmpMessage → Option Text
unfolding to_wire insert
forward_wire peer_name msg =
    if is_empty_message msg
    then none
    else some
        (to_wire (record msg { headers = insert (codes "x-mesh-peer") peer_name msg.headers }))
