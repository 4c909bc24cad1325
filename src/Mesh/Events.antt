-- ===== src/Mesh/Events.antt =====
-- `forward_sfu_events` in crates/meshd/src/main.rs: what the SFU has to say goes to the HTTP callback or
-- to a peer. `packet_to_string` is the JSON text of a `RelayPacket`, empty where the encoder fails.
pub mod Relays
use nodemesh.Base.{List, [], ◌∷◌, ◌++◌}
use nodemesh.Text.{Text, codes}
use nodemesh.Amp.Message.{AmpMessage, new, command, collect}
use nodemesh.Sfu.Relay.{RelayPacket}
use nodemesh.Sfu.Command.{SfuEvent, send_message, request_relay, cancel_relay, relay_media}
use nodemesh.Mesh.Peers.{PeerManager, Result, ok, err, send_to}

pub record Forwarder : Type 0 where
  pub peer_manager : PeerManager
  pub posted : List (Text × AmpMessage)
  pub node_name : Text

-- `format!("sfu.{node}.amp")`.
abbrev pub sfu_address : Text → Text
sfu_address node = codes "sfu." ++ (node ++ codes ".amp")

abbrev pub relay_headers : (name node target room : Text) → List (Text × Text)
relay_headers name node target room =
    (codes "amp", codes "1")
    ∷ (codes "type", codes "request")
    ∷ (codes "command", name)
    ∷ (codes "from", sfu_address node)
    ∷ (codes "to", sfu_address target)
    ∷ (codes "room", room)
    ∷ (codes "from-node", node)
    ∷ []

-- The request for the media of a room, and its cancellation.
unfoldable pub relay_message : (name node target room : Text) → AmpMessage
unfolding command
relay_message name node target room = command (relay_headers name node target room)

abbrev pub packet_headers : (node target : Text) → List (Text × Text)
packet_headers node target =
    (codes "amp", codes "1")
    ∷ (codes "type", codes "stream")
    ∷ (codes "command", codes "relay-data")
    ∷ (codes "from", sfu_address node)
    ∷ (codes "to", sfu_address target)
    ∷ []

unfoldable pub packet_message : (body node target : Text) → AmpMessage
unfolding collect
packet_message body node target = new (collect (packet_headers node target) []) body

-- A send that fails is only logged.
abbrev after_send : Forwarder → Result PeerManager → Forwarder
after_send f (ok pm) = record f { peer_manager = pm }
after_send f (err e) = f

unfoldable pub forward_event : (RelayPacket → Text) → Forwarder → SfuEvent → Forwarder
unfolding relay_message packet_message send_to
forward_event packet_to_string f (send_message msg) = record f {
  posted = f.posted ++ ((codes "sfu", msg) ∷ []);
}
forward_event packet_to_string f (request_relay target room) = after_send f (
    send_to f.peer_manager target (relay_message (codes "relay-subscribe") f.node_name target room))
forward_event packet_to_string f (cancel_relay target room) = after_send f (
    send_to f.peer_manager target
      (relay_message (codes "relay-unsubscribe") f.node_name target room))
forward_event packet_to_string f (relay_media target packet) =
    after_send f
      (send_to f.peer_manager target (packet_message (packet_to_string packet) f.node_name target))
