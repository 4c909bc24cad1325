-- ===== src/Mesh/Relaying.antt =====
-- Media from one node to the next: the SFU's packet goes through `forward_sfu_events` of the one daemon,
-- the wire, `dispatch_inbound` of the other (crates/meshd/src/main.rs), and the other SFU's loop.
use nodemesh.Base.{ℕ, ◌≡◌, refl, ◌∙◌, true, List, [], ◌∷◌, ◌++◌, Option, some}
use nodemesh.Text.{Text, codes, text_eq}
use nodemesh.Dict.{lookup}
use nodemesh.Amp.Message.{AmpMessage, new, parse, to_wire, wire_body, get}
use nodemesh.Amp.Message.Written.{IsName, parse-collected}
use nodemesh.Sfu.Room.{Room}
use nodemesh.Sfu.Relay.{MediaKind, RelayPacket, from_media_data}
use nodemesh.Sfu.Command.{relay_data, relay_media, parse_command}
use nodemesh.Sfu.Media.{handle_relay_data}
use nodemesh.Sfu.Media.Fanout.{IsDelivered, handle_relay_data_lem}
use nodemesh.Sfu.Sessions.{Sessions}
use nodemesh.Sfu.Loop.{State, running, deliver_packet, on_command}
use nodemesh.Mesh.Sfu.{SfuHandle, send}
use nodemesh.Mesh.Peers.{PeerManager, PeerState, ok, send_to, push, is_open}
use nodemesh.Mesh.Dispatch.{Dispatcher, dispatch, sfu_command}
use nodemesh.Mesh.Events.{Forwarder, forward_event, packet_message, packet_headers}
use nodemesh.Mesh.Events.Relays.{packet_headers-IsHeader, wire_body-read}

-- A peer whose channel is open.
abbrev pub HasOpen : PeerManager → Text → ℕ → Type 0
HasOpen m name channel =
    (s : PeerState) × (lookup name m.peers ≡ some s)
    × (s.outbound_tx ≡ some channel)
    × (is_open channel m.open_channels ≡ true)

pub send_to-HasOpen :
    (m : PeerManager) (name : Text) (channel : ℕ) (msg : AmpMessage)
    → HasOpen m name channel
    → send_to m name msg ≡ ok (record m { sent = m.sent ++ ((channel, msg) ∷ []) })
unfolding send_to push
send_to-HasOpen m name channel msg (s, l, c, o) =
    rw (l, send_to) (rw (c, send_to) (rw (o, send_to)))

-- The other daemon gives the message of a packet to its SFU.
dispatch-packet :
    (packet_from_str : Text → Option RelayPacket) (d : Dispatcher) (h : SfuHandle)
    (peer node target body : Text) (packet : RelayPacket)
    → packet_from_str body ≡ some packet
    → d.sfu_handle ≡ some h
    → h.running ≡ true
    → dispatch packet_from_str d peer (new (packet_headers node target) body) ≡ record d {
      sfu_handle = some (record h { commands = h.commands ++ (relay_data packet ∷ []) });
    }
unfolding dispatch sfu_command send text_eq parse_command get
dispatch-packet packet_from_str d h peer node target body packet r e run =
    rw (e, dispatch) (rw (r, dispatch) (rw (run, dispatch) refl))

parse-packet_message :
    (body node target : Text)
    → IsName node
    → IsName target
    → parse (to_wire (packet_message body node target))
      ≡ some (new (packet_headers node target) (wire_body body))
unfolding packet_message text_eq
parse-packet_message body node target n t =
    parse-collected _ _ body (packet_headers-IsHeader node target n t) refl

module _ (packet_from_str : Text → Option RelayPacket) (packet_to_string : RelayPacket → Text)
    (encode : List ℕ → Text) (decode : Text → Option (List ℕ)) (a : Sessions) where
  -- Media from node to node. A packet of a publisher's media, which the SFU of one node has for
  -- another, is sent to that node; the message is read there and goes to the SFU; and the SFU's loop
  -- delivers the bytes that the packet was made of to each session as often as its index stands among
  -- the subscribers of the room of that name, and to no other. The sending node has to have an open
  -- channel to the other, whose SFU runs and has the room; the names of the nodes are trimmed and of one
  -- line; base64 decodes what it encodes, and the JSON parser reads what the JSON printer writes for
  -- the packet, with a line feed behind it or without.
  pub relayed_lem :
      (sender : Forwarder) (channel : ℕ) (receiver : Dispatcher) (h : SfuHandle) (f : State a)
      (target peer name : Text) (room : Room) (kind : MediaKind) (now_ms now pt time : ℕ)
      (bytes : List ℕ)
      → packet_from_str (packet_to_string (from_media_data encode now_ms name kind pt time bytes))
        ≡ some (from_media_data encode now_ms name kind pt time bytes)
      → packet_from_str
          (packet_to_string (from_media_data encode now_ms name kind pt time bytes) ++ codes "\n")
        ≡ packet_from_str (packet_to_string (from_media_data encode now_ms name kind pt time bytes))
      → ((bytes : List ℕ) → decode (encode bytes) ≡ some bytes)
      → IsName sender.node_name
      → IsName target
      → HasOpen sender.peer_manager target channel
      → receiver.sfu_handle ≡ some h
      → h.running ≡ true
      → lookup name f.rooms.rooms ≡ some room
      → let packet = from_media_data encode now_ms name kind pt time bytes in
        (sent : AmpMessage) × (received : AmpMessage) × (f' : State a) × ((forward_event
            packet_to_string sender
            (relay_media target packet)).peer_manager.sent
          ≡ sender.peer_manager.sent ++ ((channel, sent) ∷ []))
        × (parse (to_wire sent) ≡ some received)
        × (dispatch packet_from_str receiver peer received ≡ record receiver {
          sfu_handle = some (record h { commands = h.commands ++ (relay_data packet ∷ []) });
        })
        × (on_command a encode decode now f (relay_data packet) true ≡ running f')
        × IsDelivered
            (deliver_packet a now packet bytes kind)
            room.subscribers
            f.sessions
            f'.sessions
  unfolding forward_event on_command
  relayed_lem sender channel receiver h f target peer name room kind now_ms now pt time bytes reads
        newline base n t channel_open e run r =
      let packet = from_media_data encode now_ms name kind pt time bytes in
      let sent = packet_message (packet_to_string packet) sender.node_name target in
      (
        sent,
        new (packet_headers sender.node_name target) (wire_body (packet_to_string packet)),
        handle_relay_data decode (deliver_packet a now) f packet,
        rw (send_to-HasOpen sender.peer_manager target channel sent channel_open, forward_event)
            refl,
        parse-packet_message (packet_to_string packet) sender.node_name target n t,
        dispatch-packet packet_from_str receiver h peer sender.node_name target
            (wire_body (packet_to_string packet)) packet
            (wire_body-read packet_from_str (packet_to_string packet) newline ∙ reads) e run,
        refl,
        handle_relay_data_lem encode decode (deliver_packet a now) f now_ms name kind pt time bytes
            room base r,
      )
