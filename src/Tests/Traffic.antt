-- ===== src/Tests/Traffic.antt =====
-- The loops of a connection, the dispatcher and the bridge (crates/meshd/src).
use nodemesh.Base.{
  ◌≡◌, ◌≢◌, refl, arith, true, false, List, [], ◌∷◌, ◌++◌, Option, none, some, All, map,
}
use nodemesh.Text.{Text, codes, text_eq}
use nodemesh.Amp.Address
use nodemesh.Amp.Message.{AmpMessage, new, parse, get, wire_body, command_name}
use nodemesh.Amp.Message.Headers.{AreHeaders}
use nodemesh.Amp.Message.Parsed.{parse-AreHeaders}
use nodemesh.Sfu.Relay.{RelayPacket}
use nodemesh.Sfu.Command.{SfuCommand, relay_subscribe, is_sfu_command, parse_command}
use nodemesh.Mesh.Connection.{run_connection}
use nodemesh.Mesh.Connection.Delivery.{
  Item, message, beat, to_arm, messages, IsSendable, AreReceived, received, received_lem,
}
use nodemesh.Mesh.Sfu.{SfuHandle}
use nodemesh.Mesh.Dispatch.{Dispatcher, dispatch}
use nodemesh.Mesh.Dispatch.Destinations.{Dispatched, dispatch-Dispatched}
use nodemesh.Mesh.Peers
use nodemesh.Mesh.Bridge.{BridgeState, handle_send, send_message, forward_wire}
use nodemesh.Mesh.Bridge.Loop.{
  Turn, inbound, frame, text, bridge_loop, written_for, routed, bridge_loop_lem,
}
use nodemesh.Mesh.Bridge.Requests.{
  Answer, IsForSfu, offered, handle_send-Answer, send_message-offer,
}
use nodemesh.Mesh.Bridge.Outbound.{forward_wire_lem}

abbrev hello_text : Text
hello_text = codes "---\ncommand: hello\nto: app.mko.amp\n---\nhello"

abbrev hello : AmpMessage
hello =
    new ((codes "command", codes "hello") ∷ (codes "to", codes "app.mko.amp") ∷ []) (codes "hello")

parse-hello : parse hello_text ≡ some hello
unfolding parse
parse-hello = refl

hello-AreHeaders : AreHeaders hello.headers
hello-AreHeaders = parse-AreHeaders hello_text parse-hello

abbrev items : List Item
items = message hello ∷ beat ∷ message hello ∷ []

items-AreSendable : All IsSendable items
items-AreSendable = ((hello-AreHeaders, refl), (tt, ((hello-AreHeaders, refl), tt)))

received_lem_example :
    ((run_connection (map to_arm items)).is_over ≡ false)
    × ((received items).is_over ≡ false)
    × AreReceived (messages items) (received items).passed_on
received_lem_example = received_lem items items-AreSendable

abbrev no_packet : Text → Option RelayPacket
no_packet s = none

abbrev idle : SfuHandle
idle = record { running = true; commands = [] }

abbrev request : AmpMessage
request =
    new
      ((codes "command", codes "relay-subscribe")
        ∷ (codes "room", codes "lobby")
        ∷ (codes "from-node", codes "mko")
        ∷ (codes "to", codes "sfu.mesh.mmc.amp")
        ∷ [])
      []

abbrev subscription : SfuCommand
subscription = relay_subscribe (codes "lobby") (codes "mko")

abbrev dispatcher : Dispatcher
dispatcher = record {
  sfu_handle = some idle;
  ws_sink = some false;
  ws_connected = true;
  delivered = [];
  posted = [];
}

dispatch-request :
    dispatch no_packet dispatcher (codes "mko") request
    ≡ record dispatcher { sfu_handle = some (record idle { commands = subscription ∷ [] }) }
unfolding dispatch get text_eq
dispatch-request = refl

dispatch-hello :
    dispatch no_packet dispatcher (codes "mko") hello
    ≡ record dispatcher { ws_sink = none; ws_connected = false; posted = (codes "mko", hello) ∷ [] }
unfolding dispatch get text_eq
dispatch-hello = refl

dispatch-Dispatched_example :
    Dispatched no_packet dispatcher
      (codes "mko")
      hello
      (dispatch no_packet dispatcher (codes "mko") hello)
dispatch-Dispatched_example = dispatch-Dispatched no_packet dispatcher (codes "mko") hello

abbrev bridge : BridgeState
bridge = record {
  peer_manager = Peers.register Peers.new (codes "mko") (codes "10.0.0.1") 5;
  sfu_handle = some idle;
  node_name = codes "mmc";
}

handle_send-Answer_example :
    Answer bridge hello_text (handle_send bridge hello_text).0 (handle_send bridge hello_text).1
handle_send-Answer_example = handle_send-Answer bridge hello_text

request-IsForSfu : IsForSfu bridge request idle (codes "sfu.mesh.mmc.amp")
unfolding is_sfu_command get Address.parse text_eq
request-IsForSfu = record {
  has_sfu = refl;
  is_command = refl;
  is_sent_to = refl;
  has_address = (
    record { port = some (codes "sfu"); app = some (codes "mesh"); node = codes "mmc" },
    refl,
    refl,
  );
}

parse_request : parse_command no_packet request ≡ some subscription
unfolding parse_command get text_eq
parse_request = refl

request_no_offer : command_name request ≢ some (codes "sdp-offer")
unfolding get text_eq
request_no_offer e = ground (arith, e)

send_message-offer_example :
    ((send_message bridge request).1.sfu_handle
      ≡ some (record idle {
        commands = idle.commands ++ (offered request (codes "sfu.mesh.mmc.amp") ∷ []);
      }))
    × (offered request (codes "sfu.mesh.mmc.amp") ≢ subscription)
send_message-offer_example =
    send_message-offer no_packet bridge request idle (codes "sfu.mesh.mmc.amp") subscription
      request-IsForSfu refl request_no_offer parse_request

forward_wire_lem_example :
    (wire : Text) × (m' : AmpMessage) × (forward_wire (codes "mko") hello ≡ some wire)
    × (parse wire ≡ some m')
    × (get m' (codes "x-mesh-peer") ≡ some (codes "mko"))
    × ((key : Text) → text_eq (codes "x-mesh-peer") key ≡ false → get m' key ≡ get hello key)
    × (m'.body ≡ wire_body hello.body)
unfolding nodemesh.Text.Trim.trim
forward_wire_lem_example =
    forward_wire_lem (codes "mko") hello refl (omega arith) hello-AreHeaders refl

-- A message of a peer, a text of Laravel, and a heartbeat of a peer.
abbrev turns : List Turn
turns =
    inbound (codes "mko") hello true
    ∷ frame (text hello_text)
    ∷ inbound (codes "mko") (new [] []) true
    ∷ []

bridge_loop_lem_example :
    ((bridge_loop bridge turns).is_over ≡ false)
    × ((bridge_loop bridge turns).written ≡ written_for turns)
    × ((bridge_loop bridge turns).state ≡ routed bridge turns)
bridge_loop_lem_example = bridge_loop_lem bridge turns (refl, (tt, (refl, tt)))
