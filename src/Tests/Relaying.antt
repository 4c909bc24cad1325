-- ===== src/Tests/Relaying.antt =====
-- A packet of media from node mko to node mmc (crates/meshd/src/main.rs, crates/sfu/src/lib.rs).
use nodemesh.Base.{◌≡◌, refl, arith, true, [], ◌∷◌, ◌++◌, Option, none, some}
use nodemesh.Text.{Text, codes, text_eq}
use nodemesh.Text.Trim.{trim}
use nodemesh.Dict.{lookup}
use nodemesh.Amp.Message.{AmpMessage, parse, to_wire}
use nodemesh.Sfu.Room.{Room}
use nodemesh.Sfu.Relay.{RelayPacket, video, from_media_data}
use nodemesh.Sfu.Command.{relay_data, relay_media}
use nodemesh.Sfu.Media.Fanout.{IsDelivered}
use nodemesh.Sfu.Loop.{State, running, deliver_packet, on_command}
use nodemesh.Mesh.Sfu.{SfuHandle}
use nodemesh.Mesh.Peers
use nodemesh.Mesh.Peers.{PeerManager}
use nodemesh.Mesh.Dispatch.{Dispatcher, dispatch}
use nodemesh.Mesh.Events.{Forwarder, forward_event}
use nodemesh.Mesh.Relaying.{relayed_lem}
use nodemesh.Tests.Loop.{api, two, encode, decode}

-- Packets that differ in their room only, written as the name of the room.
abbrev packet_in : Text → RelayPacket
unfolding from_media_data
packet_in name = from_media_data encode 1_700 name video 96 3_000 (1 ∷ 2 ∷ [])

abbrev pub read_packet : Text → Option RelayPacket
unfolding trim from_media_data
read_packet s = some (packet_in (trim s))

abbrev pub write_packet : RelayPacket → Text
write_packet p = p.room

abbrev pub sender : Forwarder
unfolding Peers.register
sender = record {
  peer_manager = Peers.register Peers.new (codes "mmc") (codes "10.0.0.2") 5;
  posted = [];
  node_name = codes "mko";
}

abbrev pub h : SfuHandle
h = record { running = true; commands = [] }

abbrev pub receiver : Dispatcher
receiver = record {
  sfu_handle = some h;
  ws_sink = none;
  ws_connected = true;
  delivered = [];
  posted = [];
}

abbrev room : Room
room = record { name = codes "a"; publisher = some 0; subscribers = 1 ∷ [] }

relayed_lem_example :
    (sent : AmpMessage) × (received : AmpMessage) × (f' : State api) × ((forward_event write_packet
        sender
        (relay_media (codes "mmc") (packet_in (codes "a")))).peer_manager.sent
      ≡ sender.peer_manager.sent ++ ((0, sent) ∷ []))
    × (parse (to_wire sent) ≡ some received)
    × (dispatch read_packet receiver (codes "mko") received ≡ record receiver {
      sfu_handle = some (record h { commands = relay_data (packet_in (codes "a")) ∷ [] });
    })
    × (on_command api encode decode 7 two (relay_data (packet_in (codes "a"))) true ≡ running f')
    × IsDelivered
        (deliver_packet api 7 (packet_in (codes "a")) (1 ∷ 2 ∷ []) video)
        (1 ∷ [])
        two.sessions
        f'.sessions
unfolding trim lookup text_eq Peers.register from_media_data
    nodemesh.Sfu.Loop.Browser.browser_sessions
relayed_lem_example =
    relayed_lem read_packet write_packet encode decode api sender 0 receiver h two (codes "mmc")
      (codes "mko") (codes "a") room video 1_700 7 96 3_000 (1 ∷ 2 ∷ []) refl refl (λ bytes. refl)
      (refl, omega arith) (refl, omega arith) (_, refl, refl, refl) refl refl refl
