-- ===== src/Tests/Loop.antt =====
-- The event loop of the SFU over browser sessions (crates/sfu/src/lib.rs and session.rs).
use nodemesh.Base.{
  ℕ, ◌≡◌, ◌≢◌, ◌⊎◌, refl, true, false, List, [], ◌∷◌, Option, none, some, get_elem?, map_option,
}
use nodemesh.Text.{Text, codes, text_eq}
use nodemesh.Sfu.Room.{Role, publisher, subscriber}
use nodemesh.Sfu.Relay.{MediaKind, new_outbound}
use nodemesh.Sfu.Command.{SfuCommand, SfuEvent, sdp_offer, send_message}
use nodemesh.Sfu.Media.{on_media_data}
use nodemesh.Tests.Library.{frame, library, library-Drains, packetizing, packetizing-IsDriven}
use nodemesh.Sfu.WebRtc.{Input, Event, Output}
use nodemesh.Sfu.Session.{Session, Drained, drain_outputs, answer_message}
use nodemesh.Sfu.Session.Draining.{driven_drains}
use nodemesh.Sfu.Sessions.{Sessions, KeepsRooms}
use nodemesh.Sfu.Placement.{room_at}
use nodemesh.Sfu.Loop.{on_packet, position, State, Arm, Turned, running, command, turn, deliver}
use nodemesh.Sfu.Loop.Invariant.{IsFabric, IsTurned, start, Reaches, begins, turns, Reaches_lem}
use nodemesh.Sfu.Loop.Separation.{on_packet-isolated}
use nodemesh.Sfu.Loop.Isolation.{on_media_data-isolated}
use nodemesh.Sfu.Loop.Browser.{browser_sessions, browser_sessions-KeepsRooms}

abbrev pub api : Sessions
api = browser_sessions library library-Drains 3

abbrev pub browser : Text → Role → Session library
browser id role = record {
  id = id;
  from_addr = codes "web.mko.amp";
  rtc = [];
  room = some (codes "a");
  role = some role;
  mid_by_kind = record { audio_mid = none; video_mid = some 7 };
  alive = true;
}

abbrev pub offer : Text → Text → SfuCommand
offer id role =
    sdp_offer id (codes "web.mko.amp") (codes "sfu.mko.amp") (codes "{}") (some (codes "a"))
      (some role)

abbrev pub answer : Text → SfuEvent
answer id =
    send_message
      (answer_message library id (codes "web.mko.amp") (codes "sfu.mko.amp") (codes "{}"))

abbrev pub one : State api
unfolding browser_sessions
one = record {
  sessions = browser (codes "r1") publisher ∷ [];
  rooms = record {
    rooms = (codes "a", record { name = codes "a"; publisher = some 0; subscribers = [] }) ∷ [];
  };
  outbound_relays = new_outbound;
  events = answer (codes "r1") ∷ [];
  transmits = (5, 1 ∷ []) ∷ [];
}

abbrev pub two : State api
unfolding browser_sessions
two = record {
  sessions = browser (codes "r1") publisher ∷ browser (codes "r2") subscriber ∷ [];
  rooms = record {
    rooms = (codes "a", record { name = codes "a"; publisher = some 0; subscribers = 1 ∷ [] }) ∷ [];
  };
  outbound_relays = new_outbound;
  events = answer (codes "r1") ∷ answer (codes "r2") ∷ [];
  transmits = (5, 1 ∷ []) ∷ (5, 1 ∷ []) ∷ [];
}

abbrev pub encode : List ℕ → Text
encode bytes = b'=' ∷ bytes

abbrev pub decode : Text → Option (List ℕ)
decode [] = none
decode (c ∷ s) = some s

pub first_offer :
    turn api encode decode 5 (start api) (command (offer (codes "r1") (codes "publisher")) true)
    ≡ some (running one)
unfolding turn browser_sessions nodemesh.Sfu.Session.answer_message text_eq
first_offer = refl

second_offer :
    turn api encode decode 6 one (command (offer (codes "r2") (codes "subscriber")) true)
    ≡ some (running two)
unfolding turn browser_sessions nodemesh.Sfu.Session.answer_message text_eq
second_offer = refl

pub two_reached : Reaches api encode decode two
two_reached =
    turns 6 (command (offer (codes "r2") (codes "subscriber")) true)
      (turns 5 (command (offer (codes "r1") (codes "publisher")) true) begins first_offer)
      second_offer

Reaches_lem_example :
    IsFabric api two
    × ((now : ℕ) (arm : Arm api.Packet)
        → (t : Turned (State api)) × (turn api encode decode now two arm ≡ some t) × IsTurned api t)
Reaches_lem_example =
    Reaches_lem api encode decode (browser_sessions-KeepsRooms library library-Drains 3) two_reached

-- The frame of the publisher takes the last output of the subscriber's session, which then ends.
abbrev forwarded : State api
unfolding browser_sessions
forwarded = record two {
  sessions =
      browser (codes "r1") publisher
      ∷ record (browser (codes "r2") subscriber) { alive = false }
      ∷ [];
}

forwards : on_media_data encode 7 api.kind_of (deliver api 7) two 0 frame ≡ some forwarded
unfolding on_media_data deliver browser_sessions
forwards = refl

on_media_data-isolated_example :
    (get_elem? forwarded.sessions 1 ≡ get_elem? two.sessions 1)
    ⊎ ((kind : MediaKind) × (◌≢◌ {A = ℕ} 1 0)
        × (room_at api.room_of two.sessions 1 ≡ room_at api.room_of two.sessions 0)
        × (get_elem? forwarded.sessions 1
            ≡ map_option (λ s. (deliver api 7 frame kind s).0) (get_elem? two.sessions 1)))
on_media_data-isolated_example =
    on_media_data-isolated api (browser_sessions-KeepsRooms library library-Drains 3) encode decode
      7 0 frame two_reached forwards 1

-- A session without a room, with media that it echoes in two packets, a deadline that is due, and one
-- that is not.
abbrev busy : Session packetizing
busy = record {
  id = codes "r1";
  from_addr = codes "web.mko.amp";
  rtc =
      Output.event (Event.media_data frame)
      ∷ Output.timeout 3
      ∷ Output.transmit 5 (1 ∷ [])
      ∷ Output.timeout 99
      ∷ [];
  room = none;
  role = some publisher;
  mid_by_kind = record { audio_mid = none; video_mid = some 7 };
  alive = true;
}

drain_busy :
    map_option {B = List (ℕ × List ℕ) × Option ℕ}
      (λ (d : Drained packetizing). (d.transmits, d.next_timeout))
      (drain_outputs packetizing 7 4 none busy)
    ≡ some ((5, 1 ∷ 2 ∷ []) ∷ (5, []) ∷ (5, 1 ∷ []) ∷ [], some 99)
unfolding drain_outputs
drain_busy = refl

browser_sessions-KeepsRooms_example :
    KeepsRooms (browser_sessions packetizing (driven_drains packetizing packetizing-IsDriven) 3)
browser_sessions-KeepsRooms_example =
    browser_sessions-KeepsRooms packetizing (driven_drains packetizing packetizing-IsDriven) 3

-- A packet of the publisher brings the frame, and both sessions then have no more output.
abbrev packet_state : State api
unfolding browser_sessions
packet_state = record two {
  sessions =
      record (browser (codes "r1") publisher) { alive = false }
      ∷ record (browser (codes "r2") subscriber) { alive = false }
      ∷ [];
}

abbrev packet : api.Packet
unfolding browser_sessions
packet = 5

packet_came : on_packet api encode decode 7 two packet ≡ some packet_state
unfolding on_packet deliver on_media_data browser_sessions
packet_came = refl

on_packet-isolated_example :
    (packet_state ≡ two)
    ⊎ ((i : ℕ) × (position (λ s. api.accepts s (Input.receive 7 packet)) two.sessions ≡ some i)
        × ((j : ℕ)
            → j ≢ i
            → (get_elem? packet_state.sessions j ≡ get_elem? two.sessions j)
              ⊎ ((k : Text) × (room_at api.room_of two.sessions i ≡ some k)
                  × (room_at api.room_of two.sessions j ≡ some k))))
unfolding browser_sessions
on_packet-isolated_example =
    on_packet-isolated api (browser_sessions-KeepsRooms library library-Drains 3) encode decode 7
      packet two_reached packet_came
