-- ===== src/Sfu/Loop.antt =====
-- `sfu_loop`, `process_events` and `drain_and_transmit` in crates/sfu/src/lib.rs, over an interface of
-- sessions. One turn is the arm that `select!` takes, and the removal of dead sessions.
pub mod Kept
pub mod Writing
pub mod Processing
pub mod Invariant
pub mod Isolation
pub mod Order
pub mod Separation
pub mod Browser
pub mod History
pub mod Subscriptions
pub mod Joining
use nodemesh.Base.{
  ℕ, suc, ◌+◌, Bool, true, false, List, [], ◌∷◌, ◌++◌, Option, none, some, if◌then◌else◌, and_then,
  map_option, is_empty, length, get_elem?, set,
}
use nodemesh.Text.{Text}
use nodemesh.Amp.Message.{AmpMessage}
use nodemesh.Sfu.Room.{Role, RoomRegistry, parse_role, join}
use nodemesh.Sfu.Relay.{MediaKind, audio, video, RelayPacket, subscribe, unsubscribe}
use nodemesh.Sfu.Command.{
  SfuCommand, SfuEvent, sdp_offer, relay_subscribe, relay_unsubscribe, relay_data, shutdown,
  send_message,
}
use nodemesh.Sfu.Cleanup.{cleanup}
use nodemesh.Sfu.Media.{
  MediaData, Fabric, write_to, on_media_data, on_keyframe_request, handle_relay_data,
}
use nodemesh.Sfu.Session.{SessionEvent, media_data, keyframe_request}
use nodemesh.Sfu.WebRtc.{Input, timeout, receive}
use nodemesh.Sfu.Sessions.{Sessions, Drain}

-- In milliseconds.
abbrev pub compute_timeout {ℓ} : {S : Type ℓ} → List S → ℕ
compute_timeout sessions = if is_empty sessions then 1_000 else 100

-- 90 kHz for video, 48 kHz for audio.
abbrev pub clock_rate : MediaKind → ℕ
clock_rate video = 90_000
clock_rate audio = 48_000

-- `iter().position(..)`.
unfoldable pub position {ℓ} : {S : Type ℓ} → (S → Bool) → List S → Option ℕ
position test [] = none
position test (s ∷ ss) =
    let rest = position test ss in if test s then some 0 else map_option suc rest

-- The arm that is taken. `listening` tells whether the channel of events is open; a datagram comes
-- with what `Receive::new` makes of it.
pub data Arm (Packet : Type 0) : Type 0 where
  command : SfuCommand → (listening : Bool) → Arm Packet
  commands_closed : Arm Packet
  datagram : Option Packet → Arm Packet
  receive_error : Arm Packet
  tick : Arm Packet

-- The loop goes on, or has ended.
pub data Turned (F : Type 0) : Type 0 where
  running : F → Turned F
  stopped : F → Turned F

-- A session with a room and a role joins.
unfoldable pub join_room :
    RoomRegistry → ℕ → (room : Option Text) → (role : Option Role) → RoomRegistry
unfolding join
join_room rooms idx (some name) (some role) = join rooms name idx role
join_room rooms idx none (some role) = rooms
join_room rooms idx room none = rooms

abbrev pub State : Sessions → Type 0
State a = Fabric a.S a.T

module _ (a : Sessions) (now : ℕ) where
  -- A drain after a write, whose events are dropped.
  abbrev pub drain_written : a.S → a.S × List a.T
  drain_written s = let d = a.drain now s in (d.session, d.transmits)

  unfoldable pub deliver : MediaData → MediaKind → a.S → a.S × List a.T
  unfolding write_to
  deliver media =
      write_to a.mid_of a.has_writer drain_written (λ s mid. a.match_params s mid media)
        (λ s mid pt. a.write s mid pt media.network_time media.numer media.frequency media.bytes)

  unfoldable pub deliver_packet : RelayPacket → List ℕ → MediaKind → a.S → a.S × List a.T
  unfolding write_to
  deliver_packet packet bytes kind =
      write_to a.mid_of a.has_writer drain_written a.first_payload_type
        (λ s mid pt. a.write s mid pt now packet.time (clock_rate kind) bytes) kind

  -- The input and the drain of one session, whose packets are sent.
  abbrev pub drive : Input a.Packet → a.S → Drain a.S a.T
  drive input s = a.drain now (a.handle_input s input)

module _ (a : Sessions) (encode : List ℕ → Text) (decode : Text → Option (List ℕ)) (now : ℕ) where
  -- `none` is a panic.
  unfoldable pub process_event : State a → (source : ℕ) → SessionEvent → Option (State a)
  unfolding on_media_data on_keyframe_request deliver
  process_event f source (media_data media) =
      on_media_data encode now a.kind_of (deliver a now) f source media
  process_event f source (keyframe_request mid kind) =
      on_keyframe_request a.mid_of a.kind_of a.has_writer (λ s m. a.request_keyframe s m kind) f
        source mid

  unfoldable pub process_events : State a → (source : ℕ) → List SessionEvent → Option (State a)
  unfolding process_event
  process_events f source [] = some f
  process_events f source (e ∷ es) =
      and_then (process_event f source e) (λ f'. process_events f' source es)

  abbrev pub transmit : State a → List a.T → State a
  transmit f ts = record f { transmits = f.transmits ++ ts }

  -- The new session is the last one; its answer is sent, it joins its room and it is drained.
  unfoldable pub add_session :
      State a → a.S → AmpMessage → (room : Option Text) → (role : Option Role) → State a
  unfolding join_room
  add_session f session answer room role =
      let drained = a.drain now session in
      record f {
        sessions = f.sessions ++ (drained.session ∷ []);
        events = f.events ++ (send_message answer ∷ []);
        rooms = join_room f.rooms (length f.sessions) room role;
        transmits = f.transmits ++ drained.transmits;
      }

  unfoldable pub on_offer :
      State a
      → (request_id from_addr to_addr sdp : Text) → (room role : Option Text) → (listening : Bool)
      → Turned (State a)
  unfolding parse_role add_session
  on_offer f request_id from_addr to_addr sdp room role listening =
      let parsed_role = and_then role parse_role in
      elim (a.offer now request_id from_addr to_addr sdp room parsed_role) [
        | none ↦ running f
        | some (session, answer) ↦
            if listening
            then running (add_session f session answer room parsed_role)
            else stopped (record f { sessions = f.sessions ++ (session ∷ []) })
      ]

  unfoldable pub on_command : State a → SfuCommand → (listening : Bool) → Turned (State a)
  unfolding on_offer subscribe unsubscribe handle_relay_data deliver_packet
  on_command f (sdp_offer request_id from_addr to_addr sdp room role) listening =
      on_offer f request_id from_addr to_addr sdp room role listening
  on_command f (relay_subscribe room from_node) listening =
      running (record f { outbound_relays = subscribe f.outbound_relays room from_node })
  on_command f (relay_unsubscribe room from_node) listening =
      running (record f { outbound_relays = unsubscribe f.outbound_relays room from_node })
  on_command f (relay_data packet) listening =
      running (handle_relay_data decode (deliver_packet a now) f packet)
  on_command f shutdown listening = stopped f

  -- The session that accepts the packet is driven, and its events are processed.
  unfoldable pub on_packet : State a → a.Packet → Option (State a)
  unfolding position process_events
  on_packet f packet =
      let input : Input a.Packet = receive now packet in
      elim (position (λ s. a.accepts s input) f.sessions) [
        | none ↦ some f
        | some i ↦ elim (get_elem? f.sessions i) [
          | none ↦ none
          | some s ↦
              let d = drive a now input s in
              process_events
                (transmit (record f { sessions = set f.sessions i d.session }) d.transmits) i
                d.events
        ]
      ]

  -- Every session is driven by the time, in order; the events are collected with the session's index.
  unfoldable pub drive_all : ℕ → List a.S → List a.S × List a.T × List (ℕ × List SessionEvent)
  drive_all i [] = ([], [], [])
  drive_all i (s ∷ ss) =
      let d = drive a now (timeout now) s in
      let (rest, transmits, events) = drive_all (i + 1) ss in
      (
        d.session ∷ rest,
        d.transmits ++ transmits,
        if is_empty d.events then events else (i, d.events) ∷ events,
      )

  unfoldable pub process_all : State a → List (ℕ × List SessionEvent) → Option (State a)
  unfolding process_events
  process_all f [] = some f
  process_all f ((source, events) ∷ rest) =
      and_then (process_events f source events) (λ f'. process_all f' rest)

  unfoldable pub on_tick : State a → Option (State a)
  unfolding drive_all process_all
  on_tick f =
      let (sessions, transmits, events) = drive_all 0 f.sessions in
      process_all (transmit (record f { sessions = sessions }) transmits) events

  abbrev with_cleaned : State a → Option (List a.S × RoomRegistry) → Option (Turned (State a))
  with_cleaned f o =
      map_option (λ (sessions, rooms). running (record f { sessions = sessions; rooms = rooms })) o

  -- The loop at the end of a turn, with enough fuel.
  unfoldable pub clean : State a → Option (Turned (State a))
  unfolding cleanup
  clean f = with_cleaned f (cleanup a.is_alive (length f.sessions + 1) 0 f.sessions f.rooms)

  abbrev pub clean_turned : Turned (State a) → Option (Turned (State a))
  clean_turned (running f) = clean f
  clean_turned (stopped f) = some (stopped f)

  -- A datagram that is no packet skips the removal of dead sessions.
  unfoldable pub turn : State a → Arm a.Packet → Option (Turned (State a))
  unfolding on_command on_packet on_tick clean
  turn f (command c listening) = clean_turned (on_command f c listening)
  turn f commands_closed = some (stopped f)
  turn f (datagram none) = some (running f)
  turn f (datagram (some packet)) = and_then (on_packet f packet) clean
  turn f receive_error = clean f
  turn f tick = and_then (on_tick f) clean
