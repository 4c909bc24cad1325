-- ===== src/Tests/Media.antt =====
-- The fan-out of media (crates/sfu/src/lib.rs). A session here is the list of the payload types that
-- were written to it; a drain gives one packet.
use nodemesh.Base.{
  ℕ, ◌≡◌, refl, Bool, true, List, [], ◌∷◌, ◌++◌, Option, none, some, ◌%◌, ◌^◌, ◌==◌, if◌then◌else◌,
}
use nodemesh.Text.{Text, codes}
use nodemesh.Sfu.Room.{Room, RoomRegistry, publisher, subscriber, new, join}
use nodemesh.Sfu.Relay.{
  MediaKind, RelayPacket, video, audio, new_outbound, subscribe, from_media_data,
}
use nodemesh.Sfu.Media.{MediaData, Fabric, write_to, publish, on_media_data, on_keyframe_request}
use nodemesh.Sfu.Media.Fanout.{relayed, IsDelivered, on_media_data_lem}

abbrev Session : Type 0
Session = List ℕ

abbrev mid_of : Session → MediaKind → Option ℕ
mid_of s video = some 7
mid_of s audio = none

abbrev kind_of : Session → ℕ → Option MediaKind
kind_of s mid = if mid == 7 then some video else none

abbrev has_writer : Session → ℕ → Bool
has_writer s mid = true

abbrev drain : Session → Session × List Text
drain s = (s, codes "packet" ∷ [])

abbrev deliver : MediaData → MediaKind → Session → Session × List Text
deliver media = write_to mid_of has_writer drain (λ s mid. some media.pt) (λ s mid pt. pt ∷ s)

abbrev deliver_packet : RelayPacket → List ℕ → MediaKind → Session → Session × List Text
deliver_packet packet bytes =
    write_to mid_of has_writer drain (λ s mid. some 96) (λ s mid pt. bytes ++ s)

abbrev encode : List ℕ → Text
encode bytes = b'=' ∷ bytes

abbrev decode : Text → Option (List ℕ)
decode [] = none
decode (c ∷ s) = some s

-- Session 0 publishes, session 2 watches.
abbrev room : Room
room = record { name = codes "a"; publisher = some 0; subscribers = 2 ∷ [] }

abbrev fabric : Fabric Session Text
fabric = record {
  sessions = [] ∷ [] ∷ [] ∷ [];
  rooms = record { rooms = (codes "a", room) ∷ [] };
  outbound_relays = subscribe new_outbound (codes "a") (codes "mko");
  events = [];
  transmits = [];
}

abbrev frame : MediaData
frame = record {
  mid = 7;
  pt = 96;
  numer = 3000;
  frequency = 90_000;
  network_time = 5;
  bytes = 1 ∷ 2 ∷ [];
}

fan_out-publish :
    (publish encode 1700 kind_of deliver fabric frame video room).sessions
    ≡ [] ∷ [] ∷ (96 ∷ []) ∷ []
unfolding publish write_to
fan_out-publish = refl

on_keyframe_request-fabric :
    on_keyframe_request mid_of kind_of has_writer (λ s mid. mid ∷ s) fabric 2 7
    ≡ some (record fabric { sessions = (7 ∷ []) ∷ [] ∷ [] ∷ [] })
unfolding on_keyframe_request
on_keyframe_request-fabric = refl

on_media_data_lem_example :
    (f' : Fabric Session Text) × (on_media_data encode 1700 kind_of deliver fabric 0 frame
      ≡ some f')
    × IsDelivered (deliver frame video) (2 ∷ []) fabric.sessions f'.sessions
    × (f'.events
        ≡ fabric.events
          ++ relayed fabric.outbound_relays
              (codes "a")
              (from_media_data encode 1700 (codes "a") video 96 (3000 % 2 ^ 32) (1 ∷ 2 ∷ [])))
unfolding nodemesh.Sfu.Room.find_publisher_room
on_media_data_lem_example =
    on_media_data_lem encode 1700 kind_of deliver fabric 0 frame [] video room refl refl refl
