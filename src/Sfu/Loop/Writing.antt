-- ===== src/Sfu/Loop/Writing.antt =====
-- A write and a drain, and an input, leave a session in its room.
use nodemesh.Base.{ℕ, ◌≡◌, ◌∙◌, inl, inr, List, Option, Bool-cases, Option-cases}
use nodemesh.Sfu.Relay.{MediaKind, RelayPacket}
use nodemesh.Sfu.Media.{MediaData, write_to}
use nodemesh.Sfu.WebRtc.{Input}
use nodemesh.Sfu.Sessions.{Sessions, KeepsRooms}
use nodemesh.Sfu.Loop.{deliver, deliver_packet, drain_written, clock_rate, drive}

module _ (a : Sessions) (keeps : KeepsRooms a) (now : ℕ) where
  write_to-room :
      (pt_of : a.S → ℕ → Option ℕ) (write : a.S → ℕ → ℕ → a.S) (kind : MediaKind) (s : a.S)
      → ((s : a.S) (mid pt : ℕ) → a.room_of (write s mid pt) ≡ a.room_of s)
      → a.room_of (write_to a.mid_of a.has_writer (drain_written a now) pt_of write kind s).0
        ≡ a.room_of s
  unfolding write_to
  write_to-room pt_of write kind s h = elim (Option-cases (a.mid_of s kind)) [
    | inl e ↦ rw (e, write_to)
    | inr (mid, e) ↦ elim (Bool-cases (a.has_writer s mid)) [
      | inr f ↦ rw (e, write_to) (rw f)
      | inl f ↦ elim (Option-cases (pt_of s mid)) [
        | inl g ↦ rw (e, write_to) (rw f (rw (g, write_to)))
        | inr (pt, g) ↦
            rw (e, write_to)
              (rw f (rw (g, write_to) (keeps.drain_room now (write s mid pt) ∙ h s mid pt)))
      ]
    ]
  ]

  pub deliver-room :
      (media : MediaData) (kind : MediaKind) (s : a.S)
      → a.room_of (deliver a now media kind s).0 ≡ a.room_of s
  unfolding deliver
  deliver-room media kind s =
      write_to-room (λ s mid. a.match_params s mid media)
        (λ s mid pt. a.write s mid pt media.network_time media.numer media.frequency media.bytes)
        kind s
        (λ s' mid pt.
          keeps.write_room s' mid pt media.network_time media.numer media.frequency media.bytes)

  pub deliver_packet-room :
      (p : RelayPacket) (bytes : List ℕ) (kind : MediaKind) (s : a.S)
      → a.room_of (deliver_packet a now p bytes kind s).0 ≡ a.room_of s
  unfolding deliver_packet
  deliver_packet-room p bytes kind s =
      write_to-room a.first_payload_type
        (λ s mid pt. a.write s mid pt now p.time (clock_rate kind) bytes) kind s
        (λ s' mid pt. keeps.write_room s' mid pt now p.time (clock_rate kind) bytes)

  pub drive-room :
      (input : Input a.Packet) (s : a.S) → a.room_of (drive a now input s).session ≡ a.room_of s
  drive-room input s =
      keeps.drain_room now (a.handle_input s input) ∙ keeps.handle_input_room s input
