-- ===== src/Sfu/Sessions.antt =====
-- What the event loop of the SFU uses of its sessions: an interface that the loop takes, and that the
-- sessions over the WebRTC library fill (Sfu/Loop/Browser.antt).
use nodemesh.Base.{ℕ, Bool, List, Option, ◌≡◌, some}
use nodemesh.Text.{Text}
use nodemesh.Amp.Message.{AmpMessage}
use nodemesh.Sfu.Room.{Role}
use nodemesh.Sfu.Relay.{MediaKind}
use nodemesh.Sfu.Media.{MediaData}
use nodemesh.Sfu.Session.{SessionEvent}
use nodemesh.Sfu.WebRtc.{Input}

pub record Drain (S T : Type 0) : Type 0 where
  pub session : S
  pub transmits : List T
  pub events : List SessionEvent

pub record Sessions : Type 1 where
  -- A session, a packet to send, and a packet that came.
  pub S : Type 0
  pub T : Type 0
  pub Packet : Type 0
  -- `handle_sdp_offer`, `none` where it fails.
  pub offer :
      (now : ℕ) (request_id from_addr to_addr sdp : Text) (room : Option Text)
      → (role : Option Role) → Option (S × AmpMessage)
  pub accepts : S → Input Packet → Bool
  pub handle_input : S → Input Packet → S
  pub drain : (now : ℕ) → S → Drain S T
  pub is_alive : S → Bool
  pub room_of : S → Option Text
  pub mid_of : S → MediaKind → Option ℕ
  pub kind_of : S → (mid : ℕ) → Option MediaKind
  pub has_writer : S → (mid : ℕ) → Bool
  pub match_params : S → (mid : ℕ) → MediaData → Option ℕ
  pub first_payload_type : S → (mid : ℕ) → Option ℕ
  pub write : S → (mid pt now numer frequency : ℕ) → List ℕ → S
  pub request_keyframe : S → (mid kind : ℕ) → S

-- No operation takes a session to another room, and an offer makes one of the room that it asks for.
pub record KeepsRooms (a : Sessions) : Type 0 where
  pub offer_room :
      (now : ℕ) (request_id from_addr to_addr sdp : Text) (room : Option Text) (role : Option Role)
      {s : a.S} {answer : AmpMessage}
      → a.offer now request_id from_addr to_addr sdp room role ≡ some (s, answer)
      → a.room_of s ≡ room
  pub handle_input_room :
      (s : a.S) (input : Input a.Packet) → a.room_of (a.handle_input s input) ≡ a.room_of s
  pub drain_room : (now : ℕ) (s : a.S) → a.room_of (a.drain now s).session ≡ a.room_of s
  pub write_room :
      (s : a.S) (mid pt now numer frequency : ℕ) (bytes : List ℕ)
      → a.room_of (a.write s mid pt now numer frequency bytes) ≡ a.room_of s
  pub request_keyframe_room :
      (s : a.S) (mid kind : ℕ) → a.room_of (a.request_keyframe s mid kind) ≡ a.room_of s
