-- ===== src/Sfu/WebRtc.antt =====
-- The library str0m, and the JSON form of its offers and answers, as crates/sfu/src/session.rs uses them:
-- a record of the operations, none of which is under the repository. An operation that changes an
-- `Rtc` returns the changed one, also where it fails. Instants are numbers.
use nodemesh.Base.{ℕ, Bool, List, Option}
use nodemesh.Text.{Text}
use nodemesh.Sfu.Relay.{MediaKind}
use nodemesh.Sfu.Media.{MediaData}

-- `str0m::Event`, as far as it is looked at.
pub data Event : Type 0 where
  ice_connection_state_change : (disconnected : Bool) → Event
  connected : Event
  media_added : MediaKind → (mid : ℕ) → Event
  media_data : MediaData → Event
  keyframe_request : (mid kind : ℕ) → Event
  other_event : Event

-- `str0m::Output`.
pub data Output (Addr : Type 0) : Type 0 where
  timeout : (deadline : ℕ) → Output Addr
  transmit : (destination : Addr) (contents : List ℕ) → Output Addr
  event : Event → Output Addr

-- `str0m::Input`.
pub data Input (Packet : Type 0) : Type 0 where
  timeout : (now : ℕ) → Input Packet
  receive : (now : ℕ) → Packet → Input Packet

pub record WebRtc : Type 1 where
  pub Rtc : Type 0
  pub Offer : Type 0
  pub Answer : Type 0
  pub Addr : Type 0
  pub Candidate : Type 0
  pub Packet : Type 0
  -- Socket addresses: `is_unspecified`, and the detected local address with the same port.
  pub is_unspecified : Addr → Bool
  pub on_local_ip : Addr → Addr
  pub offer_from_str : Text → Option Offer
  pub answer_to_string : Answer → Option Text
  pub make : (now : ℕ) → Rtc
  pub host : Addr → Option Candidate
  pub add_local_candidate : Rtc → Candidate → Rtc
  pub accept_offer : Rtc → Offer → Option (Rtc × Answer)
  pub new_receive : (source local : Addr) → List ℕ → Option Packet
  pub accepts : Rtc → Input Packet → Bool
  pub handle_input : Rtc → Input Packet → Rtc × Bool
  pub poll_output : Rtc → Rtc × Option (Output Addr)
  pub is_rtc_alive : Rtc → Bool
  -- `rtc.writer(mid)`, and what a writer does.
  pub has_writer : Rtc → (mid : ℕ) → Bool
  pub match_params : Rtc → (mid : ℕ) → MediaData → Option ℕ
  pub first_payload_type : Rtc → (mid : ℕ) → Option ℕ
  pub write : Rtc → (mid pt now numer frequency : ℕ) → List ℕ → Rtc
  pub request_keyframe : Rtc → (mid kind : ℕ) → Rtc
