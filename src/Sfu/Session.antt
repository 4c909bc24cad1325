-- ===== src/Sfu/Session.antt =====
-- crates/sfu/src/session.rs: a session of a browser, over the WebRTC library.
pub mod Continuity
pub mod Rounds
pub mod Draining
use nodemesh.Base.{
  ℕ, zero, suc, Bool, true, false, ◌&&◌, List, [], ◌∷◌, ◌++◌, Option, none, some, if◌then◌else◌,
  leb, ◌==◌, is_some, map_option, ◌⊎◌, inl, inr,
}
use nodemesh.Text.{Text, codes}
use nodemesh.Amp.Message.{AmpMessage, new, collect}
use nodemesh.Sfu.Room.{Role}
use nodemesh.Sfu.Relay.{MediaKind, audio, video}
use nodemesh.Sfu.Media.{MediaData}
use nodemesh.Sfu.WebRtc.{WebRtc, Event, Output, Input}

pub data SessionEvent : Type 0 where
  media_data : MediaData → SessionEvent
  keyframe_request : (mid kind : ℕ) → SessionEvent

-- `mid_by_kind`, which has at most one mid of each kind.
pub record MidByKind : Type 0 where
  pub audio_mid : Option ℕ
  pub video_mid : Option ℕ

abbrev pub insert_mid : MediaKind → ℕ → MidByKind → MidByKind
insert_mid audio mid m = record m { audio_mid = some mid }
insert_mid video mid m = record m { video_mid = some mid }

abbrev pub get_mid : MidByKind → MediaKind → Option ℕ
get_mid m audio = m.audio_mid
get_mid m video = m.video_mid

abbrev is_mid : ℕ → Option ℕ → Bool
is_mid mid none = false
is_mid mid (some m) = m == mid

-- `iter().find(|(_, &mid)| mid == data.mid)`, audio first.
abbrev pub find_kind : MidByKind → ℕ → Option MediaKind
find_kind m mid =
    if is_mid mid m.audio_mid
    then some audio
    else if is_mid mid m.video_mid
    then some video
    else none

pub data OfferError : Type 0 where
  invalid_offer invalid_candidate not_accepted not_serialized : OfferError

module _ (w : WebRtc) where
  pub record Session : Type 0 where
    pub id : Text
    pub from_addr : Text
    pub rtc : w.Rtc
    pub room : Option Text
    pub role : Option Role
    pub mid_by_kind : MidByKind
    pub alive : Bool

  pub record OfferResult : Type 0 where
    pub session : Session
    pub answer_msg : AmpMessage

  pub data OfferOutcome : Type 0 where
    ok : OfferResult → OfferOutcome
    err : OfferError → OfferOutcome

  -- The headers of the answer to an offer.
  abbrev pub answer_headers : (request_id from_addr to_addr : Text) → List (Text × Text)
  answer_headers request_id from_addr to_addr =
      (codes "amp", codes "1")
      ∷ (codes "type", codes "response")
      ∷ (codes "command", codes "sdp-answer")
      ∷ (codes "from", to_addr)
      ∷ (codes "to", from_addr)
      ∷ (codes "reply-to", request_id)
      ∷ []

  unfoldable pub answer_message : (request_id from_addr to_addr answer_json : Text) → AmpMessage
  unfolding collect
  answer_message request_id from_addr to_addr answer_json =
      new (collect (answer_headers request_id from_addr to_addr) []) answer_json

  abbrev candidate_addr : w.Addr → w.Addr
  candidate_addr local_addr =
      if w.is_unspecified local_addr then w.on_local_ip local_addr else local_addr

  -- The offer is read, the candidate added and the offer accepted, or the reason why not.
  unfoldable pub negotiate : (now : ℕ) (sdp_json : Text) → w.Addr → OfferError ⊎ (w.Rtc × Text)
  negotiate now sdp_json local_addr = elim (w.offer_from_str sdp_json) [
    | none ↦ inl invalid_offer
    | some offer ↦ elim (w.host (candidate_addr local_addr)) [
      | none ↦ inl invalid_candidate
      | some candidate ↦
          elim (w.accept_offer (w.add_local_candidate (w.make now) candidate) offer) [
            | none ↦ inl not_accepted
            | some (rtc, answer) ↦ elim (w.answer_to_string answer) [
              | none ↦ inl not_serialized
              | some answer_json ↦ inr (rtc, answer_json)
            ]
          ]
    ]
  ]

  unfoldable pub handle_sdp_offer :
      (now : ℕ) (request_id from_addr to_addr sdp_json : Text)
      → w.Addr
      → (room : Option Text) → (role : Option Role) → OfferOutcome
  unfolding negotiate answer_message
  handle_sdp_offer now request_id from_addr to_addr sdp_json local_addr room role =
      elim (negotiate now sdp_json local_addr) [
        | inl e ↦ err e
        | inr (rtc, answer_json) ↦ ok (record {
          session = record {
            id = request_id;
            from_addr = from_addr;
            rtc = rtc;
            room = room;
            role = role;
            mid_by_kind = record { audio_mid = none; video_mid = none };
            alive = true;
          };
          answer_msg = answer_message request_id from_addr to_addr answer_json;
        })
      ]

  abbrev pub accepts : Session → Input w.Packet → Bool
  accepts s input = w.accepts s.rtc input

  -- The error is only logged by the callers.
  abbrev pub handle_input : Session → Input w.Packet → Session × Bool
  handle_input s input =
      let (rtc, handled) = w.handle_input s.rtc input in (record s { rtc = rtc }, handled)

  abbrev pub is_alive : Session → Bool
  is_alive s = s.alive && w.is_rtc_alive s.rtc

  -- Without a room, media go back to where they came from.
  abbrev echo_media : (now : ℕ) → Session → MediaData → Session
  echo_media now s media =
      if w.has_writer s.rtc media.mid
      then record s {
        rtc = w.write s.rtc media.mid media.pt now media.numer media.frequency media.bytes;
      }
      else s

  abbrev echo_keyframe : Session → (mid kind : ℕ) → Session
  echo_keyframe s mid kind =
      if w.has_writer s.rtc mid then record s { rtc = w.request_keyframe s.rtc mid kind } else s

  unfoldable pub handle_event : (now : ℕ) → Session → Event → Session × Option SessionEvent
  handle_event now s (Event.ice_connection_state_change disconnected) =
      (if disconnected then record s { alive = false } else s, none)
  handle_event now s Event.connected = (s, none)
  handle_event now s (Event.media_added kind mid) =
      (record s { mid_by_kind = insert_mid kind mid s.mid_by_kind }, none)
  handle_event now s (Event.media_data media) =
      if is_some s.room then (s, some (media_data media)) else (echo_media now s media, none)
  handle_event now s (Event.keyframe_request mid kind) =
      if is_some s.room
      then (s, some (keyframe_request mid kind))
      else (echo_keyframe s mid kind, none)
  handle_event now s Event.other_event = (s, none)

  -- What a drain returns, with the session.
  pub record Drained : Type 0 where
    pub session : Session
    pub transmits : List (w.Addr × List ℕ)
    pub events : List SessionEvent
    pub next_timeout : Option ℕ

  abbrev pub add_transmit : w.Addr × List ℕ → Drained → Drained
  add_transmit t d = record d { transmits = t ∷ d.transmits }

  abbrev pub add_event : Option SessionEvent → Drained → Drained
  add_event none d = d
  add_event (some e) d = record d { events = e ∷ d.events }

  abbrev pub finished : Session → Option ℕ → Drained
  finished s next_timeout = record {
    session = s;
    transmits = [];
    events = [];
    next_timeout = next_timeout;
  }

  -- The session after a deadline that has passed: a timeout that is not handled ends it.
  abbrev pub feed_timeout : (now : ℕ) → Session → Session
  feed_timeout now s =
      let (s', handled) = handle_input s (Input.timeout now) in
      if handled then s' else record s' { alive = false }

  -- `drain_outputs`; `none` means that the fuel ran out. A timeout that is fed counts as the last one seen
  -- only until the next, which the loop does not end without unless the poll fails.
  unfoldable pub drain_outputs : ℕ → (now : ℕ) → Option ℕ → Session → Option Drained
  unfolding handle_event
  drain_outputs zero now next_timeout s = none
  drain_outputs (suc fuel) now next_timeout s =
      let (rtc, result) = w.poll_output s.rtc in
      let s' : Session = record s { rtc = rtc } in
      elim result [
        | none ↦ some (finished (record s' { alive = false }) next_timeout)
        | some (Output.timeout deadline) ↦ elim (leb deadline now) [
          | true ↦ drain_outputs fuel now (some deadline) (feed_timeout now s')
          | false ↦ some (finished s' (some deadline))
        ]
        | some (Output.transmit destination contents) ↦
            map_option (add_transmit (destination, contents))
              (drain_outputs fuel now next_timeout s')
        | some (Output.event e) ↦
            let (s'', found) = handle_event now s' e in
            map_option (add_event found) (drain_outputs fuel now next_timeout s'')
      ]
