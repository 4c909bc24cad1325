-- ===== src/Tests/Library.antt =====
-- A WebRTC library for the tests: an `Rtc` is the list of the outputs that it still has to give, and
-- packets are numbers.
use nodemesh.Base.{
  ℕ, suc, ◌≤◌, ◌<◌, ◌≡◌, refl, ap, sym, ◌∙◌, arith, true, false, List, [], ◌∷◌, Option, none, some,
  ◌==◌, length, inl, inr, Bool-cases, leb, is_some, map_option, unwrap_or,
}
use nodemesh.Text.{Text, codes}
use nodemesh.Sfu.Relay.{video}
use nodemesh.Sfu.Media.{MediaData}
use nodemesh.Sfu.WebRtc.{Input, WebRtc, Event, Output}
use nodemesh.Sfu.Session.{
  Session, Drained, handle_event, add_transmit, add_event, finished, drain_outputs,
}
use nodemesh.Sfu.Session.Draining.{IsDriven, Drains}

abbrev pop : List (Output ℕ) → List (Output ℕ) × Option (Output ℕ)
pop [] = ([], none)
pop (o ∷ os) = (os, some o)

abbrev pub frame : MediaData
frame = record {
  mid = 7;
  pt = 96;
  numer = 3_000;
  frequency = 90_000;
  network_time = 5;
  bytes = 1 ∷ 2 ∷ [];
}

-- A packet brings a frame.
abbrev take : List (Output ℕ) → Input ℕ → List (Output ℕ)
take r (Input.timeout now) = r
take r (Input.receive now p) = Output.event (Event.media_data frame) ∷ r

-- An accepted offer makes a session that waits until time 99, with a video at mid 7.
abbrev pub library : WebRtc
library = record {
  Rtc = List (Output ℕ);
  Offer = Text;
  Answer = Text;
  Addr = ℕ;
  Candidate = ℕ;
  Packet = ℕ;
  is_unspecified = λ a. a == 0;
  on_local_ip = λ a. 1;
  offer_from_str = λ s. some s;
  answer_to_string = λ a. some a;
  make = λ now. [];
  host = λ a. some a;
  add_local_candidate = λ r c. r;
  accept_offer = λ r o. some (
    Output.event (Event.media_added video 7) ∷ Output.transmit 5 (1 ∷ []) ∷ Output.timeout 99 ∷ [],
    codes "{}",
  );
  new_receive = λ source local bytes. some 0;
  accepts = λ r input. true;
  handle_input = λ r input. (take r input, true);
  poll_output = pop;
  is_rtc_alive = λ r. true;
  has_writer = λ r mid. true;
  match_params = λ r mid media. some 96;
  first_payload_type = λ r mid. some 96;
  write = λ r mid pt now numer frequency bytes. r;
  request_keyframe = λ r mid kind. r;
}

handle_event-library :
    (now : ℕ) (s : Session library) (e : Event) → (handle_event library now s e).0.rtc ≡ s.rtc
unfolding handle_event
handle_event-library now s (Event.ice_connection_state_change true) = refl
handle_event-library now s (Event.ice_connection_state_change false) = refl
handle_event-library now s Event.connected = refl
handle_event-library now s (Event.media_added kind mid) = refl
handle_event-library now s (Event.media_data media) = elim (Bool-cases (is_some s.room)) [
  | inl e ↦ rw e refl
  | inr e ↦ rw e refl
]
handle_event-library now s (Event.keyframe_request mid kind) = elim (Bool-cases (is_some s.room)) [
  | inl e ↦ rw e refl
  | inr e ↦ rw e refl
]
handle_event-library now s Event.other_event = refl

-- The library takes one round for each of its outputs, and one to see that there is none.
pub library-ends :
    (r : List (Output ℕ)) (now : ℕ) (t : Option ℕ) (s : Session library)
    → (d : Drained library) × (drain_outputs library (suc (length r)) now t (record s { rtc = r })
        ≡ some d)
unfolding drain_outputs
library-ends [] now t s = (finished library (record s { rtc = []; alive = false }) t, refl)
library-ends (Output.timeout deadline ∷ r) now t s = elim (Bool-cases (leb deadline now)) [
  | inl f ↦ let (d, e) = library-ends r now (some deadline) s in (d, rw (f, drain_outputs) e)
  | inr f ↦ (finished library (record s { rtc = r }) (some deadline), rw (f, drain_outputs) refl)
]
library-ends (Output.transmit a c ∷ r) now t s =
    let (d, e) = library-ends r now t s in
    (add_transmit library (a, c) d, ap (map_option (add_transmit library (a, c))) e)
library-ends (Output.event x ∷ r) now t s =
    let s' : Session library = record s { rtc = r } in
    let (s'', found) = handle_event library now s' x in
    let (d, e) = library-ends r now t s'' in
    (
      add_event library found d,
      ap (map_option (add_event library found)) (
          ap
            (λ (o : List (Output ℕ)).
              drain_outputs library (suc (length r)) now t (record s'' { rtc = o }))
            (handle_event-library now s' x)
          ∙ e),
    )

abbrev pub library-Drains : Drains library
library-Drains = record {
  drain = λ now s.
      unwrap_or (drain_outputs library (suc (length s.rtc)) now none s) (finished library s none);
  ends = λ now s.
      (let (d, e) = library-ends s.rtc now none s in
        (
          suc (length s.rtc),
          e ∙ ap some (sym (ap (λ o. unwrap_or o (finished library s none)) e)),
        ));
}

-- A library that makes two packets of what is written.
abbrev pub packetizing : WebRtc
packetizing = record library {
  write = λ r mid pt now numer frequency bytes. Output.transmit 5 bytes ∷ Output.transmit 5 [] ∷ r;
}

abbrev timeouts : List (Output ℕ) → ℕ
timeouts [] = 0
timeouts (Output.timeout deadline ∷ r) = suc (timeouts r)
timeouts (_ ∷ r) = timeouts r

abbrev events : List (Output ℕ) → ℕ
events [] = 0
events (Output.event e ∷ r) = suc (events r)
events (_ ∷ r) = events r

pub packetizing-IsDriven : IsDriven packetizing
packetizing-IsDriven = record {
  due = λ now r. timeouts r;
  events = events;
  transmits = length;
  transmit_taken = λ now r a c e. transmitted r a c e;
  event_taken = λ now r x e. happened r x e;
  timeout_fed = λ r deadline now e h. fed r deadline e;
  write_adds = λ at r mid pt now numer frequency bytes. (omega arith, omega arith);
  keyframe_adds = λ at r mid kind. (omega arith, omega arith);
}
  where
    transmitted :
        (r : List (Output ℕ)) (a : ℕ) (c : List ℕ)
        → (pop r).1 ≡ some (Output.transmit a c)
        → (timeouts (pop r).0 ≤ timeouts r)
          × (events (pop r).0 ≤ events r)
          × (length (pop r).0 < length r)
    transmitted [] a c e = absurd (ground (arith, e))
    transmitted (Output.timeout deadline ∷ r) a c e = absurd (ground (arith, e))
    transmitted (Output.transmit b d ∷ r) a c e = (omega arith, omega arith, omega arith)
    transmitted (Output.event x ∷ r) a c e = absurd (ground (arith, e))

    happened :
        (r : List (Output ℕ)) (x : Event)
        → (pop r).1 ≡ some (Output.event x)
        → (timeouts (pop r).0 ≤ timeouts r) × (events (pop r).0 < events r)
    happened [] x e = absurd (ground (arith, e))
    happened (Output.timeout deadline ∷ r) x e = absurd (ground (arith, e))
    happened (Output.transmit b d ∷ r) x e = absurd (ground (arith, e))
    happened (Output.event y ∷ r) x e = (omega arith, omega arith)

    fed :
        (r : List (Output ℕ)) (deadline : ℕ)
        → (pop r).1 ≡ some (Output.timeout deadline)
        → timeouts (pop r).0 < timeouts r
    fed [] deadline e = absurd (ground (arith, e))
    fed (Output.timeout d ∷ r) deadline e = omega arith
    fed (Output.transmit b d ∷ r) deadline e = absurd (ground (arith, e))
    fed (Output.event y ∷ r) deadline e = absurd (ground (arith, e))
