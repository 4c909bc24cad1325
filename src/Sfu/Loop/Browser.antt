-- ===== src/Sfu/Loop/Browser.antt =====
-- The sessions of browsers, over the WebRTC library, fill the interface that the loop takes.
use nodemesh.Base.{ℕ, ◌≡◌, refl, ap, sym, List, Option, none, some, arith, inl, inr, ◌⊎◌}
use nodemesh.Text.{Text}
use nodemesh.Amp.Message.{AmpMessage}
use nodemesh.Sfu.Room.{Role}
use nodemesh.Sfu.WebRtc.{WebRtc}
use nodemesh.Sfu.Session.{
  Session, OfferOutcome, ok, err, handle_sdp_offer, negotiate, accepts, handle_input, is_alive,
  get_mid, find_kind, Drained, drain_outputs,
}
use nodemesh.Sfu.Session.Rounds.{drain_outputs-IsDrained}
use nodemesh.Sfu.Session.Draining.{Drains}
use nodemesh.Sfu.Sessions.{Sessions, KeepsRooms, Drain}

module _ (w : WebRtc) where
  abbrev accepted : OfferOutcome w → Option (Session w × AmpMessage)
  accepted (ok r) = some (r.session, r.answer_msg)
  accepted (err e) = none

  -- The next timeout is not used by the loop.
  abbrev pub drained : Drained w → Drain (Session w) (w.Addr × List ℕ)
  drained d = record { session = d.session; transmits = d.transmits; events = d.events }

  unwrap_room : Session w → Option (Session w × AmpMessage) → Option Text
  unwrap_room s none = s.room
  unwrap_room s (some (t, answer)) = t.room

  Sum-cases {ℓ κ} :
      {A : Type ℓ} {B : Type κ} (x : A ⊎ B) → ((a : A) × (x ≡ inl a)) ⊎ ((b : B) × (x ≡ inr b))
  Sum-cases (inl a) = inl (a, refl)
  Sum-cases (inr b) = inr (b, refl)

module _ (w : WebRtc) (drains : Drains w) (local_addr : w.Addr) where
  unfoldable pub browser_sessions : Sessions
  unfolding handle_sdp_offer drain_outputs
  browser_sessions = record {
    S = Session w;
    T = w.Addr × List ℕ;
    Packet = w.Packet;
    offer = λ now request_id from_addr to_addr sdp room role.
        accepted w (handle_sdp_offer w now request_id from_addr to_addr sdp local_addr room role);
    accepts = accepts w;
    handle_input = λ s input. (handle_input w s input).0;
    drain = λ now s. drained w (drains.drain now s);
    is_alive = is_alive w;
    room_of = λ s. s.room;
    mid_of = λ s kind. get_mid s.mid_by_kind kind;
    kind_of = λ s mid. find_kind s.mid_by_kind mid;
    has_writer = λ s mid. w.has_writer s.rtc mid;
    match_params = λ s mid media. w.match_params s.rtc mid media;
    first_payload_type = λ s mid. w.first_payload_type s.rtc mid;
    write = λ s mid pt now numer frequency bytes. record s {
      rtc = w.write s.rtc mid pt now numer frequency bytes;
    };
    request_keyframe = λ s mid kind. record s { rtc = w.request_keyframe s.rtc mid kind };
  }

  drained-room : (now : ℕ) (s : Session w) → (drains.drain now s).session.room ≡ s.room
  drained-room now s =
      let (fuel, e) = drains.ends now s in
      let (i, rests) = drain_outputs-IsDrained w fuel now none s e in i.continues.same_room

  offered-room :
      (now : ℕ) (request_id from_addr to_addr sdp : Text) (room : Option Text) (role : Option Role)
      {s : Session w} {answer : AmpMessage}
      → accepted w (handle_sdp_offer w now request_id from_addr to_addr sdp local_addr room role)
        ≡ some (s, answer)
      → s.room ≡ room
  unfolding handle_sdp_offer unwrap_room
  offered-room now request_id from_addr to_addr sdp room role {s} {answer} h =
      elim (Sum-cases w (negotiate w now sdp local_addr)) [
        | inl (e, q) ↦ absurd (ground (arith, rw (q, handle_sdp_offer) at h))
        | inr ((rtc, json), q) ↦
            ap (λ (o : Option (Session w × AmpMessage)). unwrap_room w s o)
              (sym (rw (q, handle_sdp_offer) at h))
      ]

  -- A session is in the room that its offer asked for, and stays there whatever the library does, as
  -- long as its drains end.
  pub browser_sessions-KeepsRooms : KeepsRooms browser_sessions
  unfolding browser_sessions
  browser_sessions-KeepsRooms = record {
    offer_room = λ now request_id from_addr to_addr sdp room role {s} {answer} h.
        offered-room now request_id from_addr to_addr sdp room role h;
    handle_input_room = λ s input. refl;
    drain_room = λ now s. drained-room now s;
    write_room = λ s mid pt now numer frequency bytes. refl;
    request_keyframe_room = λ s mid kind. refl;
  }
