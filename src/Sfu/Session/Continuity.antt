-- ===== src/Sfu/Session/Continuity.antt =====
-- What the handling of outputs keeps of a session.
use nodemesh.Base.{ℕ, ◌≡◌, refl, ◌∙◌, true, false, [], none, inl, inr, Bool-cases, is_some}
use nodemesh.Sfu.WebRtc.{WebRtc, Event, Input}
use nodemesh.Sfu.Session.{Session, Drained, handle_event, feed_timeout}

module _ (w : WebRtc) where
  -- The same place in the rooms, and no life after death.
  pub record Continues (s s' : Session w) : Type 0 where
    pub same_id : s'.id ≡ s.id
    pub same_room : s'.room ≡ s.room
    pub same_role : s'.role ≡ s.role
    pub stays_dead : s.alive ≡ false → s'.alive ≡ false

  pub Continues-trans : (s t u : Session w) → Continues s t → Continues t u → Continues s u
  Continues-trans s t u a b = record {
    same_id = b.same_id ∙ a.same_id;
    same_room = b.same_room ∙ a.same_room;
    same_role = b.same_role ∙ a.same_role;
    stays_dead = λ d. b.stays_dead (a.stays_dead d);
  }

  -- A drained session continues the one it was, and one without a room has no events.
  pub record IsDrained (s : Session w) (d : Drained w) : Type 0 where
    pub continues : Continues s d.session
    pub silent : s.room ≡ none → d.events ≡ []

  -- Only the library's part, the mids, or the life has changed.
  pub with_rtc-Continues : (s : Session w) (rtc : w.Rtc) → Continues s (record s { rtc = rtc })
  with_rtc-Continues s rtc = record {
    same_id = refl;
    same_room = refl;
    same_role = refl;
    stays_dead = λ d. d;
  }

  pub dead-Continues :
      (s : Session w) (rtc : w.Rtc) → Continues s (record s { rtc = rtc; alive = false })
  dead-Continues s rtc = record {
    same_id = refl;
    same_room = refl;
    same_role = refl;
    stays_dead = λ d. refl;
  }

  pub handle_event-Continues :
      (now : ℕ) (s : Session w) (e : Event) → Continues s (handle_event w now s e).0
  unfolding handle_event
  handle_event-Continues now s (Event.ice_connection_state_change true) = dead-Continues s s.rtc
  handle_event-Continues now s (Event.ice_connection_state_change false) =
      with_rtc-Continues s s.rtc
  handle_event-Continues now s Event.connected = with_rtc-Continues s s.rtc
  handle_event-Continues now s (Event.media_added kind mid) = record {
    same_id = refl;
    same_room = refl;
    same_role = refl;
    stays_dead = λ d. d;
  }
  handle_event-Continues now s (Event.media_data media) = elim (Bool-cases (is_some s.room)) [
    | inl e ↦ rw e (with_rtc-Continues s s.rtc)
    | inr e ↦ elim (Bool-cases (w.has_writer s.rtc media.mid)) [
      | inl f ↦ rw e (rw f (with_rtc-Continues s _))
      | inr f ↦ rw e (rw f (with_rtc-Continues s s.rtc))
    ]
  ]
  handle_event-Continues now s (Event.keyframe_request mid kind) =
      elim (Bool-cases (is_some s.room)) [
        | inl e ↦ rw e (with_rtc-Continues s s.rtc)
        | inr e ↦ elim (Bool-cases (w.has_writer s.rtc mid)) [
          | inl f ↦ rw e (rw f (with_rtc-Continues s _))
          | inr f ↦ rw e (rw f (with_rtc-Continues s s.rtc))
        ]
      ]
  handle_event-Continues now s Event.other_event = with_rtc-Continues s s.rtc

  -- A session without a room keeps its media to itself.
  pub handle_event-silent :
      (now : ℕ) (s : Session w) (e : Event) → s.room ≡ none → (handle_event w now s e).1 ≡ none
  unfolding handle_event
  handle_event-silent now s (Event.ice_connection_state_change b) h = refl
  handle_event-silent now s Event.connected h = refl
  handle_event-silent now s (Event.media_added kind mid) h = refl
  handle_event-silent now s (Event.media_data media) h = rw h
  handle_event-silent now s (Event.keyframe_request mid kind) h = rw h
  handle_event-silent now s Event.other_event h = refl

  pub feed_timeout-Continues : (now : ℕ) (s : Session w) → Continues s (feed_timeout w now s)
  feed_timeout-Continues now s = elim (Bool-cases (w.handle_input s.rtc (Input.timeout now)).1) [
    | inl e ↦ rw e (with_rtc-Continues s _)
    | inr e ↦ rw e (dead-Continues s _)
  ]

  pub feed_timeout-rtc :
      (now : ℕ) (s : Session w)
      → (feed_timeout w now s).rtc ≡ (w.handle_input s.rtc (Input.timeout now)).0
  feed_timeout-rtc now s = elim (Bool-cases (w.handle_input s.rtc (Input.timeout now)).1) [
    | inl e ↦ rw e
    | inr e ↦ rw e
  ]
