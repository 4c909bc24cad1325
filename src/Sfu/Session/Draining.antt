-- ===== src/Sfu/Session/Draining.antt =====
-- The loop of `drain_outputs` in crates/sfu/src/session.rs: why it ends.
use nodemesh.Base.{
  ℕ, zero, suc, ◌≤◌, ◌<◌, ◌≡◌, refl, ap, sym, subst, true, false, List, Option, none, some, arith,
  inl, inr, Option-cases, Bool-cases, leb, is_some, map_option,
}
use nodemesh.Sfu.WebRtc.{WebRtc, Event, Output, Input}
use nodemesh.Sfu.Session.{
  Session, Drained, add_transmit, add_event, finished, handle_event, feed_timeout, drain_outputs,
}
use nodemesh.Sfu.Session.Continuity.{IsDrained, feed_timeout-rtc}
use nodemesh.Sfu.Session.Rounds.{Rests, drain_outputs-IsDrained, drain_outputs_mono}

-- What the loop relies on of the library, of which it asks outputs until it only waits: at a given time
-- finitely many deadlines are due, and each that is handled makes them fewer, whatever else it brings;
-- between two of them finitely many events come, and between two events finitely many packets. A write
-- and a keyframe request bring no event and make no deadline due, but any number of packets.
pub record IsDriven (w : WebRtc) : Type 0 where
  pub due : (now : ℕ) → w.Rtc → ℕ
  pub events : w.Rtc → ℕ
  pub transmits : w.Rtc → ℕ
  pub transmit_taken :
      (now : ℕ) (r : w.Rtc) (a : w.Addr) (c : List ℕ)
      → (w.poll_output r).1 ≡ some (Output.transmit a c)
      → (due now (w.poll_output r).0 ≤ due now r)
        × (events (w.poll_output r).0 ≤ events r)
        × (transmits (w.poll_output r).0 < transmits r)
  pub event_taken :
      (now : ℕ) (r : w.Rtc) (e : Event)
      → (w.poll_output r).1 ≡ some (Output.event e)
      → (due now (w.poll_output r).0 ≤ due now r) × (events (w.poll_output r).0 < events r)
  pub timeout_fed :
      (r : w.Rtc) (deadline now : ℕ)
      → (w.poll_output r).1 ≡ some (Output.timeout deadline)
      → deadline ≤ now
      → due now (w.handle_input (w.poll_output r).0 (Input.timeout now)).0 < due now r
  pub write_adds :
      (at : ℕ) (r : w.Rtc) (mid pt now numer frequency : ℕ) (bytes : List ℕ)
      → (due at (w.write r mid pt now numer frequency bytes) ≤ due at r)
        × (events (w.write r mid pt now numer frequency bytes) ≤ events r)
  pub keyframe_adds :
      (at : ℕ) (r : w.Rtc) (mid kind : ℕ)
      → (due at (w.request_keyframe r mid kind) ≤ due at r)
        × (events (w.request_keyframe r mid kind) ≤ events r)

module _ (w : WebRtc) (driven : IsDriven w) where
  handle_event-adds :
      (at now : ℕ) (s : Session w) (e : Event)
      → (driven.due at (handle_event w now s e).0.rtc ≤ driven.due at s.rtc)
        × (driven.events (handle_event w now s e).0.rtc ≤ driven.events s.rtc)
  unfolding handle_event
  handle_event-adds at now s (Event.ice_connection_state_change true) = (omega arith, omega arith)
  handle_event-adds at now s (Event.ice_connection_state_change false) = (omega arith, omega arith)
  handle_event-adds at now s Event.connected = (omega arith, omega arith)
  handle_event-adds at now s (Event.media_added kind mid) = (omega arith, omega arith)
  handle_event-adds at now s (Event.media_data media) = elim (Bool-cases (is_some s.room)) [
    | inl e ↦ rw e (omega arith, omega arith)
    | inr e ↦ elim (Bool-cases (w.has_writer s.rtc media.mid)) [
      | inl f ↦ rw e (rw f (driven.write_adds _ _ _ _ _ _ _ _))
      | inr f ↦ rw e (rw f (omega arith, omega arith))
    ]
  ]
  handle_event-adds at now s (Event.keyframe_request mid kind) =
      elim (Bool-cases (is_some s.room)) [
        | inl e ↦ rw e (omega arith, omega arith)
        | inr e ↦ elim (Bool-cases (w.has_writer s.rtc mid)) [
          | inl f ↦ rw e (rw f (driven.keyframe_adds _ _ _ _))
          | inr f ↦ rw e (rw f (omega arith, omega arith))
        ]
      ]
  handle_event-adds at now s Event.other_event = (omega arith, omega arith)

  fed-due :
      (s : Session w) (deadline now : ℕ)
      → (w.poll_output s.rtc).1 ≡ some (Output.timeout deadline)
      → leb deadline now ≡ true
      → driven.due now (feed_timeout w now (record s { rtc = (w.poll_output s.rtc).0 })).rtc
        < driven.due now s.rtc
  fed-due s deadline now e f =
      subst (λ r. driven.due now r < driven.due now s.rtc)
        (sym (feed_timeout-rtc w now (record s { rtc = (w.poll_output s.rtc).0 })))
        (driven.timeout_fed s.rtc deadline now e (ground arith))

  abbrev Ends : ℕ → Option ℕ → Session w → Type 0
  Ends now t s = (fuel : ℕ) × (d : Drained w) × (drain_outputs w fuel now t s ≡ some d)

  -- By the deadlines that are due, then the events, then the packets.
  drain_outputs-Ends :
      (a b c now : ℕ) (t : Option ℕ) (s : Session w)
      → driven.due now s.rtc < a
      → driven.events s.rtc < b
      → driven.transmits s.rtc < c
      → Ends now t s
  unfolding drain_outputs
  drain_outputs-Ends zero b c now t s ha hb hc = absurd (omega arith)
  drain_outputs-Ends (suc a) zero c now t s ha hb hc = absurd (omega arith)
  drain_outputs-Ends (suc a) (suc b) zero now t s ha hb hc = absurd (omega arith)
  drain_outputs-Ends (suc a) (suc b) (suc c) now t s ha hb hc =
      let r = (w.poll_output s.rtc).0 in
      let s' : Session w = record s { rtc = r } in
      elim (Option-cases (w.poll_output s.rtc).1) [
        | inl e ↦
            (1, finished w (record s { rtc = r; alive = false }) t, rw (e, drain_outputs) refl)
        | inr (Output.timeout deadline, e) ↦ elim (Bool-cases (leb deadline now)) [
          | inl f ↦
              let fed = feed_timeout w now s' in
              let (fuel, d, ends) =
                drain_outputs-Ends a (suc (driven.events fed.rtc)) (suc (driven.transmits fed.rtc))
                  now (some deadline) fed (omega (arith, fed-due s deadline now e f, ha))
                  (omega arith) (omega arith) in
              (suc fuel, d, rw (e, drain_outputs) (rw (f, drain_outputs) ends))
          | inr f ↦
              (1, finished w s' (some deadline), rw (e, drain_outputs) (rw (f, drain_outputs) refl))
        ]
        | inr (Output.transmit addr contents, e) ↦
            let (p, q, n) = driven.transmit_taken now s.rtc addr contents e in
            let (fuel, d, ends) =
              drain_outputs-Ends (suc a) (suc b) c now t s' (omega (arith, p, ha))
                (omega (arith, q, hb)) (omega (arith, n, hc)) in
            (
              suc fuel,
              add_transmit w (addr, contents) d,
              rw (e, drain_outputs) (ap (map_option (add_transmit w (addr, contents))) ends),
            )
        | inr (Output.event x, e) ↦
            let s'' = (handle_event w now s' x).0 in
            let found = (handle_event w now s' x).1 in
            let (p, q) = driven.event_taken now s.rtc x e in
            let (p', q') = handle_event-adds now now s' x in
            let (fuel, d, ends) =
              drain_outputs-Ends (suc a) b (suc (driven.transmits s''.rtc)) now t s''
                (omega (arith, p, p', ha)) (omega (arith, q, q', hb)) (omega arith) in
            (
              suc fuel,
              add_event w found d,
              rw (e, drain_outputs) (ap (map_option (add_event w found)) ends),
            )
      ]

  pub drain_outputs_lem :
      (now : ℕ) (t : Option ℕ) (s : Session w)
      → (fuel : ℕ) × (d : Drained w) × ((more : ℕ)
          → fuel ≤ more
          → drain_outputs w more now t s ≡ some d)
        × IsDrained w s d
        × Rests w now d
  drain_outputs_lem now t s =
      let (fuel, d, e) =
        drain_outputs-Ends (suc (driven.due now s.rtc)) (suc (driven.events s.rtc))
          (suc (driven.transmits s.rtc)) now t s (omega arith) (omega arith) (omega arith) in
      let (i, rests) = drain_outputs-IsDrained w fuel now t s e in
      (fuel, d, λ more l. drain_outputs_mono w fuel more now t s e l, i, rests)

-- The drain of every session, which ends.
pub record Drains (w : WebRtc) : Type 0 where
  pub drain : (now : ℕ) → Session w → Drained w
  pub ends :
      (now : ℕ) (s : Session w)
      → (fuel : ℕ) × (drain_outputs w fuel now none s ≡ some (drain now s))

-- A library that `IsDriven` describes has such drains.
pub driven_drains : (w : WebRtc) → IsDriven w → Drains w
driven_drains w driven = record {
  drain = λ now s. (drain_outputs_lem w driven now none s).1;
  ends = λ now s.
      (let (fuel, d, e, i, rests) = drain_outputs_lem w driven now none s in
        (fuel, e fuel (omega arith)));
}
