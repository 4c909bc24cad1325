-- ===== src/Sfu/Session/Rounds.antt =====
-- The rounds of `drain_outputs` in crates/sfu/src/session.rs: what they leave behind, and that more fuel
-- gives the same.
use nodemesh.Base.{
  ℕ, zero, suc, ◌≤◌, ◌<◌, ◌≡◌, ◌⊎◌, refl, ap, subst, ◌∙◌, false, List, Option, none, some, arith,
  inl, inr, Option-cases, Bool-cases, leb, map_option,
}
use nodemesh.Sfu.WebRtc.{WebRtc, Output}
use nodemesh.Sfu.Session.{
  Session, SessionEvent, Drained, add_transmit, add_event, finished, handle_event, feed_timeout,
  drain_outputs,
}
use nodemesh.Sfu.Session.Continuity.{
  Continues, IsDrained, Continues-trans, with_rtc-Continues, dead-Continues, handle_event-Continues,
  handle_event-silent, feed_timeout-Continues,
}

module _ (w : WebRtc) where
  -- The session is dead, or the library waits for a later time.
  abbrev pub Rests : ℕ → Drained w → Type 0
  Rests now d = (d.session.alive ≡ false) ⊎ ((t : ℕ) × (d.next_timeout ≡ some t) × (now < t))

  -- What a drain that has ended leaves behind.
  abbrev Sound : ℕ → Session w → Option (Drained w) → Type 0
  Sound now s none = Unit
  Sound now s (some d) = IsDrained w s d × Rests now d

  -- What a drain from a later session gives, for the earlier one.
  Sound-later :
      (now : ℕ) (s s' : Session w) (o : Option (Drained w))
      → Continues w s s'
      → Sound now s' o
      → Sound now s o
  Sound-later now s s' none c h = tt
  Sound-later now s s' (some d) c (i, rests) = (
    record {
      continues = Continues-trans w s s' d.session c i.continues;
      silent = λ h. i.silent (c.same_room ∙ h);
    },
    rests,
  )

  Sound-finished :
      (now : ℕ) (s s' : Session w) (t : Option ℕ)
      → Continues w s s'
      → Rests now (finished w s' t)
      → Sound now s (some (finished w s' t))
  Sound-finished now s s' t c rests = (record { continues = c; silent = λ h. refl }, rests)

  Sound-transmit :
      (now : ℕ) (s : Session w) (t : w.Addr × List ℕ) (o : Option (Drained w))
      → Sound now s o
      → Sound now s (map_option (add_transmit w t) o)
  Sound-transmit now s t none h = tt
  Sound-transmit now s t (some d) (i, rests) =
      (record { continues = i.continues; silent = i.silent }, rests)

  Sound-event :
      (now : ℕ) (s : Session w) (found : Option SessionEvent) (o : Option (Drained w))
      → (s.room ≡ none → found ≡ none)
      → Sound now s o
      → Sound now s (map_option (add_event w found) o)
  Sound-event now s found none q h = tt
  Sound-event now s none (some d) q h = h
  Sound-event now s (some x) (some d) q (i, rests) =
      (record { continues = i.continues; silent = λ h. absurd (ground (arith, q h)) }, rests)

  drain_outputs-Sound :
      (fuel now : ℕ) (t : Option ℕ) (s : Session w) → Sound now s (drain_outputs w fuel now t s)
  unfolding drain_outputs
  drain_outputs-Sound zero now t s = tt
  drain_outputs-Sound (suc fuel) now t s =
      let r = (w.poll_output s.rtc).0 in
      let s' : Session w = record s { rtc = r } in
      elim (Option-cases (w.poll_output s.rtc).1) [
        | inl e ↦
            rw (e, drain_outputs)
              (Sound-finished now s (record s { rtc = r; alive = false }) t (dead-Continues w s r)
                (inl refl))
        | inr (Output.timeout deadline, e) ↦ elim (Bool-cases (leb deadline now)) [
          | inl f ↦
              rw (e, drain_outputs)
                (rw (f, drain_outputs)
                  (Sound-later now s (feed_timeout w now s') _
                    (Continues-trans w s s' _ (with_rtc-Continues w s r)
                      (feed_timeout-Continues w now s'))
                    (drain_outputs-Sound fuel now (some deadline) (feed_timeout w now s'))))
          | inr f ↦
              rw (e, drain_outputs)
                (rw (f, drain_outputs)
                  (Sound-finished now s s' (some deadline) (with_rtc-Continues w s r)
                    (inr (deadline, refl, ground arith))))
        ]
        | inr (Output.transmit a c, e) ↦
            rw (e, drain_outputs)
              (Sound-later now s s' _ (with_rtc-Continues w s r)
                (Sound-transmit now s' (a, c) _ (drain_outputs-Sound fuel now t s')))
        | inr (Output.event x, e) ↦
            let s'' = (handle_event w now s' x).0 in
            rw (e, drain_outputs)
              (Sound-later now s s' _ (with_rtc-Continues w s r) (
                Sound-event now s' (handle_event w now s' x).1 _ (handle_event-silent w now s' x) (
                  Sound-later now s' s'' _ (handle_event-Continues w now s' x)
                    (drain_outputs-Sound fuel now t s''))))
      ]

  pub drain_outputs-IsDrained :
      (fuel now : ℕ) (t : Option ℕ) (s : Session w) {d : Drained w}
      → drain_outputs w fuel now t s ≡ some d
      → IsDrained w s d × Rests now d
  drain_outputs-IsDrained fuel now t s e = subst (Sound now s) e (drain_outputs-Sound fuel now t s)

module _ (w : WebRtc) where
  -- What there is on the left is on the right.
  abbrev Agrees : Option (Drained w) → Option (Drained w) → Type 0
  Agrees none o = Unit
  Agrees (some d) o = o ≡ some d

  map_option-Agrees :
      (f : Drained w → Drained w) (o o' : Option (Drained w))
      → Agrees o o'
      → Agrees (map_option f o) (map_option f o')
  map_option-Agrees f none o' h = tt
  map_option-Agrees f (some d) o' h = ap (map_option f) h

  drain_outputs-Agrees :
      (fuel more now : ℕ) (t : Option ℕ) (s : Session w)
      → fuel ≤ more
      → Agrees (drain_outputs w fuel now t s) (drain_outputs w more now t s)
  unfolding drain_outputs
  drain_outputs-Agrees zero more now t s l = tt
  drain_outputs-Agrees (suc fuel) zero now t s l = absurd (omega arith)
  drain_outputs-Agrees (suc fuel) (suc more) now t s l =
      let s' : Session w = record s { rtc = (w.poll_output s.rtc).0 } in
      elim (Option-cases (w.poll_output s.rtc).1) [
        | inl e ↦ rw (e, drain_outputs) refl
        | inr (Output.timeout deadline, e) ↦ elim (Bool-cases (leb deadline now)) [
          | inl f ↦
              rw (e, drain_outputs)
                (rw (f, drain_outputs)
                  (drain_outputs-Agrees fuel more now (some deadline) (feed_timeout w now s')
                    (omega arith)))
          | inr f ↦ rw (e, drain_outputs) (rw (f, drain_outputs) refl)
        ]
        | inr (Output.transmit a c, e) ↦
            rw (e, drain_outputs)
              (map_option-Agrees (add_transmit w (a, c)) _ _
                (drain_outputs-Agrees fuel more now t s' (omega arith)))
        | inr (Output.event x, e) ↦
            rw (e, drain_outputs)
              (map_option-Agrees (add_event w (handle_event w now s' x).1) _ _
                (drain_outputs-Agrees fuel more now t (handle_event w now s' x).0 (omega arith)))
      ]

  -- More fuel gives the same.
  pub drain_outputs_mono :
      (fuel more now : ℕ) (t : Option ℕ) (s : Session w) {d : Drained w}
      → drain_outputs w fuel now t s ≡ some d
      → fuel ≤ more
      → drain_outputs w more now t s ≡ some d
  drain_outputs_mono fuel more now t s e l =
      subst (λ o. Agrees o (drain_outputs w more now t s)) e
        (drain_outputs-Agrees fuel more now t s l)
