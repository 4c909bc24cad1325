-- ===== src/Sfu/Loop/Separation.antt =====
-- A datagram changes the session that accepts it, and sessions in its room.
pub mod Target
use nodemesh.Base.{
  ℕ, ◌≡◌, ◌≢◌, ◌⊎◌, ◌<◌, refl, ap, sym, ◌∙◌, subst, inl, inr, Bool, List, [], ◌∷◌, Option, some,
  arith, ◌==◌, ==_iff, ==_ne, ◌++◌, Bool-cases, Option-cases, and_then, map_option, unwrap_or,
  get_elem?, set, length,
}
use nodemesh.Text.{Text, text_eq_refl, text_eq-cases}
use nodemesh.Dict.{Dict, lookup, Lacks, Distinct, lookup-Lacks}
use nodemesh.Sfu.Room.{Room, find_publisher_room}
use nodemesh.Sfu.Relay.{MediaKind}
use nodemesh.Sfu.Media.{
  MediaData, has_index, publish, on_media_data, keyframe_target, find_keyframe_target, ask,
  on_keyframe_request,
}
use nodemesh.Sfu.Media.Delivery.{
  count, has_index-count, get_elem?-fan_out, get_elem?-set_other, length-set,
}
use nodemesh.Sfu.Session.{SessionEvent, media_data, keyframe_request}
use nodemesh.Sfu.WebRtc.{Input, receive}
use nodemesh.Sfu.Sessions.{Sessions, KeepsRooms}
use nodemesh.Sfu.Placement.{room_at, IsPlaced}
use nodemesh.Sfu.Loop.{
  State, deliver, process_event, process_events, transmit, drive, position, on_packet,
}
use nodemesh.Sfu.Loop.Kept.{SameRooms, set-SameRooms, with_sessions-Kept}
use nodemesh.Sfu.Loop.Processing.{process_event-Goes, position-below, get_elem?-below}
use nodemesh.Sfu.Loop.Writing.{drive-room}
use nodemesh.Sfu.Loop.Invariant.{IsFabric, Kept-IsFabric, Reaches, Reaches_lem}
use nodemesh.Sfu.Loop.Separation.Target.{find_keyframe_target-lookup}
use nodemesh.Sfu.Loop.Isolation.{find_publisher_room-lookup, once-delivered}

module _ (a : Sessions) (keeps : KeepsRooms a) (encode : List ℕ → Text)
    (decode : Text → Option (List ℕ)) (now : ℕ) where
  -- Both sessions asked for the same room.
  abbrev pub Together : State a → ℕ → ℕ → Type 0
  Together f i j =
      (k : Text) × (room_at a.room_of f.sessions i ≡ some k)
      × (room_at a.room_of f.sessions j ≡ some k)

  -- Only sessions that are in one room with the source are changed.
  abbrev pub StaysIn : State a → ℕ → State a → Type 0
  StaysIn f source g =
      (j : ℕ) → (get_elem? g.sessions j ≡ get_elem? f.sessions j) ⊎ Together f source j

  StaysIn-trans :
      (f g h : State a) (source : ℕ)
      → SameRooms a.room_of f.sessions g.sessions
      → StaysIn f source g
      → StaysIn g source h
      → StaysIn f source h
  StaysIn-trans f g h source same p q j = elim (q j) [
    | inr (k, x, y) ↦ inr (k, sym (same.same_room source) ∙ x, sym (same.same_room j) ∙ y)
    | inl e ↦ elim (p j) [ inl e' ↦ inl (e ∙ e') | inr t ↦ inr t ]
  ]

  publish-StaysIn :
      (f : State a) (source : ℕ) (media : MediaData) (kind : MediaKind) (k : Text) (r : Room)
      → IsPlaced a.room_of f.sessions k r
      → r.publisher ≡ some source
      → StaysIn f source (publish encode now a.kind_of (deliver a now) f media kind r)
  unfolding publish
  publish-StaysIn f source media kind k r p e j =
      elim (once-delivered (λ s. (deliver a now media kind s).0) (count j r.subscribers)
        (get_elem? f.sessions j) _ (p.once j)
        (get_elem?-fan_out (deliver a now media kind) f.sessions r.subscribers j)) [
          | inl same ↦ inl same
          | inr (n, got) ↦ inr (k, p.published source e, p.subscribed j (omega arith))
        ]

  ask-StaysIn :
      (f : State a) (source p mid kind : ℕ) (k : Text) (r : Room)
      → IsPlaced a.room_of f.sessions k r
      → 0 < count source r.subscribers
      → r.publisher ≡ some p
      → StaysIn f source (record f {
        sessions =
            ask a.mid_of a.kind_of a.has_writer
              (λ s m. a.request_keyframe s m kind)
              f.sessions
              p
              mid;
      })
  ask-StaysIn f source p mid kind k r placed c b j = elim (Option-cases (get_elem? f.sessions p)) [
    | inl e ↦ inl (rw (e, ask) refl)
    | inr (s, e) ↦ elim (Bool-cases (a.has_writer s mid)) [
      | inr w ↦ inl (rw (e, ask) (rw w refl))
      | inl w ↦ elim (Bool-cases (p == j)) [
        | inl q ↦ inr (
          k,
          placed.subscribed source c,
          subst (λ i. room_at a.room_of f.sessions i ≡ some k) ((==_iff p j).0 q)
              (placed.published p b),
        )
        | inr q ↦ inl (rw (e, ask) (rw w (get_elem?-set_other f.sessions p j _ q)))
      ]
    ]
  ]

  StaysIn-some :
      (f : State a) (source : ℕ) {x g : State a}
      → StaysIn f source x
      → some x ≡ some g
      → StaysIn f source g
  StaysIn-some f source {x} p q = subst (StaysIn f source) (ap (λ o. unwrap_or o x) q) p

  process_event-StaysIn :
      (f g : State a) (source : ℕ) (e : SessionEvent)
      → source < length f.sessions
      → IsFabric a f
      → process_event a encode decode now f source e ≡ some g
      → StaysIn f source g
  unfolding process_event on_media_data on_keyframe_request
  process_event-StaysIn f g source (media_data media) n i h =
      let (s, hs) = get_elem?-below f.sessions source n in
      elim (Option-cases (a.kind_of s media.mid)) [
        | inl e ↦
            StaysIn-some f source (λ j. inl refl)
              (rw (e, on_media_data) at (rw (hs, on_media_data) at h))
        | inr (kind, e) ↦ elim (Option-cases (find_publisher_room f.rooms.rooms source)) [
          | inl q ↦
              StaysIn-some f source (λ j. inl refl)
                (rw (q, on_media_data) at (rw (e, on_media_data) at (rw (hs, on_media_data) at h)))
          | inr (room, q) ↦
              let (k, l, p) = find_publisher_room-lookup f.rooms.rooms source i.rooms.distinct q in
              StaysIn-some f source
                (publish-StaysIn f source media kind k room (i.placed k room l) p)
                (rw (q, on_media_data) at (rw (e, on_media_data) at (rw (hs, on_media_data) at h)))
        ]
      ]
  process_event-StaysIn f g source (keyframe_request mid kind) n i h =
      let (s, hs) = get_elem?-below f.sessions source n in
      elim (Option-cases (
        find_keyframe_target a.mid_of a.kind_of a.has_writer (λ s m. a.request_keyframe s m kind)
          f.sessions source s mid f.rooms.rooms)) [
            | inl e ↦
                StaysIn-some f source (λ j. inl refl)
                  (rw (e, on_keyframe_request) at (rw (hs, on_keyframe_request) at h))
            | inr ((p, pub_mid), e) ↦
                let (k, r, l, c, b) =
                  find_keyframe_target-lookup a.mid_of a.kind_of a.has_writer
                    (λ s m. a.request_keyframe s m kind) f.sessions source s mid f.rooms.rooms
                    i.rooms.distinct e in
                StaysIn-some f source (ask-StaysIn f source p pub_mid kind k r (i.placed k r l) c b)
                  (rw (e, on_keyframe_request) at (rw (hs, on_keyframe_request) at h))
          ]

  process_events-StaysIn :
      (f g : State a) (source : ℕ) (es : List SessionEvent)
      → source < length f.sessions
      → IsFabric a f
      → process_events a encode decode now f source es ≡ some g
      → StaysIn f source g
  unfolding process_events
  process_events-StaysIn f g source [] n i h = StaysIn-some f source (λ j. inl refl) h
  process_events-StaysIn f g source (e ∷ es) n i h =
      let (x, q, k) = process_event-Goes a keeps encode decode now f source e n in
      StaysIn-trans f x g source k.sessions (process_event-StaysIn f x source e n i q) (
        process_events-StaysIn x g source es (omega (arith, n, k.sessions.same_length))
          (Kept-IsFabric a f x k i)
          (ap (λ o. and_then o (λ f'. process_events a encode decode now f' source es)) (sym q)
            ∙ h))

  -- A datagram that comes between two turns of the loop changes nothing where no session accepts it. Else
  -- it changes the first session that does, and no other session but those in one room with it: so
  -- none at all where that session asked for no room. The operations on sessions have to leave them in
  -- their rooms.
  pub on_packet-isolated :
      {f f' : State a} (packet : a.Packet)
      → Reaches a encode decode f
      → on_packet a encode decode now f packet ≡ some f'
      → (f' ≡ f)
        ⊎ ((i : ℕ) × (position (λ s. a.accepts s (receive now packet)) f.sessions ≡ some i)
            × ((j : ℕ)
                → j ≢ i
                → (get_elem? f'.sessions j ≡ get_elem? f.sessions j)
                  ⊎ ((k : Text) × (room_at a.room_of f.sessions i ≡ some k)
                      × (room_at a.room_of f.sessions j ≡ some k))))
  unfolding on_packet
  on_packet-isolated {f} {f'} packet r h =
      let input : Input a.Packet = receive now packet in
      let fabric = (Reaches_lem a encode decode keeps r).0 in
      elim (Option-cases (position (λ s. a.accepts s input) f.sessions)) [
        | inl e ↦ inl (sym (ap (λ o. unwrap_or o f) (rw (e, on_packet) at h)))
        | inr (i, e) ↦
            let below =
              position-below a keeps encode decode now (λ s. a.accepts s input) f.sessions e in
            let (s, hs) = get_elem?-below f.sessions i below in
            let d = drive a now input s in
            let driven =
              transmit a encode decode now (record f { sessions = set f.sessions i d.session })
                d.transmits in
            let k =
              with_sessions-Kept a.room_of f (set f.sessions i d.session)
                (f.transmits ++ d.transmits)
                (set-SameRooms a.room_of f.sessions i d.session hs
                  (drive-room a keeps now input s)) in
            let p =
              process_events-StaysIn driven f' i d.events
                (omega (arith, length-set f.sessions i d.session, below))
                (Kept-IsFabric a f driven k fabric)
                (rw (hs, on_packet) at (rw (e, on_packet) at h)) in
            inr (
              i,
              e,
              λ j ne. elim (p j) [
                | inl q ↦
                    inl (
                      q
                      ∙ get_elem?-set_other f.sessions i j d.session (==_ne i j (λ x. ne (sym x))))
                | inr (name, x, y) ↦
                    inr (name, sym (k.sessions.same_room i) ∙ x, sym (k.sessions.same_room j) ∙ y)
              ],
            )
      ]
