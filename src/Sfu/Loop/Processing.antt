-- ===== src/Sfu/Loop/Processing.antt =====
-- The events of a session are processed to the end: no index is past the sessions.
use nodemesh.Base.{
  ℕ, zero, suc, ◌+◌, ◌≡◌, ◌≤◌, ◌<◌, refl, ap, sym, ◌∙◌, subst, inl, inr, Bool, List, [], ◌∷◌, ◌++◌,
  Option, some, arith, ◌%◌, ◌^◌, Bool-cases, Option-cases, and_then, get_elem?, set, length,
  is_empty, All,
}
use nodemesh.Text.{Text}
use nodemesh.Dict.{lookup}
use nodemesh.Sfu.Room.{Room, find_publisher_room}
use nodemesh.Sfu.Relay.{MediaKind, RelayPacket, media_kind, decode_data, from_media_data}
use nodemesh.Sfu.Media.{
  MediaData, publish, on_media_data, find_keyframe_target, ask, on_keyframe_request,
  handle_relay_data,
}
use nodemesh.Sfu.Media.Delivery.{length-set}
use nodemesh.Sfu.Session.{SessionEvent, media_data, keyframe_request}
use nodemesh.Sfu.WebRtc.{timeout, receive}
use nodemesh.Sfu.Sessions.{Sessions, KeepsRooms}
use nodemesh.Sfu.Loop.{
  State, deliver, deliver_packet, process_event, process_events, drive, transmit, position,
  on_packet, drive_all, process_all, on_tick,
}
use nodemesh.Sfu.Loop.Writing.{deliver-room, deliver_packet-room, drive-room}
use nodemesh.Sfu.Loop.Kept.{
  SameRooms, SameRooms-refl, set-SameRooms, cons-SameRooms, Kept, Kept-refl, Kept-trans,
  with_sessions-Kept, to_nodes-Kept, after_fan_out-Kept,
}

pub get_elem?-below {ℓ} :
    {S : Type ℓ} (ss : List S) (i : ℕ) → i < length ss → (s : S) × (get_elem? ss i ≡ some s)
get_elem?-below [] i h = absurd (omega arith)
get_elem?-below (s ∷ ss) zero h = (s, refl)
get_elem?-below (s ∷ ss) (suc i) h = get_elem?-below ss i (omega arith)

module _ (a : Sessions) (keeps : KeepsRooms a) (now : ℕ) where
  -- A result that is no panic, and what it keeps.
  abbrev pub Goes : State a → Option (State a) → Type 0
  Goes f o = (f' : State a) × (o ≡ some f') × Kept a.room_of f f'

module _ (a : Sessions) (keeps : KeepsRooms a) (encode : List ℕ → Text)
    (decode : Text → Option (List ℕ)) (now : ℕ) where
  here : (f : State a) → Goes a keeps now f (some f)
  here f = (f, refl, Kept-refl a.room_of f)

  and_then-Goes :
      (f : State a) (o : Option (State a)) (next : State a → Option (State a))
      → Goes a keeps now f o
      → ((f' : State a) → Kept a.room_of f f' → Goes a keeps now f' (next f'))
      → Goes a keeps now f (and_then o next)
  and_then-Goes f o next (g, e, k) h =
      let (g', e', k') = h g k in
      (g', ap (λ x. and_then x next) e ∙ e', Kept-trans a.room_of f g g' k k')

  -- Sessions were driven and their packets sent; then the rest goes on.
  after_drive :
      (f : State a) (ss : List a.S) (ts : List a.T) (o : Option (State a))
      → SameRooms a.room_of f.sessions ss
      → Goes a keeps now (transmit a encode decode now (record f { sessions = ss }) ts) o
      → Goes a keeps now f o
  after_drive f ss ts o k (g, e, k') = (
    g,
    e,
    Kept-trans a.room_of f (transmit a encode decode now (record f { sessions = ss }) ts) g
        (with_sessions-Kept a.room_of f ss (f.transmits ++ ts) k) k',
  )

  publish-Kept :
      (f : State a) (media : MediaData) (kind : MediaKind) (room : Room)
      → Kept a.room_of f (publish encode now a.kind_of (deliver a now) f media kind room)
  unfolding publish
  publish-Kept f media kind room =
      let packet =
        from_media_data encode now room.name kind media.pt (media.numer % 2 ^ 32) media.bytes in
      let k = to_nodes-Kept a.room_of f room.name packet in
      let g =
        after_fan_out-Kept a.room_of f (deliver a now media kind) room.subscribers
          (deliver-room a keeps now media kind) in
      record { sessions = g.sessions; rooms = k.rooms; relays = k.relays }

  ask-SameRooms :
      (ss : List a.S) (p mid kind : ℕ)
      → SameRooms a.room_of ss
          (ask a.mid_of a.kind_of a.has_writer (λ s m. a.request_keyframe s m kind) ss p mid)
  ask-SameRooms ss p mid kind = elim (Option-cases (get_elem? ss p)) [
    | inl e ↦ rw (e, ask) (SameRooms-refl a.room_of ss)
    | inr (s, e) ↦ elim (Bool-cases (a.has_writer s mid)) [
      | inl f ↦
          rw (e, ask)
            (rw f (
              set-SameRooms a.room_of ss p (a.request_keyframe s mid kind) e
                (keeps.request_keyframe_room s mid kind)))
      | inr f ↦ rw (e, ask) (rw f (SameRooms-refl a.room_of ss))
    ]
  ]

  pub process_event-Goes :
      (f : State a) (source : ℕ) (e : SessionEvent)
      → source < length f.sessions
      → Goes a keeps now f (process_event a encode decode now f source e)
  unfolding process_event on_media_data on_keyframe_request
  process_event-Goes f source (media_data media) h =
      let (s, hs) = get_elem?-below f.sessions source h in
      elim (Option-cases (a.kind_of s media.mid)) [
        | inl e ↦ rw (hs, on_media_data) (rw (e, on_media_data) (here f))
        | inr (kind, e) ↦ elim (Option-cases (find_publisher_room f.rooms.rooms source)) [
          | inl g ↦ rw (hs, on_media_data) (rw (e, on_media_data) (rw (g, on_media_data) (here f)))
          | inr (room, g) ↦
              rw (hs, on_media_data)
                (rw (e, on_media_data)
                  (rw (g, on_media_data) (_, refl, publish-Kept f media kind room)))
        ]
      ]
  process_event-Goes f source (keyframe_request mid kind) h =
      let (s, hs) = get_elem?-below f.sessions source h in
      elim (Option-cases (
        find_keyframe_target a.mid_of a.kind_of a.has_writer (λ s m. a.request_keyframe s m kind)
          f.sessions source s mid f.rooms.rooms)) [
            | inl e ↦ rw (hs, on_keyframe_request) (rw (e, on_keyframe_request) (here f))
            | inr ((p, pub_mid), e) ↦
                rw (hs, on_keyframe_request)
                  (rw (e, on_keyframe_request)
                    (
                      _,
                      refl,
                      with_sessions-Kept a.room_of f _ f.transmits
                          (ask-SameRooms f.sessions p pub_mid kind),
                    ))
          ]

  pub process_events-Goes :
      (f : State a) (source : ℕ) (es : List SessionEvent)
      → source < length f.sessions
      → Goes a keeps now f (process_events a encode decode now f source es)
  unfolding process_events
  process_events-Goes f source [] h = here f
  process_events-Goes f source (e ∷ es) h =
      and_then-Goes f (process_event a encode decode now f source e)
        (λ f'. process_events a encode decode now f' source es) (process_event-Goes f source e h)
        (λ f' k. process_events-Goes f' source es (omega (arith, h, k.sessions.same_length)))

  pub process_all-Goes :
      (f : State a) (all : List (ℕ × List SessionEvent))
      → All (λ e. e.0 < length f.sessions) all
      → Goes a keeps now f (process_all a encode decode now f all)
  unfolding process_all
  process_all-Goes f [] h = here f
  process_all-Goes f ((source, es) ∷ rest) h =
      and_then-Goes f (process_events a encode decode now f source es)
        (λ f'. process_all a encode decode now f' rest) (process_events-Goes f source es h.0)
        (λ f' k.
          process_all-Goes f' rest
            (subst (λ n. All (λ e. e.0 < n) rest) (sym k.sessions.same_length) h.1))

  pub position-below :
      (test : a.S → Bool) (ss : List a.S) {i : ℕ} → position test ss ≡ some i → i < length ss
  unfolding position
  position-below test [] e = absurd (ground (arith, e))
  position-below test (s ∷ ss) {i} e = elim (Option-cases (position test ss)) [
    | inl q ↦ ground (arith, e, q)
    | inr (j, q) ↦ ground (arith, e, q, position-below test ss q)
  ]

  pub on_packet-Goes :
      (f : State a) (packet : a.Packet)
      → Goes a keeps now f (on_packet a encode decode now f packet)
  unfolding on_packet
  on_packet-Goes f packet =
      elim (Option-cases (position (λ s. a.accepts s (receive now packet)) f.sessions)) [
        | inl e ↦ rw (e, on_packet) (here f)
        | inr (i, e) ↦
            let (s, hs) = get_elem?-below f.sessions i (position-below _ f.sessions e) in
            rw (e, on_packet)
              (rw (hs, on_packet)
                (after_drive f (set f.sessions i (drive a now (receive now packet) s).session)
                  (drive a now (receive now packet) s).transmits _
                  (set-SameRooms a.room_of f.sessions i _ hs
                    (drive-room a keeps now (receive now packet) s))
                  (process_events-Goes _ i (drive a now (receive now packet) s).events (
                    omega (
                      arith,
                      length-set f.sessions i (drive a now (receive now packet) s).session,
                      position-below _ f.sessions e,
                    )))))
      ]

  pub drive_all-SameRooms :
      (i : ℕ) (ss : List a.S) → SameRooms a.room_of ss (drive_all a encode decode now i ss).0
  unfolding drive_all
  drive_all-SameRooms i [] = SameRooms-refl a.room_of []
  drive_all-SameRooms i (s ∷ ss) =
      cons-SameRooms a.room_of s (drive a now (timeout now) s).session ss _
        (drive-room a keeps now (timeout now) s) (drive_all-SameRooms (i + 1) ss)

  pub drive_all-below :
      (i n : ℕ) (ss : List a.S)
      → i + length ss ≤ n
      → All (λ e. e.0 < n) (drive_all a encode decode now i ss).2
  unfolding drive_all
  drive_all-below i n [] h = tt
  drive_all-below i n (s ∷ ss) h =
      let rest = drive_all-below (i + 1) n ss (omega arith) in
      elim (Bool-cases (is_empty (drive a now (timeout now) s).events)) [
        | inl e ↦ rw e rest
        | inr e ↦ rw e (omega arith, rest)
      ]

  pub on_tick-Goes : (f : State a) → Goes a keeps now f (on_tick a encode decode now f)
  unfolding on_tick
  on_tick-Goes f =
      let k = drive_all-SameRooms 0 f.sessions in
      after_drive f _ (drive_all a encode decode now 0 f.sessions).1 _ k
        (process_all-Goes _ _ (drive_all-below 0 _ f.sessions (omega (arith, k.same_length))))

  pub relay-Kept :
      (f : State a) (packet : RelayPacket)
      → Kept a.room_of f (handle_relay_data decode (deliver_packet a now) f packet)
  unfolding handle_relay_data
  relay-Kept f packet = elim (Option-cases (media_kind packet)) [
    | inl e ↦ rw (e, handle_relay_data) (Kept-refl a.room_of f)
    | inr (kind, e) ↦ elim (Option-cases (decode_data decode packet)) [
      | inl g ↦ rw (e, handle_relay_data) (rw (g, handle_relay_data) (Kept-refl a.room_of f))
      | inr (bytes, g) ↦ elim (Option-cases (lookup packet.room f.rooms.rooms)) [
        | inl q ↦
            rw (e, handle_relay_data)
              (rw (g, handle_relay_data) (rw (q, handle_relay_data) (Kept-refl a.room_of f)))
        | inr (room, q) ↦
            rw (e, handle_relay_data)
              (rw (g, handle_relay_data)
                (rw (q, handle_relay_data)
                  (after_fan_out-Kept a.room_of f (deliver_packet a now packet bytes kind)
                    room.subscribers (deliver_packet-room a keeps now packet bytes kind))))
      ]
    ]
  ]
