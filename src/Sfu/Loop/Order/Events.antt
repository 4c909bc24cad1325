-- ===== src/Sfu/Loop/Order/Events.antt =====
-- Events, datagrams, ticks and relay packets leave rooms and relays alone, and do the same whatever
-- the order of the maps.
use nodemesh.Base.{
  ℕ, ◌≡◌, ◌<◌, refl, ap, sym, subst, inl, inr, List, [], ◌∷◌, ◌++◌, Option, some, arith,
  Option-cases, map_option, get_elem?, set, length, All,
}
use nodemesh.Text.{Text}
use nodemesh.Dict.{lookup}
use nodemesh.Dict.Order.{Agree}
use nodemesh.Sfu.Room.{Room, RoomRegistry, find_publisher_room}
use nodemesh.Sfu.Relay.{
  MediaKind, RelayPacket, OutboundRelays, subscribers, media_kind, decode_data,
}
use nodemesh.Sfu.Media.{
  Fabric, MediaData, to_nodes, after_fan_out, fan_out, publish, on_media_data, find_keyframe_target,
  on_keyframe_request, handle_relay_data,
}
use nodemesh.Sfu.Session.{SessionEvent, media_data, keyframe_request}
use nodemesh.Sfu.WebRtc.{Input, receive}
use nodemesh.Sfu.Media.Delivery.{length-set}
use nodemesh.Sfu.Sessions.{Sessions, KeepsRooms}
use nodemesh.Sfu.Loop.{
  State, deliver, deliver_packet, process_event, process_events, process_all, transmit, drive,
  drive_all, position, on_packet, on_tick,
}
use nodemesh.Sfu.Loop.Kept.{Kept, set-SameRooms, with_sessions-Kept}
use nodemesh.Sfu.Loop.Writing.{drive-room}
use nodemesh.Sfu.Loop.Processing.{
  get_elem?-below, process_event-Goes, process_events-Goes, position-below, drive_all-SameRooms,
  drive_all-below,
}
use nodemesh.Sfu.Loop.Invariant.{IsFabric, Kept-IsFabric}
use nodemesh.Sfu.Loop.Order.{
  reorder, IsReordering, find_publisher_room-Agree, find_keyframe_target-Agree,
}

module _ {ℓ κ} {S : Type ℓ} {T : Type κ} (rooms : RoomRegistry) (relays : OutboundRelays) where
  to_nodes-reorder :
      (f : Fabric S T) (room : Text) (packet : RelayPacket)
      → Agree f.outbound_relays.subscriptions relays.subscriptions
      → to_nodes (reorder rooms relays f) room packet
        ≡ reorder rooms relays (to_nodes f room packet)
  unfolding to_nodes subscribers
  to_nodes-reorder f room packet h =
      elim (Option-cases (lookup room f.outbound_relays.subscriptions)) [
        | inl e ↦ rw (h.same room, e, to_nodes) refl
        | inr (nodes, e) ↦ rw (h.same room, e, to_nodes) refl
      ]

module _ (a : Sessions) (encode : List ℕ → Text) (decode : Text → Option (List ℕ)) (now : ℕ)
    (rooms : RoomRegistry) (relays : OutboundRelays) where
  abbrev over : Option (State a) → Option (State a)
  over o = map_option (reorder rooms relays) o

  publish-reorder :
      (f : State a) (media : MediaData) (kind : MediaKind) (room : Room)
      → IsReordering f rooms relays
      → publish encode now a.kind_of (deliver a now) (reorder rooms relays f) media kind room
        ≡ reorder rooms relays (publish encode now a.kind_of (deliver a now) f media kind room)
  unfolding publish
  publish-reorder f media kind room h =
      ap (λ g. after_fan_out g (fan_out (deliver a now media kind) f.sessions room.subscribers))
        (to_nodes-reorder rooms relays f room.name _ h.same_relays)

  process_event-reorder :
      (f : State a) (source : ℕ) (e : SessionEvent)
      → IsFabric a f
      → IsReordering f rooms relays
      → process_event a encode decode now (reorder rooms relays f) source e
        ≡ over (process_event a encode decode now f source e)
  unfolding process_event on_media_data on_keyframe_request
  process_event-reorder f source (media_data media) i h =
      elim (Option-cases (get_elem? f.sessions source)) [
        | inl e ↦ rw (e, on_media_data) refl
        | inr (s, e) ↦ elim (Option-cases (a.kind_of s media.mid)) [
          | inl g ↦ rw (e, on_media_data) (rw (g, on_media_data) refl)
          | inr (kind, g) ↦
              let q =
                find_publisher_room-Agree a.room_of f.sessions f.rooms rooms source i.placed
                  h.same_rooms in
              elim (Option-cases (find_publisher_room f.rooms.rooms source)) [
                | inl p ↦
                    rw (e, on_media_data) (rw (g, on_media_data) (rw (q, p, on_media_data) refl))
                | inr (room, p) ↦
                    rw (e, on_media_data)
                      (rw (g, on_media_data)
                        (rw (q, p, on_media_data) (ap some (publish-reorder f media kind room h))))
              ]
        ]
      ]
  process_event-reorder f source (keyframe_request mid kind) i h =
      elim (Option-cases (get_elem? f.sessions source)) [
        | inl e ↦ rw (e, on_keyframe_request) refl
        | inr (s, e) ↦
            let q =
              find_keyframe_target-Agree a.mid_of a.kind_of a.has_writer
                (λ s m. a.request_keyframe s m kind) a.room_of f.sessions f.rooms rooms source s mid
                i.placed h.same_rooms in
            elim (Option-cases (
              find_keyframe_target a.mid_of a.kind_of a.has_writer
                (λ s m. a.request_keyframe s m kind) f.sessions source s mid f.rooms.rooms)) [
                  | inl p ↦ rw (e, on_keyframe_request) (rw (q, p, on_keyframe_request) refl)
                  | inr (t, p) ↦ rw (e, on_keyframe_request) (rw (q, p, on_keyframe_request) refl)
                ]
      ]

module _ (a : Sessions) (keeps : KeepsRooms a) (encode : List ℕ → Text)
    (decode : Text → Option (List ℕ)) (now : ℕ) (rooms : RoomRegistry)
    (relays : OutboundRelays) where
  pub Kept-IsReordering :
      (f f' : State a)
      → Kept a.room_of f f'
      → IsReordering f rooms relays
      → IsReordering f' rooms relays
  Kept-IsReordering f f' k h = record {
    same_rooms = subst (λ r. Agree r.rooms rooms.rooms) (sym k.rooms) h.same_rooms;
    same_relays =
        subst (λ r. Agree r.subscriptions relays.subscriptions) (sym k.relays) h.same_relays;
  }

  process_events-reorder :
      (f : State a) (source : ℕ) (es : List SessionEvent)
      → source < length f.sessions
      → IsFabric a f
      → IsReordering f rooms relays
      → process_events a encode decode now (reorder rooms relays f) source es
        ≡ over a encode decode now rooms relays (process_events a encode decode now f source es)
  unfolding process_events
  process_events-reorder f source [] n i h = refl
  process_events-reorder f source (e ∷ es) n i h =
      let (g, q, k) = process_event-Goes a keeps encode decode now f source e n in
      rw (process_event-reorder a encode decode now rooms relays f source e i h, q)
        (process_events-reorder g source es (omega (arith, n, k.sessions.same_length))
          (Kept-IsFabric a f g k i) (Kept-IsReordering f g k h))

  process_all-reorder :
      (f : State a) (all : List (ℕ × List SessionEvent))
      → All (λ e. e.0 < length f.sessions) all
      → IsFabric a f
      → IsReordering f rooms relays
      → process_all a encode decode now (reorder rooms relays f) all
        ≡ over a encode decode now rooms relays (process_all a encode decode now f all)
  unfolding process_all
  process_all-reorder f [] n i h = refl
  process_all-reorder f ((source, es) ∷ rest) n i h =
      let (g, q, k) = process_events-Goes a keeps encode decode now f source es n.0 in
      rw (process_events-reorder f source es n.0 i h, q)
        (process_all-reorder g rest
          (subst (λ m. All (λ e. e.0 < m) rest) (sym k.sessions.same_length) n.1)
          (Kept-IsFabric a f g k i) (Kept-IsReordering f g k h))

  -- Sessions were driven and their packets sent.
  driven-IsReordering :
      (f : State a) (ss : List a.S) (ts : List a.T)
      → IsReordering f rooms relays
      → IsReordering (transmit a encode decode now (record f { sessions = ss }) ts) rooms relays
  driven-IsReordering f ss ts h = record { same_rooms = h.same_rooms; same_relays = h.same_relays }

  pub on_packet-reorder :
      (f : State a) (packet : a.Packet)
      → IsFabric a f
      → IsReordering f rooms relays
      → on_packet a encode decode now (reorder rooms relays f) packet
        ≡ over a encode decode now rooms relays (on_packet a encode decode now f packet)
  unfolding on_packet
  on_packet-reorder f packet i h =
      let input : Input a.Packet = receive now packet in
      elim (Option-cases (position (λ s. a.accepts s input) f.sessions)) [
        | inl e ↦ rw (e, on_packet) refl
        | inr (j, e) ↦
            let below =
              position-below a keeps encode decode now (λ s. a.accepts s input) f.sessions e in
            let (s, hs) = get_elem?-below f.sessions j below in
            let d = drive a now input s in
            let k =
              with_sessions-Kept a.room_of f (set f.sessions j d.session)
                (f.transmits ++ d.transmits)
                (set-SameRooms a.room_of f.sessions j d.session hs
                  (drive-room a keeps now input s)) in
            rw (e, on_packet)
              (rw (hs, on_packet)
                (process_events-reorder
                  (transmit a encode decode now (record f { sessions = set f.sessions j d.session })
                    d.transmits)
                  j d.events (omega (arith, length-set f.sessions j d.session, below))
                  (Kept-IsFabric a f _ k i) (driven-IsReordering f _ d.transmits h)))
      ]

  pub on_tick-reorder :
      (f : State a)
      → IsFabric a f
      → IsReordering f rooms relays
      → on_tick a encode decode now (reorder rooms relays f)
        ≡ over a encode decode now rooms relays (on_tick a encode decode now f)
  unfolding on_tick
  on_tick-reorder f i h =
      let all = drive_all a encode decode now 0 f.sessions in
      let same = drive_all-SameRooms a keeps encode decode now 0 f.sessions in
      let k = with_sessions-Kept a.room_of f all.0 (f.transmits ++ all.1) same in
      process_all-reorder _ all.2
        (drive_all-below a keeps encode decode now 0 _ f.sessions (omega (arith, same.same_length)))
        (Kept-IsFabric a f _ k i) (driven-IsReordering f all.0 all.1 h)

  pub handle_relay_data-reorder :
      (f : State a) (packet : RelayPacket)
      → IsReordering f rooms relays
      → handle_relay_data decode (deliver_packet a now) (reorder rooms relays f) packet
        ≡ reorder rooms relays (handle_relay_data decode (deliver_packet a now) f packet)
  unfolding handle_relay_data
  handle_relay_data-reorder f packet h = elim (Option-cases (media_kind packet)) [
    | inl e ↦ rw (e, handle_relay_data) refl
    | inr (kind, e) ↦ elim (Option-cases (decode_data decode packet)) [
      | inl g ↦ rw (e, handle_relay_data) (rw (g, handle_relay_data) refl)
      | inr (bytes, g) ↦ elim (Option-cases (lookup packet.room f.rooms.rooms)) [
        | inl q ↦
            rw (e, handle_relay_data)
              (rw (g, handle_relay_data)
                (rw (h.same_rooms.same packet.room, q, handle_relay_data) refl))
        | inr (room, q) ↦
            rw (e, handle_relay_data)
              (rw (g, handle_relay_data)
                (rw (h.same_rooms.same packet.room, q, handle_relay_data) refl))
      ]
    ]
  ]
