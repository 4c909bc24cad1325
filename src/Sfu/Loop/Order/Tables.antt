-- ===== src/Sfu/Loop/Order/Tables.antt =====
-- The operations on rooms and relays, on maps with the same entries in another order.
use nodemesh.Base.{
  ℕ, zero, suc, ◌+◌, ◌≡◌, ap, sym, ◌∙◌, subst, inl, inr, Bool, List, Option, none, some, arith,
  Bool-cases, Option-cases, and_then, unwrap_or, is_empty, get_elem?,
}
use nodemesh.Text.{Text}
use nodemesh.Dict.{lookup}
use nodemesh.Dict.Order.{Agree, insert-Agree, remove-Agree}
use nodemesh.Sfu.Room.{Role, RoomRegistry, new_room, enter, join, leave, remove_session}
use nodemesh.Sfu.Room.Registry.{occupied, lookup-remove_session, remove_session-Distinct}
use nodemesh.Sfu.Room.Indices.{remove_at}
use nodemesh.Sfu.Relay.{OutboundRelays, insert_node, remove_node, subscribe, unsubscribe}
use nodemesh.Sfu.Cleanup.{cleanup}
use nodemesh.Sfu.Loop.{join_room}

-- Maps of rooms, and tables of relays, with the same entries.
abbrev pub AgreeRooms : RoomRegistry → RoomRegistry → Type 0
AgreeRooms r r' = Agree r.rooms r'.rooms

abbrev pub AgreeRelays : OutboundRelays → OutboundRelays → Type 0
AgreeRelays r r' = Agree r.subscriptions r'.subscriptions

join-Agree :
    {r r' : RoomRegistry} (name : Text) (idx : ℕ) (role : Role)
    → AgreeRooms r r'
    → AgreeRooms (join r name idx role) (join r' name idx role)
unfolding join
join-Agree {r} {r'} name idx role h =
    rw (h.same name)
      (insert-Agree name (enter role idx (unwrap_or (lookup name r.rooms) (new_room name))) h)

pub join_room-Agree :
    {r r' : RoomRegistry} (idx : ℕ) (room : Option Text) (role : Option Role)
    → AgreeRooms r r'
    → AgreeRooms (join_room r idx room role) (join_room r' idx room role)
unfolding join_room
join_room-Agree idx (some name) (some role) h = join-Agree name idx role h
join_room-Agree idx none (some role) h = h
join_room-Agree idx (some name) none h = h
join_room-Agree idx none none h = h

remove_session-Agree :
    {r r' : RoomRegistry} (i : ℕ)
    → AgreeRooms r r'
    → AgreeRooms (remove_session r i) (remove_session r' i)
remove_session-Agree {r} {r'} i h = record {
  distinct = remove_session-Distinct r i h.distinct;
  other_distinct = remove_session-Distinct r' i h.other_distinct;
  same = λ k.
      lookup-remove_session r' i k h.other_distinct
      ∙ ap (λ o. and_then o (λ room. occupied (leave i room))) (h.same k)
      ∙ sym (lookup-remove_session r i k h.distinct);
}

pub subscribe-Agree :
    {r r' : OutboundRelays} (room node : Text)
    → AgreeRelays r r'
    → AgreeRelays (subscribe r room node) (subscribe r' room node)
unfolding subscribe
subscribe-Agree {r} {r'} room node h =
    rw (h.same room)
      (insert-Agree room (insert_node node (unwrap_or (lookup room r.subscriptions) _)) h)

pub unsubscribe-Agree :
    {r r' : OutboundRelays} (room node : Text)
    → AgreeRelays r r'
    → AgreeRelays (unsubscribe r room node) (unsubscribe r' room node)
unfolding unsubscribe
unsubscribe-Agree {r} {r'} room node h = elim (Option-cases (lookup room r.subscriptions)) [
  | inl e ↦ rw (h.same room, e, unsubscribe) h
  | inr (nodes, e) ↦ elim (Bool-cases (is_empty (remove_node node nodes))) [
    | inl v ↦ rw (h.same room, e, unsubscribe) (rw (v, unsubscribe) (remove-Agree room h))
    | inr v ↦
        rw (h.same room, e, unsubscribe)
          (rw (v, unsubscribe) (insert-Agree room (remove_node node nodes) h))
  ]
]

-- The cleanup loop removes the same sessions, and leaves the same rooms.
pub cleanup-Agree {ℓ} :
    {S : Type ℓ} (is_alive : S → Bool) (fuel i : ℕ) (ss : List S) {r r' : RoomRegistry}
    {ss' : List S} {q : RoomRegistry}
    → AgreeRooms r r'
    → cleanup is_alive fuel i ss r ≡ some (ss', q)
    → (q' : RoomRegistry) × (cleanup is_alive fuel i ss r' ≡ some (ss', q')) × AgreeRooms q q'
unfolding cleanup
cleanup-Agree is_alive zero i ss h e = absurd (ground (arith, e))
cleanup-Agree is_alive (suc fuel) i ss {r} {r'} {ss'} {q} h e =
    elim (Option-cases (get_elem? ss i)) [
      | inl g ↦
          let done : some (ss, r) ≡ some (ss', q) = rw (g, cleanup) at e in
          let pair = ap (λ o. unwrap_or o (ss, r)) done in
          (
            r',
            rw (g, cleanup) (ap (λ (p : List _ × RoomRegistry). some (p.0, r')) pair),
            subst (λ (p : List _ × RoomRegistry). AgreeRooms p.1 r') pair h,
          )
      | inr (s, g) ↦ elim (Bool-cases (is_alive s)) [
        | inl b ↦
            let (q', run, k) =
              cleanup-Agree is_alive fuel (i + 1) ss h
                (rw (b, cleanup) at (rw (g, cleanup) at e)) in
            (q', rw (g, cleanup) (rw (b, cleanup) run), k)
        | inr b ↦
            let (q', run, k) =
              cleanup-Agree is_alive fuel i (remove_at ss i) (remove_session-Agree i h)
                (rw (b, cleanup) at (rw (g, cleanup) at e)) in
            (q', rw (g, cleanup) (rw (b, cleanup) run), k)
      ]
    ]
