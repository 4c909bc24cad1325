-- ===== src/Sfu/Loop/Order.antt =====
-- The order in which the maps of rooms and of relays are iterated, which Rust does not fix: what the
-- searches of `process_events` find in either order.
pub mod Events
pub mod Tables
pub mod Alike
pub mod Turns
pub mod Runs
use nodemesh.Base.{
  ℕ, ◌≡◌, ◌<◌, Bool, refl, ap, sym, ◌∙◌, inl, inr, true, List, [], ◌∷◌, Option, none, some, arith,
  if◌then◌else◌, Bool-cases, Option-cases, unwrap_or,
}
use nodemesh.Text.{Text}
use nodemesh.Dict.{Dict, lookup, Distinct}
use nodemesh.Dict.Order.{Agree, find_first, find_first-Agree, find_first-lookup, find_first-some}
use nodemesh.Sfu.Room.{Room, RoomRegistry, is_publisher, find_publisher_room}
use nodemesh.Sfu.Relay.{MediaKind, OutboundRelays}
use nodemesh.Sfu.Media.{Fabric, has_index, keyframe_target, find_keyframe_target}
use nodemesh.Sfu.Media.Delivery.{count, has_index-count}
use nodemesh.Sfu.Placement.{room_at, IsPlaced, ArePlaced}

module _ {ℓ κ} {S : Type ℓ} {T : Type κ} where
  -- The state with other maps.
  abbrev pub reorder : RoomRegistry → OutboundRelays → Fabric S T → Fabric S T
  reorder rooms relays f = record f { rooms = rooms; outbound_relays = relays }

  -- The other maps have the same entries.
  pub record IsReordering (f : Fabric S T) (rooms : RoomRegistry) (relays : OutboundRelays)
      : Type 0 where
    pub same_rooms : Agree f.rooms.rooms rooms.rooms
    pub same_relays : Agree f.outbound_relays.subscriptions relays.subscriptions

abbrev publishing : ℕ → Room → Option Room
publishing idx room = if is_publisher idx room.publisher then some room else none

find_publisher_room-find_first :
    (m : Dict Room) (idx : ℕ) → find_publisher_room m idx ≡ find_first (publishing idx) m
unfolding find_publisher_room find_first
find_publisher_room-find_first [] idx = refl
find_publisher_room-find_first ((k, room) ∷ m) idx =
    elim (Bool-cases (is_publisher idx room.publisher)) [
      | inl e ↦ rw (e, find_first) refl
      | inr e ↦ rw (e, find_first) (find_publisher_room-find_first m idx)
    ]

publishing-publisher :
    (idx : ℕ) (room : Room) {r : Room} → publishing idx room ≡ some r → room.publisher ≡ some idx
publishing-publisher idx room h = elim (Bool-cases (is_publisher idx room.publisher)) [
  | inl e ↦ publishes room.publisher e
  | inr e ↦ absurd (ground (arith, rw e at h))
]
  where
    publishes : (p : Option ℕ) → is_publisher idx p ≡ true → p ≡ some idx
    publishes none e = absurd (ground (arith, e))
    publishes (some i) e = ground arith

publisher-publishing :
    (idx : ℕ) (room : Room) → room.publisher ≡ some idx → publishing idx room ≡ some room
publisher-publishing idx room e = rw e (ground arith)

one_room {ℓ} :
    {S : Type ℓ} (room_of : S → Option Text) (sessions : List S) (i : ℕ) {k j : Text}
    → room_at room_of sessions i ≡ some k
    → room_at room_of sessions i ≡ some j
    → k ≡ j
one_room room_of sessions i {k} {j} p q = ap (λ o. unwrap_or o k) (sym p ∙ q)

module _ {ℓ} {S : Type ℓ} (room_of : S → Option Text) where
  -- The room in which a session publishes is found in either order.
  pub find_publisher_room-Agree :
      (sessions : List S) (rooms other : RoomRegistry) (idx : ℕ)
      → ArePlaced room_of sessions rooms
      → Agree rooms.rooms other.rooms
      → find_publisher_room other.rooms idx ≡ find_publisher_room rooms.rooms idx
  find_publisher_room-Agree sessions rooms other idx placed h =
      find_publisher_room-find_first other.rooms idx
      ∙ find_first-Agree (publishing idx) h (λ k j v w b c l p l' p'.
        one_room room_of sessions idx ((placed k v l).published idx (publishing-publisher idx v p))
          ((placed j w l').published idx (publishing-publisher idx w p')))
      ∙ sym (find_publisher_room-find_first rooms.rooms idx)

  -- The room in which a session publishes is the one that is found.
  pub find_publisher_room-published :
      (sessions : List S) (rooms : RoomRegistry) (idx : ℕ) (k : Text) (r : Room)
      → Distinct rooms.rooms
      → ArePlaced room_of sessions rooms
      → lookup k rooms.rooms ≡ some r
      → r.publisher ≡ some idx
      → find_publisher_room rooms.rooms idx ≡ some r
  find_publisher_room-published sessions rooms idx k r d placed l p =
      let picked : publishing idx r ≡ some r = publisher-publishing idx r p in
      let (c, f) = find_first-some (publishing idx) rooms.rooms k l picked in
      let (j, v, l', q) = find_first-lookup (publishing idx) rooms.rooms d f in
      let e =
        one_room room_of sessions idx ((placed k r l).published idx p)
          ((placed j v l').published idx (publishing-publisher idx v q)) in
      let same : r ≡ v = ap (λ o. unwrap_or o r) (sym l ∙ ap (λ x. lookup x rooms.rooms) e ∙ l') in
      find_publisher_room-find_first rooms.rooms idx
      ∙ f
      ∙ sym q
      ∙ ap (publishing idx) (sym same)
      ∙ picked

module _ {ℓ} {S : Type ℓ} (mid_of : S → MediaKind → Option ℕ) (kind_of : S → ℕ → Option MediaKind)
    (has_writer : S → ℕ → Bool) (request_keyframe : S → ℕ → S) where
  -- A room of the session that asks, with a publisher to ask.
  abbrev asking : List S → ℕ → S → ℕ → Room → Option (ℕ × ℕ)
  asking sessions source s mid room =
      if has_index source room.subscribers
      then keyframe_target mid_of kind_of has_writer request_keyframe sessions s mid room
      else none

  find_keyframe_target-find_first :
      (sessions : List S) (source : ℕ) (s : S) (mid : ℕ) (m : Dict Room)
      → find_keyframe_target mid_of kind_of has_writer request_keyframe sessions source s mid m
        ≡ find_first (asking sessions source s mid) m
  unfolding find_keyframe_target find_first
  find_keyframe_target-find_first sessions source s mid [] = refl
  find_keyframe_target-find_first sessions source s mid ((k, room) ∷ m) =
      let rest = find_keyframe_target-find_first sessions source s mid m in
      elim (Bool-cases (has_index source room.subscribers)) [
        | inl e ↦
            elim (Option-cases
              (keyframe_target mid_of kind_of has_writer request_keyframe sessions s mid room)) [
                | inl g ↦ rw (e, find_first) (rw (g, find_first) rest)
                | inr (t, g) ↦ rw (e, find_first) (rw (g, find_first) refl)
              ]
        | inr e ↦ rw (e, find_first) rest
      ]

  asking-subscriber :
      (sessions : List S) (source : ℕ) (s : S) (mid : ℕ) (room : Room) {t : ℕ × ℕ}
      → asking sessions source s mid room ≡ some t
      → 0 < count source room.subscribers
  asking-subscriber sessions source s mid room h =
      elim (Bool-cases (has_index source room.subscribers)) [
        | inl e ↦ has_index-count source room.subscribers e
        | inr e ↦ absurd (ground (arith, rw e at h))
      ]

  -- The publisher that is asked for a keyframe is found in either order.
  pub find_keyframe_target-Agree :
      (room_of : S → Option Text) (sessions : List S) (rooms other : RoomRegistry) (source : ℕ)
      (s : S) (mid : ℕ)
      → ArePlaced room_of sessions rooms
      → Agree rooms.rooms other.rooms
      → find_keyframe_target mid_of kind_of has_writer request_keyframe sessions source s mid
          other.rooms
        ≡ find_keyframe_target mid_of kind_of has_writer request_keyframe sessions source s mid
            rooms.rooms
  find_keyframe_target-Agree room_of sessions rooms other source s mid placed h =
      find_keyframe_target-find_first sessions source s mid other.rooms
      ∙ find_first-Agree (asking sessions source s mid) h (λ k j v w b c l p l' p'.
        one_room room_of sessions source
          ((placed k v l).subscribed source (asking-subscriber sessions source s mid v p))
          ((placed j w l').subscribed source (asking-subscriber sessions source s mid w p')))
      ∙ sym (find_keyframe_target-find_first sessions source s mid rooms.rooms)
