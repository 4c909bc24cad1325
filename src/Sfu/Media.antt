-- ===== src/Sfu/Media.antt =====
-- The fan-out of media: `process_events` and `handle_relay_data` in crates/sfu/src/lib.rs. A session drives
-- the WebRTC library, so its type and what is done with a writer are parameters: `mid_of` is a lookup
-- in `mid_by_kind` and `kind_of` the search for a mid in it, `has_writer` tells whether there is a
-- writer for a mid, and `drain` is `drain_outputs`, which gives packets to send. Sessions come out of
-- a step changed.
pub mod Delivery
pub mod Fanout
use nodemesh.Base.{
  ℕ, ◌%◌, ◌^◌, Bool, List, [], ◌∷◌, ◌++◌, Option, none, some, map, ◌==◌, ◌||◌, true, false,
  if◌then◌else◌, and_then, map_option, get_elem?, set,
}
use nodemesh.Text.{Text}
use nodemesh.Dict.{Dict, lookup}
use nodemesh.Sfu.Room.{Room, RoomRegistry, find_publisher_room}
use nodemesh.Sfu.Relay.{
  MediaKind, RelayPacket, OutboundRelays, from_media_data, media_kind, decode_data, subscribers,
}
use nodemesh.Sfu.Command.{SfuEvent, relay_media}

-- What the source reads of media that a session received; `numer` and `frequency` are the media time.
pub record MediaData : Type 0 where
  pub mid : ℕ
  pub pt : ℕ
  pub numer : ℕ
  pub frequency : ℕ
  pub network_time : ℕ
  pub bytes : List ℕ

abbrev pub has_index : ℕ → List ℕ → Bool
has_index i [] = false
has_index i (j ∷ js) = j == i || has_index i js

module _ {ℓ κ} {S : Type ℓ} {T : Type κ} (mid_of : S → MediaKind → Option ℕ)
    (has_writer : S → ℕ → Bool) (drain : S → S × List T) where
  -- One subscriber: its mid, its writer, the payload type, the write and the drain. The packets to
  -- send come with the session.
  unfoldable pub write_to :
      (pt_of : S → ℕ → Option ℕ) (write : S → ℕ → ℕ → S) → MediaKind → S → S × List T
  write_to pt_of write kind s = elim (mid_of s kind) [
    | none ↦ (s, [])
    | some mid ↦
        if has_writer s mid
        then elim (pt_of s mid) [ none ↦ (s, []) | some pt ↦ drain (write s mid pt) ]
        else (s, [])
  ]

module _ {ℓ κ} {S : Type ℓ} {T : Type κ} (step : S → S × List T) where
  -- The loop over the subscribers, an index past the sessions is passed over.
  unfoldable pub fan_out : List S → List ℕ → List S × List T
  fan_out sessions [] = (sessions, [])
  fan_out sessions (i ∷ is) = elim (get_elem? sessions i) [
    | none ↦ fan_out sessions is
    | some s ↦ let rest = fan_out (set sessions i (step s).0) is in (rest.0, (step s).1 ++ rest.1)
  ]

-- The state that the loop of the SFU hands on.
pub record Fabric {ℓ κ} (S : Type ℓ) (T : Type κ) : Type (ℓ ⊔ κ) where
  pub sessions : List S
  pub rooms : RoomRegistry
  pub outbound_relays : OutboundRelays
  pub events : List SfuEvent
  pub transmits : List T

module _ {ℓ κ} {S : Type ℓ} {T : Type κ} where
  abbrev pub after_fan_out : Fabric S T → List S × List T → Fabric S T
  after_fan_out f (sessions, out) = record f { sessions = sessions; transmits = f.transmits ++ out }

  -- One packet for each node that has subscribed to the room.
  unfoldable pub to_nodes : Fabric S T → Text → RelayPacket → Fabric S T
  unfolding subscribers
  to_nodes f room packet = elim (subscribers f.outbound_relays room) [
    | none ↦ f
    | some nodes ↦ record f { events = f.events ++ map (λ n. relay_media n packet) nodes }
  ]

module _ {ℓ κ} {S : Type ℓ} {T : Type κ} (encode : List ℕ → Text) (now_ms : ℕ)
    (kind_of : S → ℕ → Option MediaKind) (deliver : MediaData → MediaKind → S → S × List T) where
  unfoldable pub publish : Fabric S T → MediaData → MediaKind → Room → Fabric S T
  unfolding to_nodes fan_out from_media_data
  publish f media kind room =
      after_fan_out
        (to_nodes f room.name (
          from_media_data encode now_ms room.name kind media.pt (media.numer % 2 ^ 32) media.bytes))
        (fan_out (deliver media kind) f.sessions room.subscribers)

  -- The arm for media of session `source`; `none` is the panic of an index past the sessions.
  unfoldable pub on_media_data : Fabric S T → ℕ → MediaData → Option (Fabric S T)
  unfolding publish find_publisher_room
  on_media_data f source media = elim (get_elem? f.sessions source) [
    | none ↦ none
    | some s ↦ elim (kind_of s media.mid) [
      | none ↦ some f
      | some kind ↦ elim (find_publisher_room f.rooms.rooms source) [
        | none ↦ some f
        | some room ↦ some (publish f media kind room)
      ]
    ]
  ]

module _ {ℓ} {S : Type ℓ} (mid_of : S → MediaKind → Option ℕ) (kind_of : S → ℕ → Option MediaKind)
    (has_writer : S → ℕ → Bool) (request_keyframe : S → ℕ → S) where
  -- The publisher that a room's subscriber `s` asks, with the mid to ask for.
  abbrev pub keyframe_target : List S → S → ℕ → Room → Option (ℕ × ℕ)
  keyframe_target sessions s mid room = and_then room.publisher (λ p.
      and_then (get_elem? sessions p) (λ publisher.
        and_then (kind_of s mid)
          (λ kind. map_option (λ pub_mid. (p, pub_mid)) (mid_of publisher kind))))

  -- The loop over the rooms, which ends with the first publisher that can be asked.
  unfoldable pub find_keyframe_target : List S → ℕ → S → ℕ → Dict Room → Option (ℕ × ℕ)
  find_keyframe_target sessions source s mid [] = none
  find_keyframe_target sessions source s mid ((name, room) ∷ m) =
      let rest = find_keyframe_target sessions source s mid m in
      if has_index source room.subscribers
      then elim (keyframe_target sessions s mid room) [ none ↦ rest | some t ↦ some t ]
      else rest

  abbrev pub ask : List S → ℕ → ℕ → List S
  ask sessions p mid = elim (get_elem? sessions p) [
    | none ↦ sessions
    | some s ↦ if has_writer s mid then set sessions p (request_keyframe s mid) else sessions
  ]

  -- The arm for a keyframe request of session `source`. The source indexes the sessions only in a room of
  -- the session that has a publisher; here a source past the sessions panics at once.
  unfoldable pub on_keyframe_request {κ} : {T : Type κ} → Fabric S T → ℕ → ℕ → Option (Fabric S T)
  unfolding find_keyframe_target
  on_keyframe_request f source mid = elim (get_elem? f.sessions source) [
    | none ↦ none
    | some s ↦ elim (find_keyframe_target f.sessions source s mid f.rooms.rooms) [
      | none ↦ some f
      | some (p, pub_mid) ↦ some (record f { sessions = ask f.sessions p pub_mid })
    ]
  ]

module _ {ℓ κ} {S : Type ℓ} {T : Type κ} (decode : Text → Option (List ℕ))
    (deliver : RelayPacket → List ℕ → MediaKind → S → S × List T) where
  unfoldable pub handle_relay_data : Fabric S T → RelayPacket → Fabric S T
  unfolding media_kind decode_data lookup fan_out
  handle_relay_data f packet = elim (media_kind packet) [
    | none ↦ f
    | some kind ↦ elim (decode_data decode packet) [
      | none ↦ f
      | some media ↦ elim (lookup packet.room f.rooms.rooms) [
        | none ↦ f
        | some room ↦
            after_fan_out f (fan_out (deliver packet media kind) f.sessions room.subscribers)
      ]
    ]
  ]
