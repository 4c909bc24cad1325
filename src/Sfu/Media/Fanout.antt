-- ===== src/Sfu/Media/Fanout.antt =====
-- Media of a publisher, and packets of another node, reach the subscribers of their room.
use nodemesh.Base.{
  ℕ, ◌≡◌, ap, sym, append-nil, ◌∙◌, List, [], ◌++◌, Option, some, map, ◌%◌, ◌^◌, map_option,
  get_elem?, unwrap_or, inl, inr, Option-cases,
}
use nodemesh.Text.{Text}
use nodemesh.Dict.{lookup}
use nodemesh.Sfu.Room.{Room, find_publisher_room}
use nodemesh.Sfu.Relay.{
  MediaKind, RelayPacket, OutboundRelays, from_media_data, media_kind, decode_data, subscribers,
}
use nodemesh.Sfu.Relay.Table.{from_media_data_lem}
use nodemesh.Sfu.Command.{SfuEvent, relay_media}
use nodemesh.Sfu.Media.{
  MediaData, Fabric, after_fan_out, fan_out, to_nodes, publish, on_media_data, handle_relay_data,
}
use nodemesh.Sfu.Media.Delivery.{count, times, get_elem?-fan_out}

-- The packets for the nodes that have subscribed to a room.
abbrev pub relayed : OutboundRelays → Text → RelayPacket → List SfuEvent
relayed r room packet = map (λ n. relay_media n packet) (unwrap_or (subscribers r room) [])

-- Each session has had one delivery for every time its index stands among the room's subscribers.
abbrev pub IsDelivered {ℓ κ} :
    {S : Type ℓ} {T : Type κ} → (S → S × List T) → List ℕ → List S → List S → Type ℓ
IsDelivered step is before after =
    (j : ℕ)
    → get_elem? after j ≡ map_option (times (count j is) (λ s. (step s).0)) (get_elem? before j)

module _ {ℓ κ} {S : Type ℓ} {T : Type κ} where
  to_nodes-events :
      (f : Fabric S T) (room : Text) (packet : RelayPacket)
      → (to_nodes f room packet).events ≡ f.events ++ relayed f.outbound_relays room packet
  unfolding to_nodes
  to_nodes-events f room packet = elim (Option-cases (subscribers f.outbound_relays room)) [
    | inl e ↦ rw (e, to_nodes) (sym (append-nil f.events))
    | inr (nodes, e) ↦ rw (e, to_nodes)
  ]

-- Media of a session that publishes in a room are delivered to each session as often as its index stands
-- among the room's subscribers, so to no other session, and one packet of them goes to each node
-- that has subscribed to the room. The session, the kind of the media and the room have to be found.
pub on_media_data_lem {ℓ κ} :
    {S : Type ℓ} {T : Type κ} (encode : List ℕ → Text) (now_ms : ℕ)
    (kind_of : S → ℕ → Option MediaKind) (deliver : MediaData → MediaKind → S → S × List T)
    (f : Fabric S T) (source : ℕ) (media : MediaData) (s : S) (kind : MediaKind) (room : Room)
    → get_elem? f.sessions source ≡ some s
    → kind_of s media.mid ≡ some kind
    → find_publisher_room f.rooms.rooms source ≡ some room
    → (f' : Fabric S T) × (on_media_data encode now_ms kind_of deliver f source media ≡ some f')
      × IsDelivered (deliver media kind) room.subscribers f.sessions f'.sessions
      × (f'.events
          ≡ f.events
            ++ relayed f.outbound_relays room.name (
                from_media_data encode now_ms room.name kind media.pt
                  (media.numer % 2 ^ 32)
                  media.bytes))
unfolding on_media_data publish
on_media_data_lem encode now_ms kind_of deliver f source media s kind room hs hk hr = (
  publish encode now_ms kind_of deliver f media kind room,
  rw (hs, on_media_data) (rw (hk, on_media_data) (rw (hr, on_media_data))),
  λ j. get_elem?-fan_out (deliver media kind) f.sessions room.subscribers j,
  to_nodes-events f room.name
      (from_media_data encode now_ms room.name kind media.pt (media.numer % 2 ^ 32) media.bytes),
)

-- A packet of another node's publisher is delivered to each session as often as its index stands among
-- the subscribers of its room, with the bytes and the kind of the media it was made of, and to no
-- other session, where base64 decodes what it encodes and the room exists.
pub handle_relay_data_lem {ℓ κ} :
    {S : Type ℓ} {T : Type κ} (encode : List ℕ → Text) (decode : Text → Option (List ℕ))
    (deliver : RelayPacket → List ℕ → MediaKind → S → S × List T) (f : Fabric S T) (now_ms : ℕ)
    (name : Text) (kind : MediaKind) (pt time : ℕ) (bytes : List ℕ) (room : Room)
    → ((bytes : List ℕ) → decode (encode bytes) ≡ some bytes)
    → lookup name f.rooms.rooms ≡ some room
    → let packet = from_media_data encode now_ms name kind pt time bytes in
      IsDelivered
        (deliver packet bytes kind)
        room.subscribers
        f.sessions
        (handle_relay_data decode deliver f packet).sessions
unfolding handle_relay_data
handle_relay_data_lem encode decode deliver f now_ms name kind pt time bytes room h r j =
    let (k, d, n) = from_media_data_lem encode decode h now_ms name kind pt time bytes in
    let packet = from_media_data encode now_ms name kind pt time bytes in
    ap (λ (g : Fabric _ _). get_elem? g.sessions j)
      (found packet k d (ap (λ x. lookup x f.rooms.rooms) n ∙ r))
    ∙ get_elem?-fan_out (deliver packet bytes kind) f.sessions room.subscribers j
  where
    found :
        (p : RelayPacket)
        → media_kind p ≡ some kind
        → decode_data decode p ≡ some bytes
        → lookup p.room f.rooms.rooms ≡ some room
        → handle_relay_data decode deliver f p
          ≡ after_fan_out f (fan_out (deliver p bytes kind) f.sessions room.subscribers)
    found p k d l =
        rw (k, handle_relay_data) (rw (d, handle_relay_data) (rw (l, handle_relay_data)))
