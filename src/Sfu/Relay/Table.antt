-- ===== src/Sfu/Relay/Table.antt =====
-- The outbound relays as a relation between rooms and nodes, the inbound ones as a map, and the
-- content of a packet.
use nodemesh.Base.{
  ℕ, ◌≡◌, refl, ap, sym, ◌∙◌, inl, inr, Bool, false, not, ◌&&◌, ◌||◌, List, [], Option, none, some,
  arith, if◌then◌else◌, Bool-cases, Option-cases, subst, is_empty, unwrap_or,
}
use nodemesh.Text.{Text, text_eq, text_eq_iff, text_eq-cases}
use nodemesh.Dict.{
  Dict, lookup, insert, remove, Distinct, lookup-insert, lookup-remove_self, lookup-remove_ne,
  insert-Distinct, remove-Distinct,
}
use nodemesh.Sfu.Relay.Nodes.{
  NoDup, contains-insert_node, contains-remove_node, empty-contains, insert_node-nonempty,
  insert_node-NoDup, remove_node-NoDup,
}
use nodemesh.Sfu.Relay.{
  MediaKind, audio, video, from_media_data, decode_data, media_kind, contains, insert_node,
  remove_node, OutboundRelays, subscribe, unsubscribe, subscribers, InboundRelays, register,
  source_for,
}

-- A packet made of a publisher's media has the room, the kind and the bytes that it was made of,
-- where base64 decodes what it encodes.
pub from_media_data_lem :
    (encode : List ℕ → Text) (decode : Text → Option (List ℕ))
    → ((bytes : List ℕ) → decode (encode bytes) ≡ some bytes)
    → (now_ms : ℕ) (room : Text) (kind : MediaKind) (pt time : ℕ) (bytes : List ℕ)
    → let p = from_media_data encode now_ms room kind pt time bytes in
      (media_kind p ≡ some kind) × (decode_data decode p ≡ some bytes) × (p.room ≡ room)
unfolding media_kind from_media_data decode_data
from_media_data_lem encode decode law now_ms room audio pt time bytes = (refl, law bytes, refl)
from_media_data_lem encode decode law now_ms room video pt time bytes = (refl, law bytes, refl)

-- Node `node` gets the media of room `room`.
abbrev pub is_subscribed : OutboundRelays → Text → Text → Bool
is_subscribed r room node = contains node (unwrap_or (subscribers r room) [])

-- A room that stands in the table has a subscriber, and no subscriber twice, and stands there once.
pub record IsTable (r : OutboundRelays) : Type 0 where
  pub distinct : Distinct r.subscriptions
  pub each :
      (room : Text) (nodes : List Text)
      → lookup room r.subscriptions ≡ some nodes
      → (is_empty nodes ≡ false) × NoDup nodes

-- A subscription adds the one pair of a room and a node.
pub is_subscribed-subscribe :
    (r : OutboundRelays) (room node room' node' : Text)
    → is_subscribed (subscribe r room node) room' node'
      ≡ ((text_eq room room' && text_eq node node') || is_subscribed r room' node')
unfolding subscribe subscribers
is_subscribed-subscribe r room node room' node' =
    let nodes = unwrap_or (lookup room r.subscriptions) [] in
    let found = lookup-insert room room' (insert_node node nodes) r.subscriptions in
    elim (text_eq-cases room room') [
      | inl e ↦ ground (
        arith,
        text_eq_iff room room',
        found,
        contains-insert_node node' node nodes,
        ap (λ x. lookup x r.subscriptions) e,
      )
      | inr e ↦ ground (arith, e, found)
    ]

lookup_other :
    (room room' : Text) (nodes : List Text) (m : Dict (List Text))
    → text_eq room room' ≡ false
    → (lookup room' (remove room m) ≡ lookup room' m)
      × (lookup room' (insert room nodes m) ≡ lookup room' m)
lookup_other room room' nodes m e = (
  lookup-remove_ne room room' m (λ p. absurd (ground (arith, text_eq_iff room room'))),
  rw (lookup-insert room room' nodes m, e),
)

-- In a table without double entries, the end of a subscription removes the one pair of a room and a
-- node.
pub is_subscribed-unsubscribe :
    (r : OutboundRelays) (room node room' node' : Text)
    → IsTable r
    → is_subscribed (unsubscribe r room node) room' node'
      ≡ (not (text_eq room room' && text_eq node node') && is_subscribed r room' node')
unfolding unsubscribe subscribers
is_subscribed-unsubscribe r room node room' node' t =
    elim (Option-cases (lookup room r.subscriptions)) [
      | inl e ↦ elim (text_eq-cases room room') [
        | inl p ↦
            rw (e, unsubscribe)
              (ground
                (arith, ap (λ x. lookup x r.subscriptions) p, empty-contains node' [] refl, e))
        | inr p ↦ ground (arith, e, p)
      ]
      | inr (nodes, e) ↦ elim (text_eq-cases room room') [
        | inl p ↦ ground (
          arith,
          e,
          text_eq_iff room room',
          ap (λ x. lookup x r.subscriptions) p,
          ap (λ x. lookup x (remove room r.subscriptions)) p,
          lookup-remove_self room r.subscriptions t.distinct,
          lookup-insert room room' (remove_node node nodes) r.subscriptions,
          contains-remove_node node' node nodes,
          empty-contains node' (remove_node node nodes),
          empty-contains node' [] refl,
        )
        | inr p ↦
            ground (arith, e, p, lookup_other room room' (remove_node node nodes) r.subscriptions p)
      ]
    ]

-- The source that was registered last is the one of its room, and other rooms keep theirs.
pub source_for-register :
    (r : InboundRelays) (room node room' : Text)
    → source_for (register r room node) room'
      ≡ (if text_eq room room' then some node else source_for r room')
unfolding source_for register
source_for-register r room node room' = lookup-insert room room' node r.sources

insert-IsTable :
    (r : OutboundRelays) (room : Text) (ns : List Text)
    → IsTable r
    → (is_empty ns ≡ false) × NoDup ns
    → IsTable (record r { subscriptions = insert room ns r.subscriptions })
insert-IsTable r room ns t h = record {
  distinct = insert-Distinct room ns r.subscriptions t.distinct;
  each = λ k nodes e. elim (text_eq-cases room k) [
    | inl p ↦
        let found : some ns ≡ some nodes =
          ground (arith, text_eq_iff room k, lookup-insert room k ns r.subscriptions) in
        subst (λ x. (is_empty x ≡ false) × NoDup x) (ap (λ o. unwrap_or o ns) found) h
    | inr p ↦ t.each k nodes (ground (arith, p, lookup-insert room k ns r.subscriptions))
  ];
}

subscribe-IsTable :
    (r : OutboundRelays) (room node : Text) → IsTable r → IsTable (subscribe r room node)
unfolding subscribe
subscribe-IsTable r room node t = insert-IsTable r room _ t (
  insert_node-nonempty node _,
  insert_node-NoDup node _ (found (lookup room r.subscriptions) refl),
)
  where
    found : (o : Option (List Text)) → lookup room r.subscriptions ≡ o → NoDup (unwrap_or o [])
    found none e = tt
    found (some nodes) e = (t.each room nodes e).1

remove-IsTable :
    (r : OutboundRelays) (room : Text)
    → IsTable r
    → IsTable (record r { subscriptions = remove room r.subscriptions })
remove-IsTable r room t = record {
  distinct = remove-Distinct room r.subscriptions t.distinct;
  each = λ k nodes e. elim (text_eq-cases room k) [
    | inl p ↦ absurd (
        cc (
          subst (λ x. lookup x (remove room r.subscriptions) ≡ none) p
              (lookup-remove_self room r.subscriptions t.distinct),
          e,
        ))
    | inr p ↦ t.each k nodes (sym ((lookup_other room k nodes r.subscriptions p).0) ∙ e)
  ];
}

unsubscribe-IsTable :
    (r : OutboundRelays) (room node : Text) → IsTable r → IsTable (unsubscribe r room node)
unfolding unsubscribe
unsubscribe-IsTable r room node t = elim (Option-cases (lookup room r.subscriptions)) [
  | inl e ↦ rw (e, unsubscribe) t
  | inr (nodes, e) ↦ elim (Bool-cases (is_empty (remove_node node nodes))) [
    | inl v ↦ rw (e, unsubscribe) (rw v (remove-IsTable r room t))
    | inr v ↦
        let left = remove_node-NoDup node nodes (t.each room nodes e).1 in
        rw (e, unsubscribe) (rw v (insert-IsTable r room (remove_node node nodes) t (v, left)))
  ]
]

-- Both operations keep the table free of rooms with no subscriber and of double entries, rooms and
-- nodes.
pub relays-IsTable :
    (r : OutboundRelays) (room node : Text)
    → IsTable r
    → IsTable (subscribe r room node) × IsTable (unsubscribe r room node)
relays-IsTable r room node t = (subscribe-IsTable r room node t, unsubscribe-IsTable r room node t)
