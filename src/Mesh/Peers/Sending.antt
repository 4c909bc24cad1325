-- ===== src/Mesh/Peers/Sending.antt =====
-- Which message goes where, and the sender that a closing connection takes from another.
use nodemesh.Base.{ℕ, suc, ◌≡◌, inl, inr, ◌↔◌, true, [], ◌∷◌, ◌++◌, some, arith, Option-cases}
use nodemesh.Text.{Text, text_eq_refl}
use nodemesh.Dict.{lookup, insert, lookup-insert, lookup-update}
use nodemesh.Amp.Address.{AmpAddress}
use nodemesh.Amp.Address
use nodemesh.Amp.Message.{AmpMessage, to_addr}
use nodemesh.Mesh.Peers.{
  PeerState, PeerManager, connected_peer, register, disconnect, mark_disconnected, is_open, push,
  send_to, route, ok, err, not_connected,
}

-- What has to be found for a message to be routed: the address, the peer, its sender, and that the
-- channel is open.
pub record Routes (m : PeerManager) (msg : AmpMessage) (m' : PeerManager) : Type 0 where
  pub to : Text
  pub address : AmpAddress
  pub peer : PeerState
  pub channel : ℕ
  pub addressed : to_addr msg ≡ some to
  pub parsed : Address.parse to ≡ some address
  pub known : lookup address.node m.peers ≡ some peer
  pub connected : peer.outbound_tx ≡ some channel
  pub accepts : is_open channel m.open_channels ≡ true
  pub result : m' ≡ record m { sent = m.sent ++ ((channel, msg) ∷ []) }

route-Routes :
    (m : PeerManager) (msg : AmpMessage) (m' : PeerManager) → route m msg ≡ ok m' → Routes m msg m'
unfolding route send_to push
route-Routes m msg m' h = elim (Option-cases (to_addr msg)) [
  | inl e ↦ absurd (ground (arith, e))
  | inr (to, e) ↦ elim (Option-cases (Address.parse to)) [
    | inl f ↦ absurd (ground (arith, e, f))
    | inr (address, f) ↦ elim (Option-cases (lookup address.node m.peers)) [
      | inl g ↦ absurd (ground (arith, e, f, g))
      | inr (peer, g) ↦ elim (Option-cases peer.outbound_tx) [
        | inl k ↦ absurd (ground (arith, e, f, g, k))
        | inr (channel, k) ↦ record {
          to = to;
          address = address;
          peer = peer;
          channel = channel;
          addressed = e;
          parsed = f;
          known = g;
          connected = k;
          accepts = ground (arith, e, f, g, k);
          result = ground (arith, e, f, g, k);
        }
      ]
    ]
  ]
]

Routes-route :
    (m : PeerManager) (msg : AmpMessage) (m' : PeerManager) → Routes m msg m' → route m msg ≡ ok m'
unfolding route send_to push
Routes-route m msg m' r =
    ground (arith, r.addressed, r.parsed, r.known, r.connected, r.accepts, r.result)

-- A message is routed exactly when its `to` address parses, the node of the address is a known peer
-- and that peer's sender is open; the message is then the last one in the peer's channel, and nothing
-- else changes.
pub route_iff :
    (m : PeerManager) (msg : AmpMessage) (m' : PeerManager)
    → (route m msg ≡ ok m') ↔ Routes m msg m'
route_iff m msg m' = (route-Routes m msg m', Routes-route m msg m')

-- A peer that has just been registered is sent to over the channel that was made for it.
send_to-register :
    (m : PeerManager) (name ip : Text) (now : ℕ) (msg : AmpMessage)
    → send_to (register m name ip now) name msg
      ≡ ok (record (register m name ip now) { sent = m.sent ++ ((m.next_channel, msg) ∷ []) })
unfolding send_to push register
send_to-register m name ip now msg = ground (
  arith,
  text_eq_refl name,
  lookup-insert name name (connected_peer name ip now m.next_channel) m.peers,
)

-- The close of an older connection takes the sender from a newer one: an inbound connection is
-- registered, the outbound connection then takes over, and the inbound connection ends. The newer
-- channel is open, and yet every message for the peer is refused.
pub send_to-stale_close :
    (m : PeerManager) (name ip ip' : Text) (now now' : ℕ) (msg : AmpMessage)
    → let m' =
        mark_disconnected (register (register m name ip now) name ip' now') name m.next_channel in
      (is_open (suc m.next_channel) m'.open_channels ≡ true)
      × (send_to m' name msg ≡ err (not_connected name))
unfolding send_to register mark_disconnected
send_to-stale_close m name ip ip' now now' msg =
    let first = insert name (connected_peer name ip now m.next_channel) m.peers in
    let second = connected_peer name ip' now' (suc m.next_channel) in
    (
      ground arith,
      ground (
        arith,
        text_eq_refl name,
        lookup-insert name name second first,
        lookup-update name name disconnect (insert name second first),
      ),
    )
