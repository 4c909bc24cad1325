-- ===== src/Tests/Peers.antt =====
-- The table of peers and the delays between attempts to connect (crates/meshd/src/peer).
use Prim.Native.Nat.{min}
use nodemesh.Base.{
  ◌^◌, ◌≤◌, ◌≡◌, ◌↔◌, refl, arith, Bool, true, false, List, [], ◌∷◌, some, All, get_elem?,
}
use nodemesh.Text.{codes, text_eq}
use nodemesh.Amp.Message.{AmpMessage, new}
use nodemesh.Mesh.Peers.{
  PeerManager, ok, err, not_connected, unknown_peer, register, touch, mark_disconnected, is_open,
  send_to, route,
}
use nodemesh.Mesh.Peers
use nodemesh.Mesh.Peers.Table.{
  ArePeers, Reach, here, next, registers, touches, closes, Reach-new-ArePeers,
}
use nodemesh.Mesh.Peers.Sending.{Routes, route_iff, send_to-stale_close}
use nodemesh.Mesh.Backoff.{
  delays, failures, initial_backoff, max_backoff, delays_bounds, delays-failures,
}

abbrev joined : PeerManager
joined = register Peers.new (codes "mko") (codes "10.0.0.1") 5

abbrev text_for_mko : AmpMessage
text_for_mko = new ((codes "to", codes "stalwart.mko.amp") ∷ []) (codes "hello")

route_text : route joined text_for_mko ≡ ok (record joined { sent = (0, text_for_mko) ∷ [] })
unfolding route register nodemesh.Amp.Message.get nodemesh.Amp.Address.parse text_eq
route_text = refl

send_to_stranger : send_to joined (codes "mmc") text_for_mko ≡ err (unknown_peer (codes "mmc"))
unfolding send_to register text_eq
send_to_stranger = refl

-- The peer joins, is seen, and leaves.
abbrev visited : Reach Peers.new (mark_disconnected (touch joined (codes "mko") 9) (codes "mko") 0)
visited =
    next (next (next here (registers (codes "mko") (codes "10.0.0.1") 5)) (touches (codes "mko") 9))
      (closes (codes "mko") 0)

Reach-new-ArePeers_example :
    ArePeers (mark_disconnected (touch joined (codes "mko") 9) (codes "mko") 0)
Reach-new-ArePeers_example = Reach-new-ArePeers visited

route_iff_example :
    (route joined text_for_mko ≡ ok (record joined { sent = (0, text_for_mko) ∷ [] }))
    ↔ Routes joined text_for_mko (record joined { sent = (0, text_for_mko) ∷ [] })
route_iff_example = route_iff joined text_for_mko (record joined { sent = (0, text_for_mko) ∷ [] })

send_to-stale_close_example :
    let m' =
      mark_disconnected (register joined (codes "mko") (codes "10.0.0.2") 6) (codes "mko") 0 in
    (is_open 1 m'.open_channels ≡ true)
    × (send_to m' (codes "mko") text_for_mko ≡ err (not_connected (codes "mko")))
send_to-stale_close_example =
    send_to-stale_close Peers.new (codes "mko") (codes "10.0.0.1") (codes "10.0.0.2") 5 6
      text_for_mko

-- Six failures, a connection that ends, and a failure.
abbrev outcomes : List Bool
outcomes = false ∷ false ∷ false ∷ false ∷ false ∷ false ∷ true ∷ false ∷ []

delays-outcomes : delays initial_backoff outcomes ≡ 1 ∷ 2 ∷ 4 ∷ 8 ∷ 16 ∷ 30 ∷ 1 ∷ 2 ∷ []
unfolding delays
delays-outcomes = refl

delays_bounds_example :
    All (λ d. (initial_backoff ≤ d) × (d ≤ max_backoff)) (delays initial_backoff outcomes)
delays_bounds_example = delays_bounds outcomes

delays-failures_example :
    get_elem? (delays initial_backoff (failures 6)) 5 ≡ some (min (2 ^ 5) max_backoff)
delays-failures_example = delays-failures 6 5 (omega arith)
