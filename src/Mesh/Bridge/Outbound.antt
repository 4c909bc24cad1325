-- ===== src/Mesh/Bridge/Outbound.antt =====
-- What Laravel reads from the WebSocket bridge.
use nodemesh.Base.{◌≡◌, refl, ◌∙◌, false, [], ◌∷◌, some, arith, is_empty}
use nodemesh.Text.{Text, codes, text_eq, text_eq_refl}
use nodemesh.Text.Split.{Without}
use nodemesh.Text.Trim.{IsTrimmed, trim}
use nodemesh.Dict.{Dict, insert, lookup-insert, All-insert, insert-Distinct}
use nodemesh.Amp.Message.{AmpMessage, parse, get, to_wire, wire_body, is_empty_message}
use nodemesh.Amp.Message.Headers.{IsHeader, AreHeaders, NoColonSpace-Without}
use nodemesh.Amp.Message.RoundTrip.{parse-to_wire}
use nodemesh.Mesh.Bridge.{forward_wire}

insert-nonempty : (k v : Text) (m : Dict Text) → is_empty (insert k v m) ≡ false
unfolding insert
insert-nonempty k v [] = refl
insert-nonempty k v ((j, w) ∷ m) = ground arith

peer-IsHeader :
    (peer_name : Text)
    → IsTrimmed peer_name
    → Without b'\n' peer_name
    → IsHeader (codes "x-mesh-peer", peer_name)
unfolding trim
peer-IsHeader peer_name t w = record {
  key_trimmed = refl;
  value_trimmed = t;
  key_one_line = omega arith;
  value_one_line = w;
  key_splits = NoColonSpace-Without (codes "x-mesh-peer") (omega arith);
}

-- A message of a peer that is not a heartbeat, and whose header lines survive the wire, reaches
-- Laravel with the peer's name in `x-mesh-peer`, with the value it had at every other key, and with
-- its body up to the final line feed that is added; the name has to be trimmed and of one line.
pub forward_wire_lem :
    (peer_name : Text) (msg : AmpMessage)
    → IsTrimmed peer_name
    → Without b'\n' peer_name
    → AreHeaders msg.headers
    → is_empty_message msg ≡ false
    → (wire : Text) × (m' : AmpMessage) × (forward_wire peer_name msg ≡ some wire)
      × (parse wire ≡ some m')
      × (get m' (codes "x-mesh-peer") ≡ some peer_name)
      × ((key : Text) → text_eq (codes "x-mesh-peer") key ≡ false → get m' key ≡ get msg key)
      × (m'.body ≡ wire_body msg.body)
unfolding forward_wire get
forward_wire_lem peer_name msg t w h ne =
    let sent : AmpMessage = record msg {
      headers = insert (codes "x-mesh-peer") peer_name msg.headers;
    } in
    let (m', e, same, b) =
      parse-to_wire sent
        (
          All-insert IsHeader (codes "x-mesh-peer") peer_name msg.headers
              (peer-IsHeader peer_name t w) h.0,
          insert-Distinct (codes "x-mesh-peer") peer_name msg.headers h.1,
        )
        (insert-nonempty (codes "x-mesh-peer") peer_name msg.headers) in
    (
      to_wire sent,
      m',
      rw ne,
      e,
      same (codes "x-mesh-peer")
          ∙ lookup-insert (codes "x-mesh-peer") (codes "x-mesh-peer") peer_name msg.headers
          ∙ rw (text_eq_refl (codes "x-mesh-peer")),
      λ key ne'. same key ∙ lookup-insert (codes "x-mesh-peer") key peer_name msg.headers ∙ rw ne',
      b,
    )
