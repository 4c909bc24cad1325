-- ===== src/Tests/Signalling.antt =====
-- The harness (tools/sfu-test), the bridge and the callback of the daemon (crates/meshd), and a session.
use nodemesh.Base.{◌≡◌, refl, arith, true, [], ◌∷◌, some}
use nodemesh.Text.{codes, text_eq}
use nodemesh.Text.Trim.{trim}
use nodemesh.Dict.{Distinct}
use nodemesh.Sfu.Room.{publisher}
use nodemesh.Sfu.Session.{OfferResult, ok, handle_sdp_offer}
use nodemesh.Mesh.Peers
use nodemesh.Mesh.Sfu.{SfuHandle}
use nodemesh.Mesh.Bridge.{BridgeState, accepted_sfu, handle_send}
use nodemesh.Mesh.Callback.{callback_post}
use nodemesh.SfuTest.{PendingAnswers, stored_or_ignored, offer_wire, mesh_callback}
use nodemesh.SfuTest.Offering.{offered, handle_send-offer_wire}
use nodemesh.SfuTest.Answering.{IsAnswered, signal_poll-handle_sdp_offer}
use nodemesh.Tests.Library.{library}

abbrev pending : PendingAnswers
pending = (codes "r0", codes "{}") ∷ (codes "r1", []) ∷ []

abbrev h : SfuHandle
h = record { running = true; commands = [] }

abbrev state : BridgeState
state = record { peer_manager = Peers.new; sfu_handle = some h; node_name = codes "cachyos" }

handle_send-offer_wire_example :
    handle_send state (offer_wire (codes "r1") (codes "lobby") [] (codes "{}")) ≡ (
      accepted_sfu (codes "r1"),
      record state {
        sfu_handle =
            some
              (record h { commands = offered (codes "r1") (codes "lobby") [] (codes "{}") ∷ [] });
      },
    )
unfolding trim
handle_send-offer_wire_example =
    handle_send-offer_wire state h (codes "r1") (codes "lobby") [] (codes "{}") refl refl refl
      (refl, omega arith) (refl, omega arith) (refl, omega arith)

signal_poll-handle_sdp_offer_example :
    (r : OfferResult library) × (handle_sdp_offer library 5
        (codes "r1")
        (codes "browser.cachyos.amp")
        (codes "sfu.cachyos.amp")
        (codes "{}")
        3
        (some (codes "lobby"))
        (some publisher)
      ≡ ok r)
    × (let (reply, pending') =
          mesh_callback pending
            (callback_post (codes "http://app") (codes "sfu") r.answer_msg).body in
        (reply ≡ stored_or_ignored) × IsAnswered pending pending' (codes "r1") (trim (codes "{}")))
unfolding trim nodemesh.Sfu.Session.negotiate nodemesh.Dict.lookup text_eq
signal_poll-handle_sdp_offer_example =
    signal_poll-handle_sdp_offer library 5 (codes "r1") (codes "browser.cachyos.amp")
      (codes "sfu.cachyos.amp") (codes "{}") 3 (some (codes "lobby")) (some publisher)
      (codes "http://app") pending refl (refl, omega arith) (refl, omega arith) (refl, omega arith)
      refl ((λ e. ground (arith, e), tt), (tt, tt)) refl
