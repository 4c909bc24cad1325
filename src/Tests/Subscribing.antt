-- ===== src/Tests/Subscribing.antt =====
-- Node mko asks node mmc for the media of a room (crates/meshd/src/main.rs, crates/sfu/src/lib.rs).
use nodemesh.Base.{ℕ, ◌≡◌, ◌++◌, ◌%◌, ◌^◌, refl, arith, true, List, [], ◌∷◌, some, map, get_elem?}
use nodemesh.Text.{Text, codes, text_eq}
use nodemesh.Text.Trim.{trim}
use nodemesh.Dict.{lookup}
use nodemesh.Amp.Message.{AmpMessage, parse, to_wire}
use nodemesh.Sfu.Room.{Room}
use nodemesh.Sfu.Relay.{MediaKind, contains, from_media_data}
use nodemesh.Sfu.Command.{request_relay, relay_subscribe, relay_media}
use nodemesh.Sfu.Media.{MediaData, on_media_data}
use nodemesh.Sfu.Loop.{State, running, command, turn, deliver}
use nodemesh.Sfu.Loop.Browser.{browser_sessions-KeepsRooms}
use nodemesh.Mesh.Peers
use nodemesh.Mesh.Dispatch.{dispatch}
use nodemesh.Mesh.Events.{forward_event}
use nodemesh.Mesh.Subscribing.{subscribed_lem}
use nodemesh.Tests.Library.{library, library-Drains}
use nodemesh.Tests.Loop.{api, two, two_reached, encode, decode}
use nodemesh.Tests.Relaying.{read_packet, write_packet, sender, receiver, h}

subscribed_lem_example :
    (request : AmpMessage) × (f' : State api) × ((forward_event write_packet sender
        (request_relay (codes "mmc") (codes "a"))).peer_manager.sent
      ≡ sender.peer_manager.sent ++ ((0, request) ∷ []))
    × (parse (to_wire request) ≡ some request)
    × (dispatch read_packet receiver (codes "mko") request ≡ record receiver {
      sfu_handle = some (record h { commands = relay_subscribe (codes "a") (codes "mko") ∷ [] });
    })
    × (turn api encode decode 7 two (command (relay_subscribe (codes "a") (codes "mko")) true)
        ≡ some (running f'))
    × ((later p : ℕ) (x : api.S) (r : Room) (media : MediaData) (kind : MediaKind)
        → lookup (codes "a") f'.rooms.rooms ≡ some r
        → r.publisher ≡ some p
        → get_elem? f'.sessions p ≡ some x
        → api.kind_of x media.mid ≡ some kind
        → (g : State api) × (nodes : List Text) × (on_media_data encode later api.kind_of
              (deliver api later)
              f'
              p
              media
            ≡ some g)
          × (g.events
              ≡ f'.events
                ++ map
                    (λ node. relay_media node (
                      from_media_data encode later
                        (codes "a")
                        kind
                        media.pt
                        (media.numer % 2 ^ 32)
                        media.bytes))
                    nodes)
          × (contains (codes "mko") nodes ≡ true))
unfolding trim lookup text_eq Peers.register
subscribed_lem_example =
    subscribed_lem api (browser_sessions-KeepsRooms library library-Drains 3) encode decode
      read_packet write_packet sender 0 receiver h (codes "mmc") (codes "mko") (codes "a") 7
      two_reached (refl, omega arith) (refl, omega arith) (refl, omega arith) (_, refl, refl, refl)
      refl refl
