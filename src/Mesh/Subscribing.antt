-- ===== src/Mesh/Subscribing.antt =====
-- The request of one node for the media of a room, up to the packets that it gets: `forward_sfu_events` of
-- its daemon, the wire, `dispatch_inbound` of the other (crates/meshd/src/main.rs), and the other SFU's
-- loop.
use nodemesh.Base.{
  ℕ, ◌≡◌, ◌%◌, ◌^◌, refl, ◌∙◌, arith, true, List, [], ◌∷◌, ◌++◌, Option, some, map, get_elem?,
}
use nodemesh.Text.{Text, codes, text_eq, text_eq_refl}
use nodemesh.Text.Trim.{trim}
use nodemesh.Dict.{lookup}
use nodemesh.Amp.Message.{AmpMessage, parse, to_wire, get}
use nodemesh.Amp.Message.Written.{IsName}
use nodemesh.Sfu.Room.{Room}
use nodemesh.Sfu.Relay.{MediaKind, RelayPacket, contains, from_media_data, subscribe}
use nodemesh.Sfu.Command.{request_relay, relay_subscribe, relay_media, parse_command}
use nodemesh.Sfu.Cleanup.Outcome.{cleanup_lem}
use nodemesh.Sfu.Media.{MediaData, on_media_data}
use nodemesh.Sfu.Sessions.{Sessions, KeepsRooms}
use nodemesh.Sfu.Loop.{State, command, running, deliver, on_command, clean, turn}
use nodemesh.Sfu.Loop.Invariant.{IsFabric, Reaches, turns, Reaches_lem}
use nodemesh.Sfu.Loop.History.{wants, commands}
use nodemesh.Sfu.Loop.Subscriptions.{on_media_data-commands}
use nodemesh.Mesh.Sfu.{SfuHandle, send}
use nodemesh.Mesh.Dispatch.{Dispatcher, dispatch, sfu_command}
use nodemesh.Mesh.Events.{Forwarder, forward_event, relay_message}
use nodemesh.Mesh.Events.Relays.{parse-relay_message}
use nodemesh.Mesh.Relaying.{HasOpen, send_to-HasOpen}

-- The other daemon gives the request to its SFU.
dispatch-relay_message :
    (packet_from_str : Text → Option RelayPacket) (d : Dispatcher) (h : SfuHandle)
    (peer node target room : Text)
    → d.sfu_handle ≡ some h
    → h.running ≡ true
    → dispatch packet_from_str d peer (relay_message (codes "relay-subscribe") node target room)
      ≡ record d {
        sfu_handle = some (record h { commands = h.commands ++ (relay_subscribe room node ∷ []) });
      }
unfolding dispatch sfu_command send relay_message text_eq parse_command get
dispatch-relay_message packet_from_str d h peer node target room r run =
    rw (r, dispatch) (rw (run, dispatch) refl)

module _ (a : Sessions) (keeps : KeepsRooms a) (encode : List ℕ → Text)
    (decode : Text → Option (List ℕ)) where
  -- The loop goes on after a subscription.
  turn-relay_subscribe :
      (f : State a) (now : ℕ) (room node : Text)
      → IsFabric a f
      → (f' : State a) × (turn a encode decode now f (command (relay_subscribe room node) true)
          ≡ some (running f'))
  unfolding turn on_command clean
  turn-relay_subscribe f now room node i =
      let (ss', q, run, kept, rooms, views) = cleanup_lem a.is_alive f.sessions f.rooms i.rooms in
      (
        record f {
          sessions = ss';
          rooms = q;
          outbound_relays = subscribe f.outbound_relays room node;
        },
        rw run refl,
      )

  module _ (packet_from_str : Text → Option RelayPacket)
      (packet_to_string : RelayPacket → Text) where
    -- A node that asks for the media of a room gets them. The request of its SFU is sent to the other node,
    -- is read there as it was, and goes to the SFU, whose loop goes on with it; and whatever media of
    -- the publisher of that room, of a known kind, come next, there is a packet of them for the node that
    -- asked. The asking node has to have an open channel to the other, whose SFU runs; the names and the
    -- room are trimmed and of one line; the operations on sessions have to leave them in their rooms.
    pub subscribed_lem :
        {f : State a} (sender : Forwarder) (channel : ℕ) (receiver : Dispatcher) (h : SfuHandle)
        (target peer room : Text) (now : ℕ)
        → Reaches a encode decode f
        → IsName sender.node_name
        → IsName target
        → IsName room
        → HasOpen sender.peer_manager target channel
        → receiver.sfu_handle ≡ some h
        → h.running ≡ true
        → (request : AmpMessage) × (f' : State a) × ((forward_event packet_to_string sender
              (request_relay target room)).peer_manager.sent
            ≡ sender.peer_manager.sent ++ ((channel, request) ∷ []))
          × (parse (to_wire request) ≡ some request)
          × (dispatch packet_from_str receiver peer request ≡ record receiver {
            sfu_handle = some (record h {
              commands = h.commands ++ (relay_subscribe room sender.node_name ∷ []);
            });
          })
          × (turn a encode decode now f (command (relay_subscribe room sender.node_name) true)
              ≡ some (running f'))
          × ((later p : ℕ) (x : a.S) (r : Room) (media : MediaData) (kind : MediaKind)
              → lookup room f'.rooms.rooms ≡ some r
              → r.publisher ≡ some p
              → get_elem? f'.sessions p ≡ some x
              → a.kind_of x media.mid ≡ some kind
              → (g : State a) × (nodes : List Text) × (on_media_data encode later a.kind_of
                    (deliver a later)
                    f'
                    p
                    media
                  ≡ some g)
                × (g.events
                    ≡ f'.events
                      ++ map
                          (λ node. relay_media node (
                            from_media_data encode later room kind media.pt
                              (media.numer % 2 ^ 32)
                              media.bytes))
                          nodes)
                × (contains sender.node_name nodes ≡ true))
    unfolding forward_event commands wants trim
    subscribed_lem {f} sender channel receiver h target peer room now reached n t r channel_open e
          run =
        let node = sender.node_name in
        let request = relay_message (codes "relay-subscribe") node target room in
        let (f', ran) =
          turn-relay_subscribe f now room node (Reaches_lem a encode decode keeps reached).0 in
        (
          request,
          f',
          rw
              (
                send_to-HasOpen sender.peer_manager target channel request channel_open,
                forward_event,
              )
              refl,
          parse-relay_message (codes "relay-subscribe") node target room (refl, omega arith) n t r,
          dispatch-relay_message packet_from_str receiver h peer node target room e run,
          ran,
          λ later p x q media kind l b hx hk.
              let (g, nodes, went, events, listed, distinct) =
                on_media_data-commands a keeps encode decode (turns now _ reached ran) later p x
                  room q media kind l b hx hk in
              (
                g,
                nodes,
                went,
                events,
                listed node ∙ rw (text_eq_refl room, text_eq_refl node) refl,
              ),
        )
