-- ===== src/Tests/Joining.antt =====
-- A browser joins a room with a publisher, and a node subscribes to it (crates/sfu/src/lib.rs).
use nodemesh.Base.{ℕ, ◌≡◌, ◌++◌, ◌%◌, ◌^◌, refl, true, List, [], ◌∷◌, some, map, get_elem?}
use nodemesh.Text.{Text, codes, text_eq}
use nodemesh.Sfu.Room.{Role, Room, publisher, subscriber}
use nodemesh.Sfu.Relay.{video, contains, from_media_data}
use nodemesh.Sfu.Relay.Nodes.{NoDup}
use nodemesh.Sfu.Command.{relay_subscribe, relay_media}
use nodemesh.Sfu.Media.{MediaData, on_media_data}
use nodemesh.Tests.Library.{frame, library, library-Drains}
use nodemesh.Sfu.Loop.{State, running, command, turn, deliver, process_events}
use nodemesh.Sfu.Session.{media_data}
use nodemesh.Sfu.Loop.Invariant.{Reaches, begins, turns}
use nodemesh.Sfu.Loop.History.{wants, commands}
use nodemesh.Sfu.Loop.Joining.{received, joined-delivered}
use nodemesh.Sfu.Loop.Subscriptions.{on_media_data-commands}
use nodemesh.Sfu.Loop.Browser.{browser_sessions, browser_sessions-KeepsRooms}
use nodemesh.Tests.Loop.{
  api, browser, answer, offer, encode, decode, one, two, two_reached, first_offer,
}

one_reached : Reaches api encode decode one
one_reached = turns 5 (command (offer (codes "r1") (codes "publisher")) true) begins first_offer

abbrev room_one : Room
room_one = record { name = codes "a"; publisher = some 0; subscribers = [] }

abbrev member : Text → Role → api.S
unfolding browser_sessions
member = browser

joined-delivered_example :
    (f' : State api) × (turn api encode decode 6 one
        (command (offer (codes "r2") (codes "subscriber")) true)
      ≡ some (running f'))
    × (f'.events ≡ one.events ++ (answer (codes "r2") ∷ []))
    × (get_elem? f'.sessions 1 ≡ some (member (codes "r2") subscriber))
    × ((later : ℕ) (ms : List MediaData)
        → (g : State api) × (process_events api encode decode later f' 0 (map media_data ms)
            ≡ some g)
          × (get_elem? g.sessions 1
              ≡ some (
                  received api later
                    (member (codes "r1") publisher)
                    ms
                    (member (codes "r2") subscriber))))
unfolding browser_sessions nodemesh.Dict.lookup nodemesh.Sfu.Session.answer_message text_eq
joined-delivered_example =
    joined-delivered api (browser_sessions-KeepsRooms library library-Drains 3) encode decode 6
      (codes "r2") (codes "web.mko.amp") (codes "sfu.mko.amp") (codes "{}") (codes "a") 0
      (browser (codes "r1") publisher) room_one one_reached refl (refl, (refl, tt)) refl refl refl

abbrev watched : State api
watched = record two {
  outbound_relays = record { subscriptions = (codes "a", codes "mmc" ∷ []) ∷ [] };
}

subscription :
    turn api encode decode 7 two (command (relay_subscribe (codes "a") (codes "mmc")) true)
    ≡ some (running watched)
unfolding turn browser_sessions text_eq
subscription = refl

watched_reached : Reaches api encode decode watched
watched_reached =
    turns 7 (command (relay_subscribe (codes "a") (codes "mmc")) true) two_reached subscription

abbrev room_two : Room
room_two = record { name = codes "a"; publisher = some 0; subscribers = 1 ∷ [] }

on_media_data-commands_example :
    (f' : State api) × (nodes : List Text) × (on_media_data encode 8 api.kind_of
        (deliver api 8)
        watched
        0
        frame
      ≡ some f')
    × (f'.events
        ≡ watched.events
          ++ map
              (λ node. relay_media node (
                from_media_data encode 8
                  (codes "a")
                  video
                  frame.pt
                  (frame.numer % 2 ^ 32)
                  frame.bytes))
              nodes)
    × ((node : Text)
        → contains node nodes
          ≡ wants
              (commands api
                (browser_sessions-KeepsRooms library library-Drains 3)
                encode
                decode
                watched_reached)
              (codes "a")
              node)
    × NoDup nodes
unfolding browser_sessions nodemesh.Dict.lookup text_eq
on_media_data-commands_example =
    on_media_data-commands api (browser_sessions-KeepsRooms library library-Drains 3) encode decode
      watched_reached 8 0 (browser (codes "r1") publisher) (codes "a") room_two frame video refl
      refl refl refl
