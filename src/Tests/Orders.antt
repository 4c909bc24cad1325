-- ===== src/Tests/Orders.antt =====
-- Runs of the loop of the SFU (crates/sfu/src/lib.rs) whose rooms are iterated in two orders.
use nodemesh.Base.{ℕ, ◌≡◌, ◌≢◌, refl, sym, arith, true, [], ◌∷◌, none, some}
use nodemesh.Text.{Text, codes, text_eq, text_eq_iff}
use nodemesh.Dict.{Dict, lookup}
use nodemesh.Dict.Order.{Agree, Agree-refl}
use nodemesh.Sfu.Room.{Room, subscriber}
use nodemesh.Sfu.Relay.{new_outbound}
use nodemesh.Sfu.Command.{SfuCommand, sdp_offer}
use nodemesh.Tests.Library.{library, library-Drains}
use nodemesh.Sfu.Loop.{State, Arm, Turned, running, command, turn}
use nodemesh.Sfu.Loop.Invariant.{start}
use nodemesh.Sfu.Loop.Order.Alike.{AreAlike, AreAlikeTurned}
use nodemesh.Sfu.Loop.Order.Runs.{Shuffled, both_begin, both_turn, reordered, turn-Shuffled}
use nodemesh.Sfu.Loop.Browser.{browser_sessions, browser_sessions-KeepsRooms}
use nodemesh.Tests.Loop.{api, browser, answer, encode, decode}

abbrev offer : Text → Text → SfuCommand
offer id room =
    sdp_offer id (codes "web.mko.amp") (codes "sfu.mko.amp") (codes "{}") (some room)
      (some (codes "subscriber"))

abbrev room_with : Text → ℕ → Text × Room
room_with name idx = (name, record { name = name; publisher = none; subscribers = idx ∷ [] })

abbrev state : Dict Room → State api
unfolding browser_sessions
state rooms = record {
  sessions =
      browser (codes "r1") subscriber
      ∷ record (browser (codes "r2") subscriber) { room = some (codes "b") }
      ∷ [];
  rooms = record { rooms = rooms };
  outbound_relays = new_outbound;
  events = answer (codes "r1") ∷ answer (codes "r2") ∷ [];
  transmits = (5, 1 ∷ []) ∷ (5, 1 ∷ []) ∷ [];
}

abbrev in_order : Dict Room
in_order = room_with (codes "a") 0 ∷ room_with (codes "b") 1 ∷ []

abbrev other_order : Dict Room
other_order = room_with (codes "b") 1 ∷ room_with (codes "a") 0 ∷ []

abbrev first : State api
unfolding browser_sessions
first = record (state (room_with (codes "a") 0 ∷ [])) {
  sessions = browser (codes "r1") subscriber ∷ [];
  events = answer (codes "r1") ∷ [];
  transmits = (5, 1 ∷ []) ∷ [];
}

first_offer :
    turn api encode decode 5 (start api) (command (offer (codes "r1") (codes "a")) true)
    ≡ some (running first)
unfolding turn browser_sessions nodemesh.Sfu.Session.answer_message text_eq
first_offer = refl

second_offer :
    turn api encode decode 6 first (command (offer (codes "r2") (codes "b")) true)
    ≡ some (running (state in_order))
unfolding turn browser_sessions nodemesh.Sfu.Session.answer_message text_eq
second_offer = refl

differ : codes "a" ≢ codes "b"
differ e = ground (arith, e)

orders-Agree : Agree in_order other_order
unfolding lookup
orders-Agree = record {
  distinct = ((λ e. differ (sym e), tt), (tt, tt));
  other_distinct = ((differ, tt), (tt, tt));
  same = λ k. ground (arith, differ, text_eq_iff (codes "a") k, text_eq_iff (codes "b") k);
}

shuffled : Shuffled api encode decode (state in_order) (state other_order)
unfolding browser_sessions
shuffled =
    reordered
      (both_turn 6 (command (offer (codes "r2") (codes "b")) true)
        (both_turn 5 (command (offer (codes "r1") (codes "a")) true) both_begin first_offer
          first_offer)
        second_offer second_offer)
      (record {
        same_sessions = refl;
        same_events = refl;
        same_transmits = refl;
        same_rooms = orders-Agree;
        same_relays = Agree-refl tt;
      })

turn-Shuffled_example :
    AreAlike api (state in_order) (state other_order)
    × ((now : ℕ) (arm : Arm api.Packet)
        → (t : Turned (State api)) × (t' : Turned (State api)) × (turn api encode decode now
              (state in_order)
              arm
            ≡ some t)
          × (turn api encode decode now (state other_order) arm ≡ some t')
          × AreAlikeTurned api t t')
turn-Shuffled_example =
    turn-Shuffled api encode decode (browser_sessions-KeepsRooms library library-Drains 3) shuffled
