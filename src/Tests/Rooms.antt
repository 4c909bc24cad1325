-- ===== src/Tests/Rooms.antt =====
-- The SFU's rooms, and the loop that removes dead sessions (crates/sfu/src/room.rs and lib.rs).
use nodemesh.Base.{
  ℕ, ◌+◌, ◌≡◌, refl, Bool, true, false, List, [], ◌∷◌, none, some, map_option, retain, length,
}
use nodemesh.Text.{Text, codes, text_eq}
use nodemesh.Dict.{lookup}
use nodemesh.Sfu.Room.{Room, RoomRegistry, publisher, subscriber, new, join, remove_session}
use nodemesh.Sfu.Room.Indices.{resolve}
use nodemesh.Sfu.Room.Invariant.{AreRooms, new-AreRooms, join-AreRooms}
use nodemesh.Sfu.Cleanup.{cleanup}
use nodemesh.Sfu.Cleanup.Views.{living}
use nodemesh.Sfu.Cleanup.Outcome.{cleanup_lem}

-- Session 0 publishes in "a"; sessions 1 and 2 watch, and 2 publishes in "b".
abbrev one : RoomRegistry
one = join new (codes "a") 0 publisher

abbrev two : RoomRegistry
two = join one (codes "a") 1 subscriber

abbrev three : RoomRegistry
three = join two (codes "b") 2 publisher

abbrev room_a : Room
room_a = record { name = codes "a"; publisher = some 0; subscribers = 1 ∷ [] }

abbrev room_b : Room
room_b = record { name = codes "b"; publisher = some 2; subscribers = [] }

three_rooms : three.rooms ≡ (codes "a", room_a) ∷ (codes "b", room_b) ∷ []
unfolding join text_eq
three_rooms = refl

remove_first :
    (remove_session three 0).rooms
    ≡ (codes "a", record room_a { publisher = none; subscribers = 0 ∷ [] })
      ∷ (codes "b", record room_b { publisher = some 1 })
      ∷ []
unfolding join remove_session text_eq
remove_first = refl

remove_last : (remove_session three 2).rooms ≡ (codes "a", room_a) ∷ []
unfolding join remove_session text_eq
remove_last = refl

one-AreRooms : AreRooms 1 one
one-AreRooms = join-AreRooms 0 new (codes "a") publisher new-AreRooms

two-AreRooms : AreRooms 2 two
two-AreRooms = join-AreRooms 1 one (codes "a") subscriber one-AreRooms

three-AreRooms : AreRooms 3 three
three-AreRooms = join-AreRooms 2 two (codes "b") publisher two-AreRooms

-- The sessions are told apart by a number; session 0 has died.
abbrev sessions : List (ℕ × Bool)
sessions = (10, false) ∷ (11, true) ∷ (12, true) ∷ []

abbrev is_alive : ℕ × Bool → Bool
is_alive s = s.1

cleanup_sessions :
    cleanup is_alive 4 0 sessions three
    ≡ some ((11, true) ∷ (12, true) ∷ [], remove_session three 0)
unfolding cleanup
cleanup_sessions = refl

cleanup_lem_example :
    (ss' : List (ℕ × Bool)) × (reg' : RoomRegistry) × (cleanup is_alive
        (length sessions + 1)
        0
        sessions
        three
      ≡ some (ss', reg'))
    × (ss' ≡ retain is_alive sessions)
    × AreRooms (length ss') reg'
    × ((k : Text)
        → map_option (resolve ss') (lookup k reg'.rooms) ≡ living is_alive sessions three k)
cleanup_lem_example = cleanup_lem is_alive sessions three three-AreRooms
