-- ===== src/Sfu/Room.antt =====
-- crates/sfu/src/room.rs: rooms hold the indices of their sessions in the session list of the SFU.
pub mod Registry
pub mod Indices
pub mod Invariant
use nodemesh.Base.{
  ℕ, ◌-◌, Bool, true, false, not, ◌&&◌, List, [], ◌∷◌, ◌++◌, Option, none, some, map, ◌==◌, ltb,
  if◌then◌else◌, is_empty, is_some, unwrap_or, retain,
}
use nodemesh.Text.{Text, codes, text_eq}
use nodemesh.Dict.{Dict, lookup, insert, remove}

pub data Role : Type 0 where
  publisher subscriber : Role

unfoldable pub parse_role : Text → Option Role
unfolding text_eq
parse_role s =
    if text_eq s (codes "publisher")
    then some publisher
    else if text_eq s (codes "subscriber")
    then some subscriber
    else none

pub record Room : Type 0 where
  pub name : Text
  pub publisher : Option ℕ
  pub subscribers : List ℕ

pub record RoomRegistry : Type 0 where
  pub rooms : Dict Room

abbrev pub new : RoomRegistry
new = record { rooms = [] }

-- The room that `or_insert_with` makes.
abbrev pub new_room : Text → Room
new_room name = record { name = name; publisher = none; subscribers = [] }

-- The `match role` of `join`.
unfoldable pub enter : Role → ℕ → Room → Room
enter publisher idx room = record room { publisher = some idx }
enter subscriber idx room = record room { subscribers = room.subscribers ++ (idx ∷ []) }

unfoldable pub join : RoomRegistry → Text → ℕ → Role → RoomRegistry
unfolding lookup insert enter
join reg room_name idx role =
    let room = unwrap_or (lookup room_name reg.rooms) (new_room room_name) in
    record reg { rooms = insert room_name (enter role idx room) reg.rooms }

-- `if *idx > removed_idx { *idx -= 1 }`.
unfoldable pub shift : ℕ → ℕ → ℕ
shift removed idx = if ltb removed idx then idx - 1 else idx

-- `if room.publisher == Some(removed_idx) { room.publisher = None }`, then the shift.
unfoldable pub shift_publisher : ℕ → Option ℕ → Option ℕ
unfolding shift
shift_publisher removed none = none
shift_publisher removed (some idx) = if idx == removed then none else some (shift removed idx)

-- The body of the first loop of `remove_session`.
unfoldable pub leave : ℕ → Room → Room
unfolding shift_publisher shift
leave removed room = record room {
  publisher = shift_publisher removed room.publisher;
  subscribers = map (shift removed) (retain (λ i. not (i == removed)) room.subscribers);
}

abbrev pub is_vacant : Room → Bool
is_vacant room = not (is_some room.publisher) && is_empty room.subscribers

unfoldable pub leave_all : ℕ → Dict Room → Dict Room
unfolding leave
leave_all removed [] = []
leave_all removed ((name, room) ∷ m) = (name, leave removed room) ∷ leave_all removed m

-- `empty_rooms`.
unfoldable pub vacant_names : Dict Room → List Text
vacant_names [] = []
vacant_names ((name, room) ∷ m) = if is_vacant room then name ∷ vacant_names m else vacant_names m

unfoldable pub remove_names : List Text → Dict Room → Dict Room
unfolding remove
remove_names [] m = m
remove_names (name ∷ r) m = remove_names r (remove name m)

unfoldable pub remove_session : RoomRegistry → ℕ → RoomRegistry
unfolding leave_all vacant_names remove_names
remove_session reg removed =
    let rooms = leave_all removed reg.rooms in
    record reg { rooms = remove_names (vacant_names rooms) rooms }

abbrev pub is_publisher : ℕ → Option ℕ → Bool
is_publisher idx none = false
is_publisher idx (some i) = i == idx

-- `values().find(..)`: the first room in the order of iteration.
unfoldable pub find_publisher_room : Dict Room → ℕ → Option Room
find_publisher_room [] idx = none
find_publisher_room ((name, room) ∷ m) idx =
    if is_publisher idx room.publisher then some room else find_publisher_room m idx
