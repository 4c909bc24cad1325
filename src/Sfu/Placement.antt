-- ===== src/Sfu/Placement.antt =====
-- Rooms and sessions together: each index in a room is a session that asked for that room, and stands
-- there once.
pub mod Counting
pub mod Changes
use nodemesh.Base.{ℕ, ◌≡◌, ◌≤◌, ◌<◌, List, Option, some, and_then, get_elem?}
use nodemesh.Text.{Text}
use nodemesh.Dict.{lookup}
use nodemesh.Sfu.Room.{Room, RoomRegistry}
use nodemesh.Sfu.Media.Delivery.{count}

module _ {ℓ} {S : Type ℓ} (room_of : S → Option Text) where
  -- The room that the session at an index asked for.
  abbrev pub room_at : List S → ℕ → Option Text
  room_at sessions i = and_then (get_elem? sessions i) room_of

  pub record IsPlaced (sessions : List S) (k : Text) (r : Room) : Type ℓ where
    pub subscribed : (i : ℕ) → 0 < count i r.subscribers → room_at sessions i ≡ some k
    pub published : (i : ℕ) → r.publisher ≡ some i → room_at sessions i ≡ some k
    pub once : (i : ℕ) → count i r.subscribers ≤ 1
    pub apart : (i : ℕ) → r.publisher ≡ some i → count i r.subscribers ≡ 0

  abbrev pub ArePlaced : List S → RoomRegistry → Type ℓ
  ArePlaced sessions reg =
      (k : Text) (r : Room) → lookup k reg.rooms ≡ some r → IsPlaced sessions k r
