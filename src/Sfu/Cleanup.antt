-- ===== src/Sfu/Cleanup.antt =====
-- The loop at the end of `sfu_loop` (crates/sfu/src/lib.rs) that removes the dead sessions, over any
-- type of sessions with a test for life.
pub mod Views
pub mod Sound
pub mod Outcome
pub mod Kept
use nodemesh.Base.{
  ℕ, zero, suc, ◌+◌, Bool, true, false, List, [], ◌∷◌, Option, none, some, get_elem?,
}
use nodemesh.Sfu.Room.{RoomRegistry, remove_session}
use nodemesh.Sfu.Room.Indices.{remove_at}

module _ {ℓ} {S : Type ℓ} (is_alive : S → Bool) where
  -- `while i < sessions.len()`; `none` means that the fuel ran out.
  unfoldable pub cleanup : ℕ → ℕ → List S → RoomRegistry → Option (List S × RoomRegistry)
  unfolding remove_at remove_session
  cleanup zero i sessions rooms = none
  cleanup (suc fuel) i sessions rooms = elim (get_elem? sessions i) [
    | none ↦ some (sessions, rooms)
    | some session ↦ elim (is_alive session) [
      | true ↦ cleanup fuel (i + 1) sessions rooms
      | false ↦ cleanup fuel i (remove_at sessions i) (remove_session rooms i)
    ]
  ]
