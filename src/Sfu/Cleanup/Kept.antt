-- ===== src/Sfu/Cleanup/Kept.antt =====
-- What the removal of a dead session keeps, the cleanup loop keeps.
use nodemesh.Base.{
  ℕ, zero, suc, ◌+◌, ◌≡◌, Bool, List, some, arith, inl, inr, Bool-cases, Option-cases, get_elem?,
  unwrap_or, ap, subst,
}
use nodemesh.Sfu.Room.{RoomRegistry, remove_session}
use nodemesh.Sfu.Room.Indices.{remove_at}
use nodemesh.Sfu.Cleanup.{cleanup}

pub cleanup_inv {ℓ κ} :
    {S : Type ℓ} (is_alive : S → Bool) (P : List S → RoomRegistry → Type κ)
    → ((ss : List S) (reg : RoomRegistry) (i : ℕ) (s : S)
        → get_elem? ss i ≡ some s
        → P ss reg
        → P (remove_at ss i) (remove_session reg i))
    → (fuel i : ℕ) (ss : List S) (reg : RoomRegistry) (ss' : List S) (reg' : RoomRegistry)
    → P ss reg
    → cleanup is_alive fuel i ss reg ≡ some (ss', reg')
    → P ss' reg'
unfolding cleanup
cleanup_inv is_alive P keep zero i ss reg ss' reg' h e = absurd (ground (arith, e))
cleanup_inv is_alive P keep (suc fuel) i ss reg ss' reg' h e =
    elim (Option-cases (get_elem? ss i)) [
      | inl q ↦
          let done : some (ss, reg) ≡ some (ss', reg') = rw (q, cleanup) at e in
          subst (λ (r : List _ × RoomRegistry). P r.0 r.1) (ap (λ o. unwrap_or o (ss, reg)) done) h
      | inr (s, q) ↦ elim (Bool-cases (is_alive s)) [
        | inl r ↦
            cleanup_inv is_alive P keep fuel (i + 1) ss reg ss' reg' h
              (rw (r, cleanup) at (rw (q, cleanup) at e))
        | inr r ↦
            cleanup_inv is_alive P keep fuel i (remove_at ss i) (remove_session reg i) ss' reg'
              (keep ss reg i s q h) (rw (r, cleanup) at (rw (q, cleanup) at e))
      ]
    ]
