-- ===== src/Sfu/Cleanup/Outcome.antt =====
-- The sessions and rooms that the cleanup loop leaves, in one statement.
use nodemesh.Base.{
  ℕ, zero, suc, ◌+◌, ◌≡◌, refl, ap, sym, ◌∙◌, Bool, true, List, [], ◌∷◌, Option, none, some, arith,
  All, map_option, and_then, retain, length, get_elem?,
}
use nodemesh.Text.{Text}
use nodemesh.Dict.{lookup}
use nodemesh.Sfu.Room.{Room, RoomRegistry}
use nodemesh.Sfu.Room.Indices.{members, add_member, resolve}
use nodemesh.Sfu.Room.Invariant.{AreRooms}
use nodemesh.Sfu.Cleanup.{cleanup}
use nodemesh.Sfu.Cleanup.Views.{if_alive, keep_alive, inhabited, living}
use nodemesh.Sfu.Cleanup.Sound.{cleanup-Cleaned, inhabited-occupied, retain-All, AliveBelow}

module _ {ℓ} {S : Type ℓ} (is_alive : S → Bool) where
  -- What a position of the list holds is alive.
  OptionAlive : Option S → Type 0
  OptionAlive none = Unit
  OptionAlive (some s) = is_alive s ≡ true

  get_elem?-alive :
      (ss : List S) (i : ℕ) → All (λ s. is_alive s ≡ true) ss → OptionAlive (get_elem? ss i)
  unfolding OptionAlive
  get_elem?-alive [] i h = tt
  get_elem?-alive (x ∷ ss) zero h = h.0
  get_elem?-alive (x ∷ ss) (suc i) h = get_elem?-alive ss i h.1

  if_alive-alive : (o : Option S) → OptionAlive o → if_alive is_alive o ≡ o
  unfolding OptionAlive
  if_alive-alive none h = refl
  if_alive-alive (some s) h = rw h

  members-alive :
      (ss : List S) (js : List ℕ)
      → All (λ s. is_alive s ≡ true) ss
      → All (λ s. is_alive s ≡ true) (members ss js)
  unfolding members OptionAlive
  members-alive ss [] h = tt
  members-alive ss (j ∷ js) h =
      add (get_elem? ss j) (members ss js) (get_elem?-alive ss j h) (members-alive ss js h)
    where
      add :
          (o : Option S) (r : List S)
          → OptionAlive o
          → All (λ s. is_alive s ≡ true) r
          → All (λ s. is_alive s ≡ true) (add_member o r)
      add none r a h = h
      add (some s) r a h = (a, h)

  keep_alive-alive :
      (ss : List S) (r : Room)
      → All (λ s. is_alive s ≡ true) ss
      → keep_alive is_alive (resolve ss r) ≡ resolve ss r
  keep_alive-alive ss r h = λ k. record {
    publisher = if_alive-alive (and_then r.publisher (get_elem? ss)) (published r.publisher) k;
    subscribers =
        retain-All is_alive (members ss r.subscribers) (members-alive ss r.subscribers h) k;
  }
    where
      published : (p : Option ℕ) → OptionAlive (and_then p (get_elem? ss))
      published none = unfold OptionAlive in tt
      published (some i) = get_elem?-alive ss i h

  living-alive :
      (ss : List S) (reg : RoomRegistry) (k : Text)
      → AreRooms (length ss) reg
      → All (λ s. is_alive s ≡ true) ss
      → living is_alive ss reg k ≡ map_option (resolve ss) (lookup k reg.rooms)
  living-alive ss reg k rooms h = go (lookup k reg.rooms) refl
    where
      go :
          (o : Option Room)
          → lookup k reg.rooms ≡ o
          → and_then o (λ r. inhabited is_alive (keep_alive is_alive (resolve ss r)))
            ≡ map_option (resolve ss) o
      go none e = refl
      go (some r) e =
          let v = rooms.each k r e in
          ap (inhabited is_alive) (keep_alive-alive ss r h)
          ∙ inhabited-occupied is_alive ss (length ss) r refl v.publisher_below v.subscribers_below
              v.somebody

  -- The cleanup loop ends after at most one round more than there are sessions. It leaves the living
  -- sessions in their order and rooms over them, and every name has the room of its living members:
  -- a room with nobody alive is gone, and the others keep their living publisher and subscribers.
  pub cleanup_lem :
      (ss : List S) (reg : RoomRegistry)
      → AreRooms (length ss) reg
      → (ss' : List S) × (reg' : RoomRegistry) × (cleanup is_alive (length ss + 1) 0 ss reg
          ≡ some (ss', reg'))
        × (ss' ≡ retain is_alive ss)
        × AreRooms (length ss') reg'
        × ((k : Text) → map_option (resolve ss') (lookup k reg'.rooms) ≡ living is_alive ss reg k)
  cleanup_lem ss reg rooms =
      let (ss', reg', run, c) =
        cleanup-Cleaned is_alive (length ss + 1) 0 ss reg (omega arith) (omega arith) (start ss)
          rooms in
      (
        ss',
        reg',
        run,
        c.sessions,
        c.rooms,
        λ k. sym (living-alive ss' reg' k c.rooms c.alive) ∙ c.same k,
      )
    where
      start : (ss : List S) → AliveBelow is_alive 0 ss
      start [] = tt
      start (s ∷ ss) = tt
