-- ===== src/Sfu/Cleanup/Sound.antt =====
-- The cleanup loop ends, keeps the living sessions in their order, and keeps every room's.
use nodemesh.Base.{
  ℕ, zero, suc, ◌+◌, ◌<◌, ◌≤◌, ◌≡◌, refl, ap, sym, ◌∙◌, inl, inr, Bool, true, false, not, ◌&&◌,
  List, [], ◌∷◌, Option, none, some, arith, if◌then◌else◌, Bool-cases, Option-cases, All, subst,
  is_empty, and_then, is_some, retain, length, get_elem?,
}
use nodemesh.Text.{Text}
use nodemesh.Sfu.Room.{Room, RoomRegistry, is_vacant, remove_session}
use nodemesh.Sfu.Room.Indices.{remove_at, members, View, resolve}
use nodemesh.Sfu.Room.Invariant.{PublisherBelow, AreRooms, remove_session-AreRooms}
use nodemesh.Sfu.Cleanup.{cleanup}
use nodemesh.Sfu.Cleanup.Views.{inhabited, living, living-remove_session}

module _ {ℓ} {S : Type ℓ} where
  pub get_elem?-lt : (ss : List S) (i : ℕ) {s : S} → get_elem? ss i ≡ some s → i < length ss
  get_elem?-lt [] i h = absurd (cc h)
  get_elem?-lt (x ∷ ss) zero h = omega arith
  get_elem?-lt (x ∷ ss) (suc i) h = omega (arith, get_elem?-lt ss i h)

  get_elem?-none : (ss : List S) (i : ℕ) → get_elem? ss i ≡ none → length ss ≤ i
  get_elem?-none [] i h = omega arith
  get_elem?-none (x ∷ ss) zero h = absurd (cc h)
  get_elem?-none (x ∷ ss) (suc i) h = omega (arith, get_elem?-none ss i h)

  pub length-remove_at :
      (ss : List S) (i : ℕ) → i < length ss → suc (length (remove_at ss i)) ≡ length ss
  unfolding remove_at
  length-remove_at [] i h = absurd (omega arith)
  length-remove_at (x ∷ ss) zero h = refl
  length-remove_at (x ∷ ss) (suc i) h = ap suc (length-remove_at ss i (omega arith))

  get_elem?-some : (ss : List S) (i : ℕ) → i < length ss → is_some (get_elem? ss i) ≡ true
  get_elem?-some [] i h = absurd (omega arith)
  get_elem?-some (x ∷ ss) zero h = refl
  get_elem?-some (x ∷ ss) (suc i) h = get_elem?-some ss i (omega arith)

module _ {ℓ} {S : Type ℓ} (is_alive : S → Bool) where
  -- The sessions in front of position `i` are alive.
  abbrev pub AliveBelow : ℕ → List S → Type 0
  AliveBelow i [] = Unit
  AliveBelow zero (s ∷ ss) = Unit
  AliveBelow (suc i) (s ∷ ss) = (is_alive s ≡ true) × AliveBelow i ss

  AliveBelow-suc :
      (i : ℕ) (ss : List S) {s : S}
      → AliveBelow i ss
      → get_elem? ss i ≡ some s
      → is_alive s ≡ true
      → AliveBelow (suc i) ss
  AliveBelow-suc i [] h e a = tt
  AliveBelow-suc zero (x ∷ []) h e a = (ground arith, tt)
  AliveBelow-suc zero (x ∷ y ∷ ss) h e a = (ground arith, tt)
  AliveBelow-suc (suc i) (x ∷ ss) h e a = (h.0, AliveBelow-suc i ss h.1 e a)

  AliveBelow-remove_at : (i : ℕ) (ss : List S) → AliveBelow i ss → AliveBelow i (remove_at ss i)
  unfolding remove_at
  AliveBelow-remove_at i [] h = tt
  AliveBelow-remove_at zero (x ∷ []) h = tt
  AliveBelow-remove_at zero (x ∷ y ∷ ss) h = tt
  AliveBelow-remove_at (suc i) (x ∷ ss) h = (h.0, AliveBelow-remove_at i ss h.1)

  retain-remove_at :
      (i : ℕ) (ss : List S) {s : S}
      → get_elem? ss i ≡ some s
      → is_alive s ≡ false
      → retain is_alive (remove_at ss i) ≡ retain is_alive ss
  unfolding remove_at
  retain-remove_at i [] e d = refl
  retain-remove_at zero (x ∷ ss) e d = ground arith
  retain-remove_at (suc i) (x ∷ ss) e d =
      ap (λ r. if is_alive x then x ∷ r else r) (retain-remove_at i ss e d)

  All-alive :
      (i : ℕ) (ss : List S) → AliveBelow i ss → length ss ≤ i → All (λ s. is_alive s ≡ true) ss
  All-alive i [] h l = tt
  All-alive zero (x ∷ ss) h l = absurd (omega arith)
  All-alive (suc i) (x ∷ ss) h l = (h.0, All-alive i ss h.1 (omega arith))

  pub retain-All : (ss : List S) → All (λ s. is_alive s ≡ true) ss → retain is_alive ss ≡ ss
  retain-All [] h = refl
  retain-All (x ∷ ss) h = rw h.0 (ap (◌∷◌ x) (retain-All ss h.1))

  -- What the loop is to give for the sessions and rooms that it began with.
  pub record Cleaned (ss : List S) (reg : RoomRegistry) (ss' : List S) (reg' : RoomRegistry)
      : Type ℓ where
    pub sessions : ss' ≡ retain is_alive ss
    pub rooms : AreRooms (length ss') reg'
    pub same : (k : Text) → living is_alive ss' reg' k ≡ living is_alive ss reg k
    pub alive : All (λ s. is_alive s ≡ true) ss'

  pub inhabited-occupied :
      (ss : List S) (n : ℕ) (r : Room)
      → length ss ≡ n
      → PublisherBelow n r.publisher
      → All (λ j. j < n) r.subscribers
      → is_vacant r ≡ false
      → inhabited is_alive (resolve ss r) ≡ some (resolve ss r)
  inhabited-occupied ss n r = go r.publisher r.subscribers
    where
      view : Option ℕ → List ℕ → View S
      view p js = record { publisher = and_then p (get_elem? ss); subscribers = members ss js }

      go :
          (p : Option ℕ) (js : List ℕ)
          → length ss ≡ n
          → PublisherBelow n p
          → All (λ j. j < n) js
          → (not (is_some p) && is_empty js) ≡ false
          → inhabited is_alive (view p js) ≡ some (view p js)
      go none [] l hp hs v = absurd (cc v)
      go none (j ∷ js) l hp hs v = unfold members in ground (arith, get_elem?-some ss j)
      go (some p) js l hp hs v = ground (arith, get_elem?-some ss p)

  done :
      (ss : List S) (i : ℕ) (reg : RoomRegistry)
      → length ss ≤ i
      → AliveBelow i ss
      → AreRooms (length ss) reg
      → Cleaned ss reg ss reg
  done ss i reg l a r =
      let living = All-alive i ss a l in
      record { sessions = sym (retain-All ss living); rooms = r; same = λ k. refl; alive = living }

  removed :
      (ss : List S) (i : ℕ) {s : S} (reg : RoomRegistry) (ss' : List S) (reg' : RoomRegistry)
      → get_elem? ss i ≡ some s
      → is_alive s ≡ false
      → AreRooms (length ss) reg
      → Cleaned (remove_at ss i) (remove_session reg i) ss' reg'
      → Cleaned ss reg ss' reg'
  removed ss i reg ss' reg' e d r c = record {
    sessions = c.sessions ∙ retain-remove_at i ss e d;
    rooms = c.rooms;
    same = λ k. c.same k ∙ living-remove_session is_alive ss i reg k r.distinct e d;
    alive = c.alive;
  }

  removed-AreRooms :
      (ss : List S) (i : ℕ) (reg : RoomRegistry)
      → i < length ss
      → AreRooms (length ss) reg
      → AreRooms (length (remove_at ss i)) (remove_session reg i)
  removed-AreRooms ss i reg l r =
      let n = length-remove_at ss i l in
      remove_session-AreRooms (length (remove_at ss i)) i reg (omega (arith, n))
        (subst (λ m. AreRooms m reg) (sym n) r)

  pub cleanup-Cleaned :
      (fuel i : ℕ) (ss : List S) (reg : RoomRegistry)
      → length ss < fuel + i
      → i ≤ length ss
      → AliveBelow i ss
      → AreRooms (length ss) reg
      → (ss' : List S) × (reg' : RoomRegistry) × (cleanup is_alive fuel i ss reg ≡ some (ss', reg'))
        × Cleaned ss reg ss' reg'
  unfolding cleanup
  cleanup-Cleaned zero i ss reg f b a r = absurd (omega arith)
  cleanup-Cleaned (suc fuel) i ss reg f b a r = elim (Option-cases (get_elem? ss i)) [
    | inl e ↦ (ss, reg, rw (e, cleanup), done ss i reg (get_elem?-none ss i e) a r)
    | inr (s, e) ↦ elim (Bool-cases (is_alive s)) [
      | inl live ↦
          let (ss', reg', run, c) =
            cleanup-Cleaned fuel (i + 1) ss reg (omega arith) (omega (arith, get_elem?-lt ss i e))
              (subst (λ j. AliveBelow j ss) (omega arith) (AliveBelow-suc i ss a e live)) r in
          (ss', reg', rw (e, cleanup) (rw (live, cleanup) run), c)
      | inr dead ↦
          let n = length-remove_at ss i (get_elem?-lt ss i e) in
          let (ss', reg', run, c) =
            cleanup-Cleaned fuel i (remove_at ss i) (remove_session reg i) (omega (arith, n))
              (omega (arith, n, get_elem?-lt ss i e)) (AliveBelow-remove_at i ss a)
              (removed-AreRooms ss i reg (get_elem?-lt ss i e) r) in
          (
            ss',
            reg',
            rw (e, cleanup) (rw (dead, cleanup) run),
            removed ss i reg ss' reg' e dead r c,
          )
    ]
  ]
