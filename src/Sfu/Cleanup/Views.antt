-- ===== src/Sfu/Cleanup/Views.antt =====
-- The rooms as sets of living sessions: what the removal of one dead session leaves alone.
use nodemesh.Base.{
  ℕ, ◌≡◌, refl, ap, sym, ◌∙◌, inl, inr, Bool, true, false, not, ◌&&◌, List, [], ◌∷◌, Option, none,
  some, ◌==◌, ==_iff, if◌then◌else◌, Bool-cases, is_empty, and_then, is_some, retain, get_elem?,
}
use nodemesh.Text.{Text}
use nodemesh.Dict.{lookup, Distinct}
use nodemesh.Sfu.Room.{Room, RoomRegistry, leave, is_vacant, remove_session}
use nodemesh.Sfu.Room.Registry.{occupied, lookup-remove_session}
use nodemesh.Sfu.Room.Indices.{
  remove_at, members, add_member, View, resolve, forget, without_publisher, resolve-leave,
}

module _ {ℓ} {S : Type ℓ} (is_alive : S → Bool) where
  abbrev pub if_alive : Option S → Option S
  if_alive none = none
  if_alive (some s) = if is_alive s then some s else none

  -- Who of a room is alive.
  abbrev pub keep_alive : View S → View S
  keep_alive v = record {
    publisher = if_alive v.publisher;
    subscribers = retain is_alive v.subscribers;
  }

  -- A view with nobody in it is no room.
  abbrev pub inhabited : View S → Option (View S)
  inhabited v = if not (is_some v.publisher) && is_empty v.subscribers then none else some v

  -- The living sessions of the room of a name.
  abbrev pub living : List S → RoomRegistry → Text → Option (View S)
  living ss reg k = and_then (lookup k reg.rooms) (λ r. inhabited (keep_alive (resolve ss r)))

  at_index :
      (ss : List S) (i j : ℕ) {s : S} → get_elem? ss i ≡ some s → j ≡ i → get_elem? ss j ≡ some s
  at_index ss i j e p = rw p e

  keep_alive-publisher :
      (ss : List S) (i : ℕ) {s : S} (p : Option ℕ)
      → get_elem? ss i ≡ some s
      → is_alive s ≡ false
      → if_alive (and_then (without_publisher i p) (get_elem? ss))
        ≡ if_alive (and_then p (get_elem? ss))
  keep_alive-publisher ss i none e d = refl
  keep_alive-publisher ss i {s} (some j) e d = elim (Bool-cases (j == i)) [
    | inl q ↦ rw (q, at_index ss i j e ((==_iff j i).0 q), d)
    | inr q ↦ rw q
  ]

  retain-add_member :
      (xs ys : List S) (o : Option S)
      → retain is_alive xs ≡ retain is_alive ys
      → retain is_alive (add_member o xs) ≡ retain is_alive (add_member o ys)
  retain-add_member xs ys none h = h
  retain-add_member xs ys (some x) h = ap (λ r. if is_alive x then x ∷ r else r) h

  keep_alive-subscribers :
      (ss : List S) (i : ℕ) {s : S} (js : List ℕ)
      → get_elem? ss i ≡ some s
      → is_alive s ≡ false
      → retain is_alive (members ss (retain (λ j. not (j == i)) js))
        ≡ retain is_alive (members ss js)
  unfolding members
  keep_alive-subscribers ss i [] e d = refl
  keep_alive-subscribers ss i {s} (j ∷ js) e d = elim (Bool-cases (j == i)) [
    | inl q ↦ rw (q, at_index ss i j e ((==_iff j i).0 q), d) (keep_alive-subscribers ss i js e d)
    | inr q ↦ rw q (retain-add_member _ _ (get_elem? ss j) (keep_alive-subscribers ss i js e d))
  ]

  keep_alive-forget :
      (ss : List S) (i : ℕ) {s : S} (r : Room)
      → get_elem? ss i ≡ some s
      → is_alive s ≡ false
      → keep_alive (resolve ss (forget i r)) ≡ keep_alive (resolve ss r)
  keep_alive-forget ss i r e d = λ k. record {
    publisher = keep_alive-publisher ss i r.publisher e d k;
    subscribers = keep_alive-subscribers ss i r.subscribers e d k;
  }

  -- A vacant room has nobody alive in it.
  vacant-uninhabited :
      (ss : List S) (r : Room) → is_vacant r ≡ true → inhabited (keep_alive (resolve ss r)) ≡ none
  unfolding members
  vacant-uninhabited ss r h = go r.publisher r.subscribers h
    where
      go :
          (p : Option ℕ) (js : List ℕ)
          → (not (is_some p) && is_empty js) ≡ true
          → inhabited (record {
            publisher = if_alive (and_then p (get_elem? ss));
            subscribers = retain is_alive (members ss js);
          })
            ≡ none
      go none [] h = refl
      go none (j ∷ js) h = cc
      go (some p) js h = cc

  -- When a dead session is removed, the living sessions of every room stay what they were.
  pub living-remove_session :
      (ss : List S) (i : ℕ) {s : S} (reg : RoomRegistry) (k : Text)
      → Distinct reg.rooms
      → get_elem? ss i ≡ some s
      → is_alive s ≡ false
      → living (remove_at ss i) (remove_session reg i) k ≡ living ss reg k
  living-remove_session ss i reg k distinct e d =
      rw (lookup-remove_session reg i k distinct) (go (lookup k reg.rooms))
    where
      same :
          (r : Room)
          → inhabited (keep_alive (resolve (remove_at ss i) (leave i r)))
            ≡ inhabited (keep_alive (resolve ss r))
      same r =
          ap (λ v. inhabited (keep_alive v)) (resolve-leave ss i r)
          ∙ ap inhabited (keep_alive-forget ss i r e d)

      go :
          (o : Option Room)
          → and_then
              (and_then o (λ r. occupied (leave i r)))
              (λ r. inhabited (keep_alive (resolve (remove_at ss i) r)))
            ≡ and_then o (λ r. inhabited (keep_alive (resolve ss r)))
      go none = refl
      go (some r) = elim (Bool-cases (is_vacant (leave i r))) [
        | inl v ↦ rw v (sym (vacant-uninhabited (remove_at ss i) (leave i r) v) ∙ same r)
        | inr v ↦ rw v (same r)
      ]
