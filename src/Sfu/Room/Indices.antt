-- ===== src/Sfu/Room/Indices.antt =====
-- Indices and the sessions that they stand for: after `sessions.remove(i)` and `remove_session(i)`
-- every index that is left stands for the session it stood for.
use nodemesh.Base.{
  ℕ, zero, suc, ◌-◌, ◌<◌, ◌≤◌, ◌≡◌, refl, inl, inr, ◌≢◌, true, not, List, [], ◌∷◌, Option, none,
  some, arith, ◌==◌, ltb, if◌then◌else◌, Bool-cases, subst, map, and_then, retain, get_elem?,
}
use mathlib.Core.Path.{ap₂}
use nodemesh.Sfu.Room.{Room, shift, shift_publisher, leave}

-- `Vec::remove`.
unfoldable pub remove_at {ℓ} : {A : Type ℓ} → List A → ℕ → List A
remove_at [] i = []
remove_at (x ∷ xs) zero = xs
remove_at (x ∷ xs) (suc i) = x ∷ remove_at xs i

module _ {ℓ} {S : Type ℓ} where
  pub get_elem?-remove_at_lt :
      (ss : List S) (i j : ℕ) → j < i → get_elem? (remove_at ss i) j ≡ get_elem? ss j
  unfolding remove_at
  get_elem?-remove_at_lt [] i j h = refl
  get_elem?-remove_at_lt (x ∷ ss) zero j h = absurd (omega arith)
  get_elem?-remove_at_lt (x ∷ ss) (suc i) zero h = refl
  get_elem?-remove_at_lt (x ∷ ss) (suc i) (suc j) h = get_elem?-remove_at_lt ss i j (omega arith)

  pub get_elem?-remove_at_ge :
      (ss : List S) (i j : ℕ) → i ≤ j → get_elem? (remove_at ss i) j ≡ get_elem? ss (suc j)
  unfolding remove_at
  get_elem?-remove_at_ge [] i j h = refl
  get_elem?-remove_at_ge (x ∷ ss) zero j h = refl
  get_elem?-remove_at_ge (x ∷ ss) (suc i) zero h = absurd (omega arith)
  get_elem?-remove_at_ge (x ∷ ss) (suc i) (suc j) h = get_elem?-remove_at_ge ss i j (omega arith)

  pub get_elem?-shift :
      (ss : List S) (i j : ℕ) → j ≢ i → get_elem? (remove_at ss i) (shift i j) ≡ get_elem? ss j
  unfolding shift
  get_elem?-shift ss i j ne = elim (Bool-cases (ltb i j)) [
    | inl above ↦ rw above (
        subst (λ k. get_elem? (remove_at ss i) (j - 1) ≡ get_elem? ss k) (up j i above)
          (get_elem?-remove_at_ge ss i (j - 1) (ground arith)))
    | inr below ↦ rw below (get_elem?-remove_at_lt ss i j (ground arith))
  ]
    where
      up : (j i : ℕ) → ltb i j ≡ true → suc (j - 1) ≡ j
      up j i h = ground arith

  abbrev pub add_member : Option S → List S → List S
  add_member none r = r
  add_member (some s) r = s ∷ r

  -- The sessions that a list of indices stands for.
  unfoldable pub members : List S → List ℕ → List S
  members ss [] = []
  members ss (j ∷ js) = add_member (get_elem? ss j) (members ss js)

  members-shift :
      (ss : List S) (i : ℕ) (js : List ℕ)
      → members (remove_at ss i) (map (shift i) (retain (λ j. not (j == i)) js))
        ≡ members ss (retain (λ j. not (j == i)) js)
  unfolding members
  members-shift ss i [] = refl
  members-shift ss i (j ∷ js) = elim (Bool-cases (j == i)) [
    | inl e ↦ rw e (members-shift ss i js)
    | inr e ↦ rw e (
        ap₂ add_member (get_elem?-shift ss i j (λ p. absurd (ground arith)))
          (members-shift ss i js))
  ]

-- A room seen as the sessions in it.
pub record View {ℓ} (S : Type ℓ) : Type ℓ where
  pub publisher : Option S
  pub subscribers : List S

abbrev pub without_publisher : ℕ → Option ℕ → Option ℕ
without_publisher i none = none
without_publisher i (some j) = if j == i then none else some j

-- The room without the references to session `i`.
abbrev pub forget : ℕ → Room → Room
forget i r = record r {
  publisher = without_publisher i r.publisher;
  subscribers = retain (λ j. not (j == i)) r.subscribers;
}

module _ {ℓ} {S : Type ℓ} where
  abbrev pub resolve : List S → Room → View S
  resolve ss r = record {
    publisher = and_then r.publisher (get_elem? ss);
    subscribers = members ss r.subscribers;
  }

  publisher-shift :
      (ss : List S) (i : ℕ) (p : Option ℕ)
      → and_then (shift_publisher i p) (get_elem? (remove_at ss i))
        ≡ and_then (without_publisher i p) (get_elem? ss)
  unfolding shift_publisher
  publisher-shift ss i none = refl
  publisher-shift ss i (some j) = elim (Bool-cases (j == i)) [
    | inl e ↦ rw e
    | inr e ↦ rw e (get_elem?-shift ss i j (λ p. absurd (ground arith)))
  ]

  -- A session leaves, and the index that every other one has moves with it: in the shortened session
  -- list the room stands for the sessions it stood for, without the one that left.
  pub resolve-leave :
      (ss : List S) (i : ℕ) (r : Room)
      → resolve (remove_at ss i) (leave i r) ≡ resolve ss (forget i r)
  unfolding leave
  resolve-leave ss i r = λ k. record {
    publisher = publisher-shift ss i r.publisher k;
    subscribers = members-shift ss i r.subscribers k;
  }
