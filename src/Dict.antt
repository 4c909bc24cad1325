-- ===== src/Dict.antt =====
-- Rust's `HashMap<String, V>` as an association list whose keys differ. The order of the list stands
-- for the order of iteration, which the program does not fix: statements hold for every list.
pub mod Order
use nodemesh.Base.{
  ◌≡◌, refl, sym, inl, inr, ◌≢◌, Bool, false, List, [], ◌∷◌, ◌++◌, Option, none, some, arith,
  if◌then◌else◌, Bool-cases, All, is_some, map_option, subst,
}
use nodemesh.Text.{Text, text_eq, text_eq_iff, text_eq_refl, text_eq-cases}

abbrev pub Dict {ℓ} : Type ℓ → Type ℓ
Dict V = List (Text × V)

module _ {ℓ} {V : Type ℓ} where
  -- `get`.
  unfoldable pub lookup : Text → Dict V → Option V
  lookup k [] = none
  lookup k ((j, v) ∷ m) = if text_eq j k then some v else lookup k m

  -- `insert`, which replaces the value of a key that is there.
  unfoldable pub insert : Text → V → Dict V → Dict V
  insert k v [] = (k, v) ∷ []
  insert k v ((j, w) ∷ m) = if text_eq j k then (k, v) ∷ m else (j, w) ∷ insert k v m

  -- `remove`.
  unfoldable pub remove : Text → Dict V → Dict V
  remove k [] = []
  remove k ((j, w) ∷ m) = if text_eq j k then m else (j, w) ∷ remove k m

  -- The value of one key is replaced through `get_mut`.
  unfoldable pub update : Text → (V → V) → Dict V → Dict V
  update k f [] = []
  update k f ((j, w) ∷ m) = if text_eq j k then (j, f w) ∷ m else (j, w) ∷ update k f m

  abbrev pub contains_key : Text → Dict V → Bool
  contains_key k m = is_some (lookup k m)

  -- No entry has the key.
  abbrev pub Lacks : Text → Dict V → Type 0
  Lacks k [] = Unit
  Lacks k (e ∷ m) = (e.0 ≢ k) × Lacks k m

  -- The keys differ.
  abbrev pub Distinct : Dict V → Type 0
  Distinct [] = Unit
  Distinct (e ∷ m) = Lacks e.0 m × Distinct m

  pub lookup-insert :
      (k j : Text) (v : V) (m : Dict V)
      → lookup j (insert k v m) ≡ (if text_eq k j then some v else lookup j m)
  unfolding lookup insert
  lookup-insert k j v [] = refl
  lookup-insert k j v ((i, w) ∷ m) =
      ground (arith, text_eq_iff k j, text_eq_iff i k, text_eq_iff i j, lookup-insert k j v m)

  pub lookup-Lacks : (k : Text) (m : Dict V) → Lacks k m → lookup k m ≡ none
  unfolding lookup
  lookup-Lacks k [] h = refl
  lookup-Lacks k ((j, w) ∷ m) h = ground (arith, text_eq_iff j k, lookup-Lacks k m h.1)

  pub All-insert {κ} :
      (P : Text × V → Type κ) (k : Text) (v : V) (m : Dict V)
      → P (k, v)
      → All P m
      → All P (insert k v m)
  unfolding insert
  All-insert P k v [] p h = (p, tt)
  All-insert P k v ((i, w) ∷ m) p h = elim (Bool-cases (text_eq i k)) [
    | inl e ↦ rw e (p, h.1)
    | inr e ↦ rw e (h.0, All-insert P k v m p h.1)
  ]

  pub insert_new : (k : Text) (v : V) (m : Dict V) → Lacks k m → insert k v m ≡ m ++ ((k, v) ∷ [])
  unfolding insert
  insert_new k v [] h = refl
  insert_new k v ((i, w) ∷ m) h = ground (arith, text_eq_iff i k, insert_new k v m h.1)

  pub lookup-remove_self : (k : Text) (m : Dict V) → Distinct m → lookup k (remove k m) ≡ none
  unfolding lookup remove
  lookup-remove_self k [] d = refl
  lookup-remove_self k ((j, w) ∷ m) d = elim (text_eq-cases j k) [
    | inl e ↦ rw (e, text_eq_refl k) (lookup-Lacks k m (subst (λ x. Lacks x m) e d.0))
    | inr e ↦ rw e (rw e (lookup-remove_self k m d.1))
  ]

  pub lookup-remove_ne : (k j : Text) (m : Dict V) → k ≢ j → lookup j (remove k m) ≡ lookup j m
  unfolding lookup remove
  lookup-remove_ne k j [] ne = refl
  lookup-remove_ne k j ((i, w) ∷ m) ne =
      ground (arith, text_eq_iff i k, text_eq_iff i j, lookup-remove_ne k j m ne)

  pub insert-Lacks : (k j : Text) (v : V) (m : Dict V) → k ≢ j → Lacks j m → Lacks j (insert k v m)
  unfolding insert
  insert-Lacks k j v [] ne h = (ne, tt)
  insert-Lacks k j v ((i, w) ∷ m) ne h = elim (Bool-cases (text_eq i k)) [
    | inl e ↦ rw e (ne, h.1)
    | inr e ↦ rw e (h.0, insert-Lacks k j v m ne h.1)
  ]

  pub insert-Distinct : (k : Text) (v : V) (m : Dict V) → Distinct m → Distinct (insert k v m)
  unfolding insert
  insert-Distinct k v [] d = (tt, tt)
  insert-Distinct k v ((i, w) ∷ m) d = elim (text_eq-cases i k) [
    | inl e ↦ rw (e, text_eq_refl k) (subst (λ x. Lacks x m) e d.0, d.1)
    | inr e ↦ rw e (insert-Lacks k i v m (λ p. differ i k e (sym p)) d.0, insert-Distinct k v m d.1)
  ]
    where
      differ : (i k : Text) → text_eq i k ≡ false → i ≢ k
      differ i k e p = ground (arith, text_eq_iff i k)

  pub remove-Lacks : (k j : Text) (m : Dict V) → Lacks j m → Lacks j (remove k m)
  unfolding remove
  remove-Lacks k j [] h = tt
  remove-Lacks k j ((i, w) ∷ m) h = elim (Bool-cases (text_eq i k)) [
    | inl e ↦ rw e h.1
    | inr e ↦ rw e (h.0, remove-Lacks k j m h.1)
  ]

  pub remove-Distinct : (k : Text) (m : Dict V) → Distinct m → Distinct (remove k m)
  unfolding remove
  remove-Distinct k [] d = tt
  remove-Distinct k ((i, w) ∷ m) d = elim (Bool-cases (text_eq i k)) [
    | inl e ↦ rw e d.1
    | inr e ↦ rw e (remove-Lacks k i m d.0, remove-Distinct k m d.1)
  ]

  pub lookup-update :
      (k j : Text) (f : V → V) (m : Dict V)
      → lookup j (update k f m) ≡ (if text_eq k j then map_option f (lookup j m) else lookup j m)
  unfolding lookup update
  lookup-update k j f [] = elim (Bool-cases (text_eq k j)) [ inl e ↦ rw e | inr e ↦ rw e ]
  lookup-update k j f ((i, w) ∷ m) = elim (text_eq-cases i k) [
    | inl e ↦ rw e (ground (arith, text_eq_refl k))
    | inr e ↦
        ground (arith, e, text_eq_iff i k, text_eq_iff i j, text_eq_iff k j, lookup-update k j f m)
  ]

  update-Lacks : (k j : Text) (f : V → V) (m : Dict V) → Lacks j m → Lacks j (update k f m)
  unfolding update
  update-Lacks k j f [] h = tt
  update-Lacks k j f ((i, w) ∷ m) h = elim (Bool-cases (text_eq i k)) [
    | inl e ↦ rw e h
    | inr e ↦ rw e (h.0, update-Lacks k j f m h.1)
  ]

  pub update-Distinct : (k : Text) (f : V → V) (m : Dict V) → Distinct m → Distinct (update k f m)
  unfolding update
  update-Distinct k f [] d = tt
  update-Distinct k f ((i, w) ∷ m) d = elim (Bool-cases (text_eq i k)) [
    | inl e ↦ rw e d
    | inr e ↦ rw e (update-Lacks k i f m d.0, update-Distinct k f m d.1)
  ]
