-- ===== src/Sfu/Media/Delivery.antt =====
-- Which sessions a fan-out reaches.
use nodemesh.Base.{
  ℕ, zero, suc, ◌<◌, ◌≡◌, refl, ap, sym, ◌∙◌, inl, inr, true, false, List, [], ◌∷◌, Option, none,
  some, arith, ◌==◌, ==_iff, if◌then◌else◌, Bool-cases, Option-cases, map_option, get_elem?, set,
  length, subst,
}
use nodemesh.Sfu.Media.{has_index, fan_out}

-- How often an index stands in a list.
abbrev pub count : ℕ → List ℕ → ℕ
count j [] = 0
count j (i ∷ is) = let rest = count j is in if i == j then suc rest else rest

abbrev pub times {ℓ} : {S : Type ℓ} → ℕ → (S → S) → S → S
times zero f s = s
times (suc n) f s = times n f (f s)

module _ {ℓ} {S : Type ℓ} where
  pub get_elem?-set_same :
      (ss : List S) (i : ℕ) (v : S) {s : S}
      → get_elem? ss i ≡ some s
      → get_elem? (set ss i v) i ≡ some v
  get_elem?-set_same [] i v h = absurd (ground (arith, h))
  get_elem?-set_same (x ∷ ss) zero v h = refl
  get_elem?-set_same (x ∷ ss) (suc i) v h = get_elem?-set_same ss i v h

  pub get_elem?-set_other :
      (ss : List S) (i j : ℕ) (v : S) → (i == j) ≡ false → get_elem? (set ss i v) j ≡ get_elem? ss j
  get_elem?-set_other [] i j v h = refl
  get_elem?-set_other (x ∷ ss) zero zero v h = absurd (ground arith)
  get_elem?-set_other (x ∷ ss) zero (suc j) v h = refl
  get_elem?-set_other (x ∷ ss) (suc i) zero v h = refl
  get_elem?-set_other (x ∷ ss) (suc i) (suc j) v h = get_elem?-set_other ss i j v (ground arith)

  pub length-set : (ss : List S) (i : ℕ) (v : S) → length (set ss i v) ≡ length ss
  length-set [] i v = refl
  length-set (x ∷ ss) zero v = refl
  length-set (x ∷ ss) (suc i) v = ap suc (length-set ss i v)

  -- The same index, under its other name.
  pub get_elem?-same :
      (ss : List S) (i j : ℕ) {o : Option S}
      → (i == j) ≡ true
      → get_elem? ss i ≡ o
      → get_elem? ss j ≡ o
  get_elem?-same ss i j {o} q e = subst (λ k. get_elem? ss k ≡ o) ((==_iff i j).0 q) e

  map_option-none : (f g : S → S) (o : Option S) → o ≡ none → map_option f o ≡ map_option g o
  map_option-none f g none e = refl
  map_option-none f g (some s) e = absurd (ground (arith, e))

  map_option_id : (o : Option S) → o ≡ map_option (λ s. s) o
  map_option_id none = refl
  map_option_id (some s) = refl

module _ {ℓ κ} {S : Type ℓ} {T : Type κ} (step : S → S × List T) where
  -- A fan-out changes each session as often as its index is listed, and no other session.
  pub get_elem?-fan_out :
      (ss : List S) (is : List ℕ) (j : ℕ)
      → get_elem? (fan_out step ss is).0 j
        ≡ map_option (times (count j is) (λ s. (step s).0)) (get_elem? ss j)
  unfolding fan_out
  get_elem?-fan_out ss [] j = map_option_id (get_elem? ss j)
  get_elem?-fan_out ss (i ∷ is) j = elim (Option-cases (get_elem? ss i)) [
    | inl e ↦ elim (Bool-cases (i == j)) [
      | inl q ↦ rw q (
          rw (e, fan_out)
            (get_elem?-fan_out ss is j
              ∙ map_option-none _ _ (get_elem? ss j) (get_elem?-same ss i j q e)))
      | inr q ↦ rw q (rw (e, fan_out) (get_elem?-fan_out ss is j))
    ]
    | inr (s, e) ↦ elim (Bool-cases (i == j)) [
      | inl q ↦ rw q (
          rw (e, fan_out)
            (get_elem?-fan_out (set ss i (step s).0) is j
              ∙ ap (map_option (times (count j is) (λ s'. (step s').0))) (
                  get_elem?-same (set ss i (step s).0) i j q (get_elem?-set_same ss i (step s).0 e))
              ∙ ap (map_option (times (suc (count j is)) (λ s'. (step s').0)))
                  (sym (get_elem?-same ss i j q e))))
      | inr q ↦ rw q (
          rw (e, fan_out)
            (get_elem?-fan_out (set ss i (step s).0) is j
              ∙ ap (map_option (times (count j is) (λ s'. (step s').0)))
                  (get_elem?-set_other ss i j (step s).0 q)))
    ]
  ]

pub has_index-count : (i : ℕ) (is : List ℕ) → has_index i is ≡ true → 0 < count i is
has_index-count i [] h = absurd (ground (arith, h))
has_index-count i (j ∷ is) h = elim (Bool-cases (j == i)) [
  | inl e ↦ rw e (omega arith)
  | inr e ↦ rw e (has_index-count i is (rw e at h))
]
