-- ===== src/Text/Split.antt =====
-- `split_once` and `splitn` at a separator.
use nodemesh.Base.{
  ℕ, zero, suc, ◌≡◌, refl, inl, inr, ◌≢◌, List, [], ◌∷◌, ◌++◌, Option, none, some, arith, All,
  Option-cases,
}
use nodemesh.Text.{Text, strip_prefix, strip_prefix-append, strip_prefix-eq-some}

-- The first element of a found pair gets `c` in front.
abbrev pub push_left : ℕ → Option (Text × Text) → Option (Text × Text)
push_left c none = none
push_left c (some (a, b)) = some (c ∷ a, b)

-- What stands before and behind the first occurrence of `sep`.
unfoldable pub split_once : Text → Text → Option (Text × Text)
unfolding strip_prefix
split_once sep [] = elim (strip_prefix sep []) [ some r ↦ some ([], r) | none ↦ none ]
split_once sep (c ∷ s) = elim (strip_prefix sep (c ∷ s)) [
  | some r ↦ some ([], r)
  | none ↦ push_left c (split_once sep s)
]

-- Parts at the separator, at most `n`, the last of them unsplit.
unfoldable pub splitn : ℕ → Text → Text → List Text
unfolding split_once
splitn zero sep s = []
splitn (suc zero) sep s = s ∷ []
splitn (suc (suc n)) sep s = elim (split_once sep s) [
  | none ↦ s ∷ []
  | some (a, b) ↦ a ∷ splitn (suc n) sep b
]

-- Nothing of the separator is left out.
pub split_once-eq-some :
    (sep s : Text) {a b : Text} → split_once sep s ≡ some (a, b) → s ≡ a ++ (sep ++ b)
unfolding split_once
split_once-eq-some sep [] {a} {b} h = elim (Option-cases (strip_prefix sep [])) [
  | inl e ↦ ground (arith, e)
  | inr (r, e) ↦ ground (arith, e, strip_prefix-eq-some sep [] e)
]
split_once-eq-some sep (c ∷ s) {a} {b} h = elim (Option-cases (strip_prefix sep (c ∷ s))) [
  | inr (r, e) ↦ ground (arith, e, strip_prefix-eq-some sep (c ∷ s) e)
  | inl e ↦ elim (Option-cases (split_once sep s)) [
    | inl f ↦ ground (arith, e, f)
    | inr ((x, y), f) ↦ ground (arith, e, f, split_once-eq-some sep s f)
  ]
]

-- The separator's first character does not occur.
abbrev pub Without : ℕ → Text → Type 0
Without d = All (λ c. c ≢ d)

pub split_once-append :
    (d : ℕ) (sep a b : Text)
    → Without d a
    → split_once (d ∷ sep) (a ++ ((d ∷ sep) ++ b)) ≡ some (a, b)
unfolding split_once
split_once-append d sep [] b h = ground (arith, strip_prefix-append (d ∷ sep) b)
split_once-append d sep (c ∷ a) b h = ground (arith, split_once-append d sep a b h.1, miss)
  where
    miss : strip_prefix (d ∷ sep) (c ∷ (a ++ ((d ∷ sep) ++ b))) ≡ none
    miss = unfold strip_prefix in ground arith

pub split_once-none : (d : ℕ) (sep s : Text) → Without d s → split_once (d ∷ sep) s ≡ none
unfolding split_once
split_once-none d sep [] h = refl
split_once-none d sep (c ∷ s) h = ground (arith, split_once-none d sep s h.1, miss)
  where
    miss : strip_prefix (d ∷ sep) (c ∷ s) ≡ none
    miss = unfold strip_prefix in ground arith

-- At a one-character separator, the part before it is free of it.
pub split_once-Without :
    (d : ℕ) (s : Text) {a b : Text} → split_once (d ∷ []) s ≡ some (a, b) → Without d a
unfolding split_once strip_prefix
split_once-Without d [] {a} {b} h = cc
split_once-Without d (c ∷ s) {a} {b} h = elim (Option-cases (split_once (d ∷ []) s)) [
  | inl f ↦ ground (arith, f)
  | inr ((x, y), f) ↦ ground (arith, f, split_once-Without d s f)
]

pub split_once-eq-none : (d : ℕ) (s : Text) → split_once (d ∷ []) s ≡ none → Without d s
unfolding split_once strip_prefix
split_once-eq-none d [] h = tt
split_once-eq-none d (c ∷ s) h = elim (Option-cases (split_once (d ∷ []) s)) [
  | inl f ↦ ground (arith, f, split_once-eq-none d s f)
  | inr ((x, y), f) ↦ ground (arith, f)
]
