-- ===== src/Sfu/Placement/Counting.antt =====
-- How often an index stands among others, when a session leaves or is added.
use nodemesh.Base.{
  ℕ, zero, suc, ◌+◌, ◌≡◌, ◌≤◌, ◌<◌, refl, ap, inl, inr, false, not, List, [], ◌∷◌, ◌++◌, Option,
  none, some, arith, ◌==◌, ltb, if◌then◌else◌, Bool-cases, map, retain, get_elem?, length, All,
}
use nodemesh.Sfu.Room.{shift, shift_publisher}
use nodemesh.Sfu.Room.Indices.{remove_at, get_elem?-remove_at_lt, get_elem?-remove_at_ge}
use nodemesh.Sfu.Media.Delivery.{count}

-- The index that a session had before session `i` left.
abbrev pub unshift : ℕ → ℕ → ℕ
unshift i j = if ltb j i then j else suc j

pub get_elem?-unshift {ℓ} :
    {S : Type ℓ} (ss : List S) (i j : ℕ) → get_elem? (remove_at ss i) j ≡ get_elem? ss (unshift i j)
get_elem?-unshift ss i j = elim (Bool-cases (ltb j i)) [
  | inl e ↦ rw e (get_elem?-remove_at_lt ss i j (ground arith))
  | inr e ↦ rw e (get_elem?-remove_at_ge ss i j (ground arith))
]

shift_iff : (i x j : ℕ) → (x == i) ≡ false → (shift i x == j) ≡ (x == unshift i j)
unfolding shift
shift_iff i x j h = ground arith

unshift-ne : (i j : ℕ) → (i == unshift i j) ≡ false
unshift-ne i j = ground arith

pub count-shift :
    (i j : ℕ) (xs : List ℕ)
    → count j (map (shift i) (retain (λ x. not (x == i)) xs)) ≡ count (unshift i j) xs
count-shift i j [] = refl
count-shift i j (x ∷ xs) = elim (Bool-cases (x == i)) [
  | inl e ↦ ground (arith, e, count-shift i j xs)
  | inr e ↦ rw e (
      rw (shift_iff i x j e) (ap (λ n. if x == unshift i j then suc n else n) (count-shift i j xs)))
]

pub shift_publisher-unshift :
    (i j : ℕ) (p : Option ℕ) → shift_publisher i p ≡ some j → p ≡ some (unshift i j)
unfolding shift_publisher shift
shift_publisher-unshift i j none h = absurd (ground (arith, h))
shift_publisher-unshift i j (some x) h = ground (arith, h)

pub count-append : (j : ℕ) (xs ys : List ℕ) → count j (xs ++ ys) ≡ count j xs + count j ys
count-append j [] ys = omega arith
count-append j (x ∷ xs) ys = ground (arith, count-append j xs ys)

-- An index that none of the others reaches.
pub count-fresh : (n j : ℕ) (xs : List ℕ) → All (λ x. x < n) xs → n ≤ j → count j xs ≡ 0
count-fresh n j [] h le = refl
count-fresh n j (x ∷ xs) h le = ground (arith, count-fresh n j xs h.1 le)

pub get_elem?-append_lt {ℓ} :
    {S : Type ℓ} (ss ts : List S) (i : ℕ) → i < length ss → get_elem? (ss ++ ts) i ≡ get_elem? ss i
get_elem?-append_lt [] ts i h = absurd (omega arith)
get_elem?-append_lt (s ∷ ss) ts zero h = refl
get_elem?-append_lt (s ∷ ss) ts (suc i) h = get_elem?-append_lt ss ts i (omega arith)

pub get_elem?-append_last {ℓ} :
    {S : Type ℓ} (ss : List S) (s : S) → get_elem? (ss ++ (s ∷ [])) (length ss) ≡ some s
get_elem?-append_last [] s = refl
get_elem?-append_last (t ∷ ss) s = get_elem?-append_last ss s

pub get_elem?-lt {ℓ} :
    {S : Type ℓ} (ss : List S) (i : ℕ) {s : S} → get_elem? ss i ≡ some s → i < length ss
get_elem?-lt [] i h = absurd (ground (arith, h))
get_elem?-lt (t ∷ ss) zero h = omega arith
get_elem?-lt (t ∷ ss) (suc i) h = omega (arith, get_elem?-lt ss i h)
