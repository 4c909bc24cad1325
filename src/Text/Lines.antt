-- ===== src/Text/Lines.antt =====
-- `lines` and `join`.
use nodemesh.Base.{
  ℕ, ◌≡◌, refl, ap, ◌⊎◌, inl, inr, ◌≢◌, List, [], ◌∷◌, ◌++◌, none, some, arith, ◌==◌, if◌then◌else◌,
  Bool-cases, Option-cases, All, map, subst,
}
use nodemesh.Text.{Text, strip_suffix, strip_suffix-append, strip_suffix-eq-some}
use nodemesh.Text.Split.{Without}

abbrev pub push_first : ℕ → List Text → List Text
push_first c [] = (c ∷ []) ∷ []
push_first c (l ∷ ls) = (c ∷ l) ∷ ls

-- `split_inclusive('\n')`.
unfoldable pub split_inclusive : Text → List Text
split_inclusive [] = []
split_inclusive (c ∷ s) =
    if c == b'\n' then (c ∷ []) ∷ split_inclusive s else push_first c (split_inclusive s)

-- A line's end, `\n` or `\r\n`, comes off.
unfoldable pub strip_line_end : Text → Text
unfolding strip_suffix
strip_line_end l = elim (strip_suffix (b'\n' ∷ []) l) [
  | none ↦ l
  | some l' ↦ elim (strip_suffix (b'\r' ∷ []) l') [ none ↦ l' | some l'' ↦ l'' ]
]

unfoldable pub lines : Text → List Text
unfolding split_inclusive strip_line_end
lines s = map strip_line_end (split_inclusive s)

-- `[String]::join`.
unfoldable pub join : Text → List Text → Text
join sep [] = []
join sep (l ∷ []) = l
join sep (l ∷ m ∷ ls) = l ++ (sep ++ join sep (m ∷ ls))

-- Reading up to a line feed.
pub split_inclusive-append :
    (l s : Text)
    → Without b'\n' l
    → split_inclusive (l ++ (b'\n' ∷ s)) ≡ (l ++ (b'\n' ∷ [])) ∷ split_inclusive s
unfolding split_inclusive
split_inclusive-append [] s h = refl
split_inclusive-append (c ∷ l) s h = ground (arith, split_inclusive-append l s h.1)

front-Without : (d : ℕ) (r p : Text) → Without d (r ++ p) → Without d r
front-Without d [] p h = tt
front-Without d (c ∷ r) p h = (h.0, front-Without d r p h.1)

pub strip_suffix-Without :
    (d : ℕ) (p s : Text) {r : Text} → strip_suffix p s ≡ some r → Without d s → Without d r
strip_suffix-Without d p s {r} e h =
    front-Without d r p (subst (Without d) (strip_suffix-eq-some p s e) h)

-- A piece of `split_inclusive` has a line feed at its end at most.
abbrev IsPiece : Text → Type 0
IsPiece p = Without b'\n' p ⊎ ((x : Text) × Without b'\n' x × (p ≡ x ++ (b'\n' ∷ [])))

push_first-IsPiece :
    (c : ℕ) (ls : List Text) → c ≢ b'\n' → All IsPiece ls → All IsPiece (push_first c ls)
push_first-IsPiece c [] ne h = (inl (ne, tt), tt)
push_first-IsPiece c (l ∷ ls) ne (inl w, h) = (inl (ne, w), h)
push_first-IsPiece c (l ∷ ls) ne (inr (x, w, e), h) = (inr (c ∷ x, (ne, w), ap (◌∷◌ c) e), h)

split_inclusive-IsPiece : (s : Text) → All IsPiece (split_inclusive s)
unfolding split_inclusive
split_inclusive-IsPiece [] = tt
split_inclusive-IsPiece (c ∷ s) = elim (Bool-cases (c == b'\n')) [
  | inl e ↦ rw e (inr ([], tt, ground arith), split_inclusive-IsPiece s)
  | inr e ↦ rw e (push_first-IsPiece c _ (ground arith) (split_inclusive-IsPiece s))
]

strip_return-Without :
    (l : Text)
    → Without b'\n' l
    → Without b'\n' (elim (strip_suffix (b'\r' ∷ []) l) [ none ↦ l | some l' ↦ l' ])
strip_return-Without l h = elim (Option-cases (strip_suffix (b'\r' ∷ []) l)) [
  | inl e ↦ rw e h
  | inr (r, e) ↦ rw e (strip_suffix-Without b'\n' (b'\r' ∷ []) l e h)
]

strip_line_end-Without : (p : Text) → IsPiece p → Without b'\n' (strip_line_end p)
unfolding strip_line_end
strip_line_end-Without p (inr (x, w, e)) =
    rw e (rw (strip_suffix-append (b'\n' ∷ []) x, strip_line_end) (strip_return-Without x w))
strip_line_end-Without p (inl w) = elim (Option-cases (strip_suffix (b'\n' ∷ []) p)) [
  | inl e ↦ rw (e, strip_line_end) w
  | inr (r, e) ↦
      rw (e, strip_line_end)
        (strip_return-Without r (strip_suffix-Without b'\n' (b'\n' ∷ []) p e w))
]

map-Without : (ps : List Text) → All IsPiece ps → All (Without b'\n') (map strip_line_end ps)
map-Without [] h = tt
map-Without (p ∷ ps) h = (strip_line_end-Without p h.0, map-Without ps h.1)

-- Every line is free of line feeds.
pub lines-Without : (s : Text) → All (Without b'\n') (lines s)
unfolding lines
lines-Without s = map-Without _ (split_inclusive-IsPiece s)
