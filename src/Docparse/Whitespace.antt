-- ===== src/Docparse/Whitespace.antt =====
-- `normalize_whitespace` in crates/docparse/src/extractors/pdf.rs. The count of line feeds is an `i32`
-- there, and is taken not to overflow.
use nodemesh.Base.{
  ℕ, suc, ◌+◌, ◌≤◌, ◌<◌, ◌≡◌, ◌≢◌, refl, ap, ◌∙◌, Bool, true, false, [], ◌∷◌, arith, ◌==◌, ==_iff,
  ◌&&◌, sym, leb, if◌then◌else◌, inl, inr, Bool-cases, subst, ◌⊎◌,
}
use Prim.Native.Nat.{min}
use nodemesh.Text.{Text}
use nodemesh.Text.Trim.{
  trim, trim_start, trim_end, keep_end, is_whitespace, IsTrimmed, trim-IsTrimmed,
}

-- The loop, with the count of the line feeds read last.
unfoldable pub cap_newlines : ℕ → Text → Text
cap_newlines count [] = []
cap_newlines count (ch ∷ s) =
    let more = cap_newlines (count + 1) s in
    let rest = cap_newlines 0 s in
    if ch == b'\n' then if leb (count + 1) 2 then b'\n' ∷ more else more else ch ∷ rest

unfoldable pub normalize_whitespace : Text → Text
unfolding cap_newlines trim
normalize_whitespace text = trim (cap_newlines 0 text)

-- At most two line feeds in a row, where `n` stand in front.
abbrev pub Capped : ℕ → Text → Type 0
Capped n [] = Unit
Capped n (c ∷ s) = ((c ≡ b'\n') → (n < 2) × Capped (suc n) s) × ((c ≢ b'\n') → Capped 0 s)

cap_newlines-Capped : (n k : ℕ) (s : Text) → k ≡ min n 2 → Capped k (cap_newlines n s)
unfolding cap_newlines
cap_newlines-Capped n k [] e = tt
cap_newlines-Capped n k (c ∷ s) e = elim (Bool-cases (c == b'\n')) [
  | inr f ↦ rw f ((λ p. absurd (ground arith)), λ _. cap_newlines-Capped 0 0 s (omega arith))
  | inl f ↦ elim (Bool-cases (leb (n + 1) 2)) [
    | inl g ↦ rw f (
        rw g (
          (λ _. (ground arith, cap_newlines-Capped (n + 1) (suc k) s (ground arith))),
          λ ne. absurd (ne refl),
        ))
    | inr g ↦ rw f (rw g (cap_newlines-Capped (n + 1) k s (ground arith)))
  ]
]

cap_newlines_id : (n : ℕ) (s : Text) → Capped n s → cap_newlines n s ≡ s
unfolding cap_newlines
cap_newlines_id n [] h = refl
cap_newlines_id n (c ∷ s) h = elim (Bool-cases (c == b'\n')) [
  | inr f ↦ rw f (ap (◌∷◌ c) (cap_newlines_id 0 s (h.1 (λ p. absurd (ground arith)))))
  | inl f ↦
      let (few, rest) = h.0 (ground (arith, f)) in
      ground (arith, f, few, cap_newlines_id (n + 1) s (subst (λ k. Capped k s) (omega arith) rest))
]

Capped-mono : (m n : ℕ) (s : Text) → m ≤ n → Capped n s → Capped m s
Capped-mono m n [] l h = tt
Capped-mono m n (c ∷ s) l h =
    ((λ p. (omega (arith, (h.0 p).0), Capped-mono (suc m) (suc n) s (omega arith) (h.0 p).1)), h.1)

Capped-trim_start : (p : ℕ → Bool) (s : Text) → Capped 0 s → Capped 0 (trim_start p s)
unfolding trim_start
Capped-trim_start p [] h = tt
Capped-trim_start p (c ∷ s) h = elim (Bool-cases (p c)) [
  | inr e ↦ rw e h
  | inl e ↦ rw e (Capped-trim_start p s (tail (Bool-cases (c == b'\n'))))
]
  where
    tail : ((c == b'\n') ≡ true) ⊎ ((c == b'\n') ≡ false) → Capped 0 s
    tail (inl f) = Capped-mono 0 1 s (omega arith) (h.0 (ground arith)).1
    tail (inr f) = h.1 (λ q. absurd (ground arith))

Capped-keep_end :
    (p : ℕ → Bool) (n c : ℕ) (r s : Text)
    → Capped n (c ∷ s)
    → ((k : ℕ) → Capped k s → Capped k r)
    → Capped n (keep_end p c r)
Capped-keep_end p n c [] s h sub = elim (Bool-cases (p c)) [
  | inl e ↦ rw e tt
  | inr e ↦ rw e ((λ q. ((h.0 q).0, tt)), λ _. tt)
]
Capped-keep_end p n c (d ∷ r) s h sub =
    ((λ q. ((h.0 q).0, sub (suc n) (h.0 q).1)), λ q. sub 0 (h.1 q))

Capped-trim_end : (p : ℕ → Bool) (s : Text) (n : ℕ) → Capped n s → Capped n (trim_end p s)
unfolding trim_end
Capped-trim_end p [] n h = tt
Capped-trim_end p (c ∷ s) n h =
    Capped-keep_end p n c (trim_end p s) s h (λ k g. Capped-trim_end p s k g)

normalize-Capped : (text : Text) → Capped 0 (normalize_whitespace text)
unfolding normalize_whitespace trim
normalize-Capped text =
    Capped-trim_end is_whitespace _ 0
      (Capped-trim_start is_whitespace _ (cap_newlines-Capped 0 0 text (omega arith)))

-- Two line feeds stand in front.
abbrev pub starts_with_two : Text → Bool
starts_with_two [] = false
starts_with_two (c ∷ []) = false
starts_with_two (c ∷ d ∷ s) = (c == b'\n') && (d == b'\n')

-- The text without every line feed that has two right behind it: a run of line feeds loses all but two.
unfoldable pub squeeze : Text → Text
squeeze [] = []
squeeze (c ∷ s) =
    let rest = squeeze s in if (c == b'\n') && starts_with_two s then rest else c ∷ rest

squeeze_other : (c : ℕ) (s : Text) → (c == b'\n') ≡ false → squeeze (c ∷ s) ≡ c ∷ squeeze s
unfolding squeeze
squeeze_other c s e = rw e refl

squeeze_one :
    (c : ℕ) (s : Text) → (c == b'\n') ≡ false → squeeze (b'\n' ∷ c ∷ s) ≡ b'\n' ∷ c ∷ squeeze s
unfolding squeeze
squeeze_one c [] e = rw e refl
squeeze_one c (d ∷ s) e = rw e refl

squeeze_two :
    (c : ℕ) (s : Text)
    → (c == b'\n') ≡ false
    → squeeze (b'\n' ∷ b'\n' ∷ c ∷ s) ≡ b'\n' ∷ b'\n' ∷ c ∷ squeeze s
unfolding squeeze
squeeze_two c [] e = rw e refl
squeeze_two c (d ∷ s) e = rw e refl

-- With none, one, or two and more line feeds in front.
abbrev Squeezes : ℕ → Text → Type 0
Squeezes n s =
    (squeeze s ≡ cap_newlines 0 s)
    × (squeeze (b'\n' ∷ s) ≡ b'\n' ∷ cap_newlines 1 s)
    × (squeeze (b'\n' ∷ b'\n' ∷ s) ≡ b'\n' ∷ b'\n' ∷ cap_newlines (suc (suc n)) s)

cap_newlines-past :
    (n : ℕ) (s : Text) → cap_newlines (suc (suc n)) (b'\n' ∷ s) ≡ cap_newlines (suc (suc (suc n))) s
unfolding cap_newlines
cap_newlines-past n s =
    let few : leb (suc (suc n) + 1) 2 ≡ false = ground arith in
    rw few (ap (λ k. cap_newlines k s) (omega arith))

Squeezes-newline : (n : ℕ) (s : Text) → ((k : ℕ) → Squeezes k s) → Squeezes n (b'\n' ∷ s)
unfolding cap_newlines squeeze
Squeezes-newline n s h =
    ((h 0).1, (h 0).2, (h (suc n)).2 ∙ ap (λ x. b'\n' ∷ b'\n' ∷ x) (sym (cap_newlines-past n s)))

squeeze-cap_newlines : (n : ℕ) (s : Text) → Squeezes n s
unfolding cap_newlines squeeze
squeeze-cap_newlines n [] = (refl, refl, refl)
squeeze-cap_newlines n (c ∷ s) = elim (Bool-cases (c == b'\n')) [
  | inr e ↦
      let zero_in_front = (squeeze-cap_newlines n s).0 in
      (
        squeeze_other c s e ∙ rw e (ap (◌∷◌ c) zero_in_front),
        squeeze_one c s e ∙ rw e (ap (λ x. b'\n' ∷ c ∷ x) zero_in_front),
        squeeze_two c s e ∙ rw e (ap (λ x. b'\n' ∷ b'\n' ∷ c ∷ x) zero_in_front),
      )
  | inl e ↦
      subst (λ x. Squeezes n (x ∷ s)) (sym ((==_iff c b'\n').0 e))
        (Squeezes-newline n s (λ k. squeeze-cap_newlines k s))
]

-- A run of line feeds is cut to its last two, white space at the ends is trimmed, and nothing else is
-- changed: the result is the trimmed text without every line feed that has two right behind it. So it
-- has at most two line feeds in a row, and to normalize it again changes nothing.
pub normalize_whitespace_lem :
    (text : Text)
    → (normalize_whitespace text ≡ trim (squeeze text))
      × Capped 0 (normalize_whitespace text)
      × (normalize_whitespace (normalize_whitespace text) ≡ normalize_whitespace text)
normalize_whitespace_lem text = (
  unfold normalize_whitespace in ap trim (sym (squeeze-cap_newlines 0 text).0),
  normalize-Capped text,
  again (normalize_whitespace text) (normalize-Capped text) (trimmed text),
)
  where
    trimmed : (text : Text) → IsTrimmed (normalize_whitespace text)
    trimmed text = unfold normalize_whitespace in trim-IsTrimmed (cap_newlines 0 text)

    again : (t : Text) → Capped 0 t → IsTrimmed t → normalize_whitespace t ≡ t
    again t c i = unfold normalize_whitespace in (ap trim (cap_newlines_id 0 t c) ∙ i)
