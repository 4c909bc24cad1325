-- ===== src/Text/Trim.antt =====
-- `trim`: white space off both ends.
use nodemesh.Base.{
  length, arith, ◌++◌, ◌≤◌, sym, ◌∙◌, ap, ℕ, ◌≡◌, refl, inl, inr, Bool, false, ◌||◌, ◌&&◌, [], ◌∷◌,
  ◌==◌, leb, if◌then◌else◌, Bool-cases, All,
}
use nodemesh.Text.{Text}

-- `char::is_whitespace`: Unicode's White_Space.
unfoldable pub is_whitespace : ℕ → Bool
is_whitespace c =
    (leb 9 c && leb c 13)
    || c == 0x20
    || c == 0x85
    || c == 0xa0
    || c == 0x1680
    || (leb 0x2000 c && leb c 0x200a)
    || c == 0x2028
    || c == 0x2029
    || c == 0x202f
    || c == 0x205f
    || c == 0x3000

-- `trim_start_matches`.
unfoldable pub trim_start : (ℕ → Bool) → Text → Text
trim_start p [] = []
trim_start p (c ∷ s) = if p c then trim_start p s else c ∷ s

-- `trim_end_matches`: a character goes when it matches and all behind it has gone.
abbrev pub keep_end : (ℕ → Bool) → ℕ → Text → Text
keep_end p c [] = if p c then [] else c ∷ []
keep_end p c (d ∷ r) = c ∷ d ∷ r

unfoldable pub trim_end : (ℕ → Bool) → Text → Text
trim_end p [] = []
trim_end p (c ∷ s) = keep_end p c (trim_end p s)

unfoldable pub trim : Text → Text
unfolding trim_start trim_end is_whitespace
trim s = trim_end is_whitespace (trim_start is_whitespace s)

-- No white space stands at the ends.
abbrev pub IsTrimmed : Text → Type 0
IsTrimmed s = trim s ≡ s

trim_end-head :
    (p : ℕ → Bool) (c : ℕ) (s : Text)
    → p c ≡ false
    → trim_start p (trim_end p (c ∷ s)) ≡ trim_end p (c ∷ s)
unfolding trim_start trim_end
trim_end-head p c s h = go (trim_end p s)
  where
    go : (r : Text) → trim_start p (keep_end p c r) ≡ keep_end p c r
    go [] = rw h (rw h)
    go (d ∷ r) = rw h

trim_start-trim :
    (p : ℕ → Bool) (s : Text)
    → trim_start p (trim_end p (trim_start p s)) ≡ trim_end p (trim_start p s)
unfolding trim_start
trim_start-trim p [] = unfold trim_end in refl
trim_start-trim p (c ∷ s) = elim (Bool-cases (p c)) [
  | inl h ↦ rw h (trim_start-trim p s)
  | inr h ↦ rw h (trim_end-head p c s h)
]

trim_end-keep_end :
    (p : ℕ → Bool) (c : ℕ) (r : Text)
    → trim_end p r ≡ r
    → trim_end p (keep_end p c r) ≡ keep_end p c r
unfolding trim_end
trim_end-keep_end p c [] h = elim (Bool-cases (p c)) [ inl e ↦ rw e | inr e ↦ rw e (rw e) ]
trim_end-keep_end p c (d ∷ r) h = rw h

pub trim_end_idem : (p : ℕ → Bool) (s : Text) → trim_end p (trim_end p s) ≡ trim_end p s
unfolding trim_end
trim_end_idem p [] = refl
trim_end_idem p (c ∷ s) = trim_end-keep_end p c (trim_end p s) (trim_end_idem p s)

-- What `trim` returns is trimmed.
pub trim-IsTrimmed : (s : Text) → IsTrimmed (trim s)
unfolding trim
trim-IsTrimmed s =
    ap (trim_end is_whitespace) (trim_start-trim is_whitespace s)
    ∙ trim_end_idem is_whitespace (trim_start is_whitespace s)

-- A property of all characters survives.
pub All-trim_start {κ} :
    (P : ℕ → Type κ) (p : ℕ → Bool) (s : Text) → All P s → All P (trim_start p s)
unfolding trim_start
All-trim_start P p [] h = tt
All-trim_start P p (c ∷ s) h = elim (Bool-cases (p c)) [
  | inl e ↦ rw e (All-trim_start P p s h.1)
  | inr e ↦ rw e h
]

All-keep_end {κ} :
    (P : ℕ → Type κ) (p : ℕ → Bool) (c : ℕ) (r : Text) → P c → All P r → All P (keep_end p c r)
All-keep_end P p c [] hc h = elim (Bool-cases (p c)) [ inl e ↦ rw e tt | inr e ↦ rw e (hc, tt) ]
All-keep_end P p c (d ∷ r) hc h = (hc, h)

pub All-trim_end {κ} : (P : ℕ → Type κ) (p : ℕ → Bool) (s : Text) → All P s → All P (trim_end p s)
unfolding trim_end
All-trim_end P p [] h = tt
All-trim_end P p (c ∷ s) h = All-keep_end P p c _ h.0 (All-trim_end P p s h.1)

pub All-trim {κ} : (P : ℕ → Type κ) (s : Text) → All P s → All P (trim s)
unfolding trim
All-trim P s h = All-trim_end P is_whitespace _ (All-trim_start P is_whitespace s h)

length-trim_start : (p : ℕ → Bool) (s : Text) → length (trim_start p s) ≤ length s
unfolding trim_start
length-trim_start p [] = omega arith
length-trim_start p (c ∷ s) = elim (Bool-cases (p c)) [
  | inl e ↦ rw e (omega (arith, length-trim_start p s))
  | inr e ↦ rw e (omega arith)
]

pub trim_start-append :
    (p : ℕ → Bool) (a : Text) (c : ℕ) (s : Text)
    → p c ≡ false
    → trim_start p a ≡ a
    → trim_start p (a ++ (c ∷ s)) ≡ a ++ (c ∷ s)
unfolding trim_start
trim_start-append p [] c s e h = rw e
trim_start-append p (x ∷ a) c s e h = elim (Bool-cases (p x)) [
  | inl f ↦ absurd (longer (ground (arith, f)))
  | inr f ↦ rw f
]
  where
    longer : trim_start p a ≡ x ∷ a → ⊥
    longer q = omega (arith, ap length q, length-trim_start p a)

pub trim_start-IsTrimmed : (s : Text) → IsTrimmed s → trim_start is_whitespace s ≡ s
unfolding trim
trim_start-IsTrimmed s h =
    ap (trim_start is_whitespace) (sym h) ∙ trim_start-trim is_whitespace s ∙ h
