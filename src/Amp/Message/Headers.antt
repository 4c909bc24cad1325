-- ===== src/Amp/Message/Headers.antt =====
-- Headers that survive a trip over the wire, and what the parser makes of their lines.
use nodemesh.Base.{
  ℕ, ◌≡◌, refl, ap, sym, ◌∙◌, ◌⊎◌, inl, inr, ◌≢◌, Bool, false, List, [], ◌∷◌, ◌++◌, some, arith,
  if◌then◌else◌, Bool-cases, Option-cases, All, All-append_parts, append_assoc, append-nil, subst,
  map, is_empty,
}
use nodemesh.Text.{Text, codes, strip_prefix}
use nodemesh.Text.Split.{Without, split_once, split_once-eq-some}
use nodemesh.Text.Trim.{
  is_whitespace, trim_start, trim_end, keep_end, trim, IsTrimmed, trim-IsTrimmed, All-trim,
}
use nodemesh.Dict.{Dict, insert, Lacks, Distinct, insert-Distinct, insert_new, All-insert}
use nodemesh.Amp.Message.{collect, parse_line, parse_lines}

-- The text has no `: ` in it.
abbrev pub NoColonSpace : Text → Type 0
NoColonSpace [] = Unit
NoColonSpace (c ∷ []) = Unit
NoColonSpace (c ∷ d ∷ s) = ((c ≡ b':') → (d ≢ b' ')) × NoColonSpace (d ∷ s)

pub NoColonSpace-Without : (s : Text) → Without b':' s → NoColonSpace s
NoColonSpace-Without [] h = tt
NoColonSpace-Without (c ∷ []) h = tt
NoColonSpace-Without (c ∷ d ∷ s) h = ((λ e. absurd (h.0 e)), NoColonSpace-Without (d ∷ s) h.1)

-- A header whose line reads back as itself.
pub record IsHeader (h : Text × Text) : Type 0 where
  pub key_trimmed : IsTrimmed h.0
  pub value_trimmed : IsTrimmed h.1
  pub key_one_line : Without b'\n' h.0
  pub value_one_line : Without b'\n' h.1
  pub key_splits : NoColonSpace h.0

-- The line of a header.
abbrev pub header_line : Text × Text → Text
header_line h = h.0 ++ (codes ": " ++ h.1)

split_once-header_line :
    (k v : Text) → NoColonSpace k → split_once (codes ": ") (k ++ (codes ": " ++ v)) ≡ some (k, v)
unfolding split_once strip_prefix
split_once-header_line [] v h = refl
split_once-header_line (c ∷ []) v h = ground (arith, split_once-header_line [] v tt)
split_once-header_line (c ∷ d ∷ k) v h = ground (arith, split_once-header_line (d ∷ k) v h.1)

-- The parser inserts exactly the header that a line was made of.
parse_line-header_line :
    (h : Text × Text) (m : Dict Text) → IsHeader h → parse_line (header_line h) m ≡ insert h.0 h.1 m
unfolding parse_line
parse_line-header_line (k, v) m h =
    rw (split_once-header_line k v h.key_splits, parse_line) (rw (h.key_trimmed, h.value_trimmed))

header_line-ne-nil : (h : Text × Text) → is_empty (header_line h) ≡ false
header_line-ne-nil ([], v) = refl
header_line-ne-nil (c ∷ k, v) = refl

not_passed_over :
    (l : Text) (m m' : Dict Text) → is_empty l ≡ false → (if is_empty l then m else m') ≡ m'
not_passed_over l m m' h = rw h

pub parse_lines-header_line :
    (hs m : Dict Text) → All IsHeader hs → parse_lines (map header_line hs) m ≡ collect hs m
unfolding parse_lines collect
parse_lines-header_line [] m h = refl
parse_lines-header_line (e ∷ hs) m h =
    ap (parse_lines (map header_line hs))
      (not_passed_over (header_line e) m _ (header_line-ne-nil e) ∙ parse_line-header_line e m h.0)
    ∙ parse_lines-header_line hs (insert e.0 e.1 m) h.1

-- A part of a text without `: ` is without it too.
NoColonSpace-trim_start : (p : ℕ → Bool) (s : Text) → NoColonSpace s → NoColonSpace (trim_start p s)
unfolding trim_start
NoColonSpace-trim_start p [] h = tt
NoColonSpace-trim_start p (c ∷ []) h = elim (Bool-cases (p c)) [ inl e ↦ rw e tt | inr e ↦ rw e tt ]
NoColonSpace-trim_start p (c ∷ d ∷ s) h = elim (Bool-cases (p c)) [
  | inl e ↦ rw e (NoColonSpace-trim_start p (d ∷ s) h.1)
  | inr e ↦ rw e h
]

-- What is left by `trim_end` begins as before.
trim_end-begins :
    (p : ℕ → Bool) (c : ℕ) (s : Text)
    → (trim_end p (c ∷ s) ≡ []) ⊎ ((r : Text) × (trim_end p (c ∷ s) ≡ c ∷ r))
unfolding trim_end
trim_end-begins p c s = go (trim_end p s)
  where
    go : (r : Text) → (keep_end p c r ≡ []) ⊎ ((r' : Text) × (keep_end p c r ≡ c ∷ r'))
    go [] = elim (Bool-cases (p c)) [ inl e ↦ inl (rw e) | inr e ↦ inr ([], rw e) ]
    go (d ∷ r) = inr (d ∷ r, refl)

NoColonSpace-trim_end : (p : ℕ → Bool) (s : Text) → NoColonSpace s → NoColonSpace (trim_end p s)
unfolding trim_end
NoColonSpace-trim_end p [] h = tt
NoColonSpace-trim_end p (c ∷ []) h = elim (Bool-cases (p c)) [ inl e ↦ rw e tt | inr e ↦ rw e tt ]
NoColonSpace-trim_end p (c ∷ d ∷ s) h = elim (trim_end-begins p d s) [
  | inl e ↦ rw (e, trim_end) (elim (Bool-cases (p c)) [ inl f ↦ rw f tt | inr f ↦ rw f tt ])
  | inr (r, e) ↦ rw (e, trim_end) (h.0, subst NoColonSpace e (NoColonSpace-trim_end p (d ∷ s) h.1))
]

pub NoColonSpace-trim : (s : Text) → NoColonSpace s → NoColonSpace (trim s)
unfolding trim
NoColonSpace-trim s h =
    NoColonSpace-trim_end is_whitespace _ (NoColonSpace-trim_start is_whitespace s h)

-- The part in front of the first `: ` is without it.
split_once-NoColonSpace :
    (s : Text) {a b : Text} → split_once (codes ": ") s ≡ some (a, b) → NoColonSpace a
unfolding split_once strip_prefix
split_once-NoColonSpace [] {a} {b} h = cc
split_once-NoColonSpace (c ∷ []) {a} {b} h = ground arith
split_once-NoColonSpace (c ∷ d ∷ s) {a} {b} h =
    elim (Option-cases (split_once (codes ": ") (d ∷ s))) [
      | inl f ↦ ground (arith, f)
      | inr ((x, y), f) ↦ go x y f (split_once-NoColonSpace (d ∷ s) f)
    ]
  where
    go :
        (x y : Text)
        → split_once (codes ": ") (d ∷ s) ≡ some (x, y)
        → NoColonSpace x
        → NoColonSpace a
    go [] y f n = ground (arith, f)
    go (e ∷ x) y f n = ground (arith, f, n, split_once-eq-some (codes ": ") (d ∷ s) f)

-- The header of a line survives the wire.
split_once-IsHeader :
    (l : Text) {k v : Text}
    → Without b'\n' l
    → split_once (codes ": ") l ≡ some (k, v)
    → IsHeader (trim k, trim v)
split_once-IsHeader l {k} {v} w e =
    let parts =
      All-append_parts _ k _ (subst (Without b'\n') (split_once-eq-some (codes ": ") l e) w) in
    record {
      key_trimmed = trim-IsTrimmed k;
      value_trimmed = trim-IsTrimmed v;
      key_one_line = All-trim _ k parts.0;
      value_one_line = All-trim _ v (All-append_parts _ (codes ": ") v parts.1).1;
      key_splits = NoColonSpace-trim k (split_once-NoColonSpace l e);
    }

-- The headers of a message that the wire preserves.
abbrev pub AreHeaders : Dict Text → Type 0
AreHeaders m = All IsHeader m × Distinct m

parse_line-AreHeaders :
    (l : Text) (m : Dict Text) → Without b'\n' l → AreHeaders m → AreHeaders (parse_line l m)
unfolding parse_line
parse_line-AreHeaders l m w h = elim (Option-cases (split_once (codes ": ") l)) [
  | inl e ↦ rw (e, parse_line) h
  | inr ((k, v), e) ↦
      rw (e, parse_line)
        (
          All-insert IsHeader (trim k) (trim v) m (split_once-IsHeader l w e) h.0,
          insert-Distinct _ _ m h.1,
        )
]

pub parse_lines-AreHeaders :
    (ls : List Text) (m : Dict Text)
    → All (Without b'\n') ls
    → AreHeaders m
    → AreHeaders (parse_lines ls m)
unfolding parse_lines
parse_lines-AreHeaders [] m w h = h
parse_lines-AreHeaders (l ∷ ls) m w h = elim (Bool-cases (is_empty l)) [
  | inl e ↦ rw e (parse_lines-AreHeaders ls m w.1 h)
  | inr e ↦ rw e (parse_lines-AreHeaders ls _ w.1 (parse_line-AreHeaders l m w.0 h))
]

-- Headers whose keys differ are collected as they are.
collect-Distinct : (hs m : Dict Text) → Distinct (m ++ hs) → collect hs m ≡ m ++ hs
unfolding collect
collect-Distinct [] m d = sym (append-nil m)
collect-Distinct ((k, v) ∷ hs) m d =
    ap (collect hs) (insert_new k v m (Lacks-append k m d))
    ∙ collect-Distinct hs (m ++ ((k, v) ∷ [])) (subst Distinct (sym (append_assoc m _ hs)) d)
    ∙ append_assoc m ((k, v) ∷ []) hs
  where
    Lacks-middle : (j : Text) (m : Dict Text) → Lacks j (m ++ ((k, v) ∷ hs)) → j ≢ k
    Lacks-middle j [] h = λ e. h.0 (sym e)
    Lacks-middle j (e ∷ m) h = Lacks-middle j m h.1

    Lacks-append : (k' : Text) (m : Dict Text) → Distinct (m ++ ((k, v) ∷ hs)) → Lacks k m
    Lacks-append k' [] d = tt
    Lacks-append k' (e ∷ m) d = (Lacks-middle e.0 m d.0, Lacks-append k' m d.1)

pub collect-nil : (hs : Dict Text) → Distinct hs → collect hs [] ≡ hs
collect-nil hs d = collect-Distinct hs [] d
