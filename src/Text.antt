-- ===== src/Text.antt =====
-- Rust's `str` as the list of its code points, with the operations of the standard library that the
-- source calls: equality, prefixes and suffixes, splitting, trimming and lines.
pub mod Split
pub mod Trim
pub mod Lines
use Prim.Native.Char.{code}
use Prim.Native.String.{String}
use nodemesh.Base.{
  ℕ, ◌≡◌, refl, ap, ◌↔◌, ◌⊎◌, inl, inr, ◌≢◌, Bool, true, false, ◌&&◌, List, [], ◌∷◌, ◌++◌, Option,
  none, some, arith, ◌==◌, ==_iff, if◌then◌else◌, Bool-cases, Option-cases, map_option, ◌+◌, length,
  length-append,
}

abbrev pub Text : Type 0
Text = List ℕ

-- A literal of the source.
abbrev pub codes : String → Text
codes String.[] = []
codes (String.◌∷◌ c s) = code c ∷ codes s

-- `==` of two strings.
unfoldable pub text_eq : Text → Text → Bool
text_eq [] [] = true
text_eq (x ∷ xs) (y ∷ ys) = x == y && text_eq xs ys
text_eq _ _ = false

pub text_eq_iff : (s t : Text) → (text_eq s t ≡ true) ↔ (s ≡ t)
unfolding text_eq
text_eq_iff (x ∷ s) (y ∷ t) = ground (arith, text_eq_iff s t)
text_eq_iff _ _ = ground arith

pub text_eq_refl : (s : Text) → text_eq s s ≡ true
text_eq_refl s = (text_eq_iff s s).1 refl

-- To split on whether two texts are equal.
pub text_eq-cases : (s t : Text) → (s ≡ t) ⊎ (text_eq s t ≡ false)
text_eq-cases s t = elim (Bool-cases (text_eq s t)) [
  | inl e ↦ inl ((text_eq_iff s t).0 e)
  | inr e ↦ inr e
]

-- `strip_prefix`.
unfoldable pub strip_prefix : Text → Text → Option Text
strip_prefix [] s = some s
strip_prefix (p ∷ ps) [] = none
strip_prefix (p ∷ ps) (c ∷ s) = if p == c then strip_prefix ps s else none

-- `strip_suffix`.
unfoldable pub strip_suffix : Text → Text → Option Text
unfolding text_eq
strip_suffix p [] = if text_eq p [] then some [] else none
strip_suffix p (c ∷ s) =
    if text_eq p (c ∷ s) then some [] else map_option (λ r. c ∷ r) (strip_suffix p s)

pub strip_prefix-append : (p s : Text) → strip_prefix p (p ++ s) ≡ some s
unfolding strip_prefix
strip_prefix-append [] s = refl
strip_prefix-append (c ∷ p) s = ground (arith, strip_prefix-append p s)

pub strip_prefix-eq-some : (p s : Text) {r : Text} → strip_prefix p s ≡ some r → s ≡ p ++ r
unfolding strip_prefix
strip_prefix-eq-some [] s h = ground arith
strip_prefix-eq-some (c ∷ p) [] h = cc
strip_prefix-eq-some (c ∷ p) (d ∷ s) {r} h = ground (arith, strip_prefix-eq-some p s {r = r})

-- A text is no proper suffix of itself.
append-ne_self : (c : ℕ) (s p : Text) → text_eq p (c ∷ (s ++ p)) ≡ false
append-ne_self c s p = elim (text_eq-cases p (c ∷ (s ++ p))) [
  | inl e ↦ absurd (omega (arith, ap length e, length-append s p))
  | inr e ↦ e
]

pub strip_suffix-append : (p s : Text) → strip_suffix p (s ++ p) ≡ some s
unfolding strip_suffix
strip_suffix-append [] [] = refl
strip_suffix-append (c ∷ p) [] = rw (text_eq_refl (c ∷ p))
strip_suffix-append p (c ∷ s) = rw (append-ne_self c s p, strip_suffix-append p s)

pub strip_suffix-eq-some : (p s : Text) {r : Text} → strip_suffix p s ≡ some r → s ≡ r ++ p
unfolding strip_suffix
strip_suffix-eq-some p [] h = ground (arith, text_eq_iff p [])
strip_suffix-eq-some p (c ∷ s) {r} h = elim (Option-cases (strip_suffix p s)) [
  | inl e ↦ ground (arith, text_eq_iff p (c ∷ s), e)
  | inr (x, e) ↦ ground (arith, text_eq_iff p (c ∷ s), e, strip_suffix-eq-some p s e)
]

pub text_eq_comm : (s t : Text) → text_eq s t ≡ text_eq t s
unfolding text_eq
text_eq_comm (x ∷ s) (y ∷ t) = ground (arith, text_eq_comm s t)
text_eq_comm [] [] = refl
text_eq_comm [] (y ∷ t) = refl
text_eq_comm (x ∷ s) [] = refl
