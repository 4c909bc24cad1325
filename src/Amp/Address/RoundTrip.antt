-- ===== src/Amp/Address/RoundTrip.antt =====
-- `AmpAddress::parse` and `Display` are inverse to one another on the canonical addresses.
use nodemesh.Base.{
  ◌≡◌, sym, ◌↔◌, inl, inr, [], ◌++◌, Option, none, some, arith, Option-cases, append_assoc, subst,
}
use nodemesh.Text.{Text, codes, strip_suffix, strip_suffix-append, strip_suffix-eq-some}
use nodemesh.Text.Split.{
  Without, split_once, splitn, split_once-append, split_once-none, split_once-eq-some,
  split_once-Without, split_once-eq-none,
}
use nodemesh.Amp.Address.{AmpAddress, parse, from_parts, fmt_part, fmt}

-- The addresses that have a text: a port comes with an app, a port and an app hold no dot, and
-- without a port the node holds none either.
abbrev pub CanonicalParts : Option Text → Option Text → Text → Type 0
CanonicalParts none none n = Without b'.' n
CanonicalParts none (some a) n = Without b'.' a × Without b'.' n
CanonicalParts (some p) (some a) n = Without b'.' p × Without b'.' a
CanonicalParts (some p) none n = ⊥

abbrev pub IsCanonical : AmpAddress → Type 0
IsCanonical a = CanonicalParts a.port a.app a.node

-- The part in front of the first dot.
split_dot :
    (a n : Text) → Without b'.' a → split_once (codes ".") ((a ++ codes ".") ++ n) ≡ some (a, n)
split_dot a n h = rw append_assoc (split_once-append b'.' [] a n h)

from_parts-splitn :
    (port app : Option Text) (n : Text)
    → CanonicalParts port app n
    → from_parts (splitn 3 (codes ".") (fmt_part port ++ (fmt_part app ++ n)))
      ≡ some (record { port = port; app = app; node = n })
unfolding from_parts splitn
from_parts-splitn none none n h = ground (arith, split_once-none b'.' [] n h)
from_parts-splitn none (some a) n (ha, hn) =
    ground (arith, split_dot a n ha, split_once-none b'.' [] n hn)
from_parts-splitn (some p) (some a) n (hp, ha) =
    ground (arith, split_dot p (fmt_part (some a) ++ n) hp, split_dot a n ha)
from_parts-splitn (some p) none n h = absurd h

fmt-append :
    (a : AmpAddress) → fmt a ≡ (fmt_part a.port ++ (fmt_part a.app ++ a.node)) ++ codes ".amp"
unfolding fmt
fmt-append a = simp append_assoc

-- Printing a canonical address and parsing the text gives the address back.
parse-fmt : (a : AmpAddress) → IsCanonical a → parse (fmt a) ≡ some a
unfolding parse
parse-fmt a h =
    rw (fmt-append a, strip_suffix-append (codes ".amp")) (from_parts-splitn a.port a.app a.node h)

-- What the parts of a text are joined to, and that they are canonical.
abbrev Rebuilds : Text → AmpAddress → Type 0
Rebuilds s a = IsCanonical a × (fmt_part a.port ++ (fmt_part a.app ++ a.node) ≡ s)

splitn-Rebuilds :
    (s : Text) {a : AmpAddress} → from_parts (splitn 3 (codes ".") s) ≡ some a → Rebuilds s a
unfolding from_parts splitn
splitn-Rebuilds s {a} h = elim (Option-cases (split_once (codes ".") s)) [
  | inl e ↦ ground (arith, e, split_once-eq-none b'.' s e)
  | inr ((p, r), e) ↦ elim (Option-cases (split_once (codes ".") r)) [
    | inl f ↦ ground (
      arith,
      e,
      f,
      split_once-Without b'.' s e,
      split_once-eq-none b'.' r f,
      split_once-eq-some (codes ".") s e,
      append_assoc p (codes ".") r,
    )
    | inr ((q, n), f) ↦ ground (
      arith,
      e,
      f,
      split_once-Without b'.' s e,
      split_once-Without b'.' r f,
      split_once-eq-some (codes ".") s e,
      split_once-eq-some (codes ".") r f,
      append_assoc p (codes ".") r,
      append_assoc q (codes ".") n,
    )
  ]
]

fmt-parse : (s : Text) (a : AmpAddress) → parse s ≡ some a → IsCanonical a × (fmt a ≡ s)
unfolding parse
fmt-parse s a h = elim (Option-cases (strip_suffix (codes ".amp") s)) [
  | inl e ↦ ground (arith, e)
  | inr (t, e) ↦
      let r = splitn-Rebuilds t {a = a} (ground (arith, e)) in
      (r.0, rw (fmt-append a, r.1) (sym (strip_suffix-eq-some (codes ".amp") s e)))
]

-- `parse` returns an address exactly for the text that the address prints, and the address it
-- returns is canonical.
pub parse_iff : (s : Text) (a : AmpAddress) → (parse s ≡ some a) ↔ (IsCanonical a × (fmt a ≡ s))
parse_iff s a = (fmt-parse s a, λ h. subst (λ t. parse t ≡ some a) h.1 (parse-fmt a h.0))
