-- ===== src/Amp/Validate/Conformance.antt =====
-- Which messages get no warning.
use nodemesh.Base.{
  ◌≡◌, ◌↔◌, refl, inl, inr, Bool, true, false, List, [], ◌∷◌, ◌++◌, Option, none, some, arith, All,
  Bool-cases,
}
use nodemesh.Text.{Text, codes}
use nodemesh.Dict.{Dict}
use nodemesh.Amp.Message.{AmpMessage, is_empty_message, get}
use nodemesh.Amp.Validate.{
  known_headers, valid_types, contains, Warning, is_u32, unknown_headers, check, validate,
}

-- A header that is there passes its test.
abbrev pub Passes : (Text → Bool) → Option Text → Type 0
Passes test none = Unit
Passes test (some s) = test s ≡ true

-- What the protocol asks of a message that is not empty.
abbrev pub IsConformant : (Text → Bool) → AmpMessage → Type 0
IsConformant is_json msg =
    All (λ h. contains known_headers h.0 ≡ true) msg.headers
    × Passes (contains valid_types) (get msg (codes "type"))
    × Passes is_json (get msg (codes "args"))
    × Passes is_json (get msg (codes "json"))
    × Passes is_u32 (get msg (codes "ttl"))

append-nil_parts : (a b : List Warning) → ((a ++ b) ≡ []) ↔ ((a ≡ []) × (b ≡ []))
append-nil_parts [] b = ((λ e. (refl, e)), λ h. h.1)
append-nil_parts (w ∷ a) b = ((λ e. absurd (ground (arith, e))), λ h. absurd (ground (arith, h.0)))

check-Passes :
    (test : Text → Bool) (warning : Text → Warning) (o : Option Text)
    → (check test warning o ≡ []) ↔ Passes test o
unfolding check
check-Passes test warning none = ((λ e. tt), λ h. refl)
check-Passes test warning (some s) = elim (Bool-cases (test s)) [
  | inl e ↦ rw e ((λ h. refl), λ h. refl)
  | inr e ↦ rw e ((λ h. absurd (ground (arith, h))), λ h. absurd (ground (arith, h)))
]

unknown_headers-All :
    (m : Dict Text) → (unknown_headers m ≡ []) ↔ All (λ h. contains known_headers h.0 ≡ true) m
unfolding unknown_headers
unknown_headers-All [] = ((λ e. tt), λ h. refl)
unknown_headers-All ((k, v) ∷ m) = elim (Bool-cases (contains known_headers k)) [
  | inl e ↦ rw e ((λ h. (refl, (unknown_headers-All m).0 h)), λ h. (unknown_headers-All m).1 h.1)
  | inr e ↦ rw e ((λ h. absurd (ground (arith, h))), λ h. absurd (ground (arith, h.0)))
]

-- A message that is not empty gets no warning exactly when it is conformant: all its keys are known, its
-- type is one of the four, its `args` and `json` are JSON, and its `ttl` is a number of 32 bits,
-- each where it is there.
pub validate_iff :
    (is_json : Text → Bool) (msg : AmpMessage)
    → is_empty_message msg ≡ false
    → (validate is_json msg ≡ []) ↔ IsConformant is_json msg
unfolding validate
validate_iff is_json msg ne = rw ne (
  (λ e.
      let (h, r) = (append-nil_parts _ _).0 e in
      let (t, r1) = (append-nil_parts _ _).0 r in
      let (a, r2) = (append-nil_parts _ _).0 r1 in
      let (j, l) = (append-nil_parts _ _).0 r2 in
      (
        (unknown_headers-All _).0 h,
        (check-Passes _ _ _).0 t,
        (check-Passes _ _ _).0 a,
        (check-Passes _ _ _).0 j,
        (check-Passes _ _ _).0 l,
      )),
  λ (h, t, a, j, l). (append-nil_parts _ _).1 (
    (unknown_headers-All _).1 h,
    (append-nil_parts _ _).1 (
      (check-Passes _ _ _).1 t,
      (append-nil_parts _ _).1 (
        (check-Passes _ _ _).1 a,
        (append-nil_parts _ _).1 ((check-Passes _ _ _).1 j, (check-Passes _ _ _).1 l),
      ),
    ),
  ),
)
