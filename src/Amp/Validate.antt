-- ===== src/Amp/Validate.antt =====
-- crates/amp/src/validate.rs: the warnings about a message. `is_json` tells whether the JSON parser reads a
-- text. The warnings on headers come in the map's order of iteration.
pub mod Conformance
use nodemesh.Base.{
  ℕ, ◌+◌, ◌-◌, ◌*◌, ◌^◌, Bool, true, false, not, ◌&&◌, ◌||◌, List, [], ◌∷◌, ◌++◌, Option, none,
  some, ◌==◌, leb, ltb, if◌then◌else◌, is_empty,
}
use nodemesh.Text.{Text, codes, text_eq}
use nodemesh.Dict.{Dict}
use nodemesh.Amp.Message.{AmpMessage, is_empty_message, get, message_type}

abbrev pub known_headers : List Text
known_headers =
    codes "amp"
    ∷ codes "type"
    ∷ codes "id"
    ∷ codes "from"
    ∷ codes "to"
    ∷ codes "command"
    ∷ codes "args"
    ∷ codes "json"
    ∷ codes "reply-to"
    ∷ codes "ttl"
    ∷ codes "error"
    ∷ codes "timestamp"
    ∷ []

abbrev pub valid_types : List Text
valid_types = codes "request" ∷ codes "response" ∷ codes "event" ∷ codes "stream" ∷ []

abbrev pub contains : List Text → Text → Bool
contains [] s = false
contains (t ∷ ts) s = text_eq t s || contains ts s

pub data Warning : Type 0 where
  unknown_header : Text → Warning
  invalid_type : Text → Warning
  invalid_args : Warning
  invalid_json : Warning
  invalid_ttl : Text → Warning

-- The value of decimal digits behind the value so far, if all are digits.
unfoldable pub digits : ℕ → Text → Option ℕ
digits n [] = some n
digits n (c ∷ s) =
    let rest = digits (n * 10 + (c - b'0')) s in if leb b'0' c && leb c b'9' then rest else none

abbrev below_32_bits : Option ℕ → Bool
below_32_bits none = false
below_32_bits (some n) = ltb n (2 ^ 32)

-- `parse::<u32>().is_ok()`: an optional plus sign, and at least one digit.
unfoldable pub is_u32 : Text → Bool
unfolding digits
is_u32 [] = false
is_u32 (c ∷ s) =
    if c == b'+'
    then not (is_empty s) && below_32_bits (digits 0 s)
    else below_32_bits (digits 0 (c ∷ s))

unfoldable pub unknown_headers : Dict Text → List Warning
unfolding text_eq
unknown_headers [] = []
unknown_headers ((k, v) ∷ m) =
    let rest = unknown_headers m in
    if contains known_headers k then rest else unknown_header k ∷ rest

-- The warning about a header that is there and does not pass its test.
unfoldable pub check : (Text → Bool) → (Text → Warning) → Option Text → List Warning
check test warning none = []
check test warning (some s) = if test s then [] else warning s ∷ []

unfoldable pub validate : (is_json : Text → Bool) → AmpMessage → List Warning
unfolding unknown_headers check is_u32 get text_eq
validate is_json msg =
    if is_empty_message msg
    then []
    else unknown_headers msg.headers
      ++ (check (contains valid_types) invalid_type (get msg (codes "type"))
          ++ (check is_json (λ s. invalid_args) (get msg (codes "args"))
              ++ (check is_json (λ s. invalid_json) (get msg (codes "json"))
                  ++ check is_u32 invalid_ttl (get msg (codes "ttl")))))
