-- ===== src/Amp/Message.antt =====
-- crates/amp/src/message.rs: `AmpMessage`, its parser and its printer. A `HashMap` is iterated in the
-- order of its association list; nothing here depends on which order that is.
pub mod Headers
pub mod Wire
pub mod RoundTrip
pub mod Parsed
pub mod Written
use nodemesh.Base.{
  ℕ, Bool, true, false, ◌&&◌, List, [], ◌∷◌, ◌++◌, Option, none, some, ◌==◌, if◌then◌else◌,
  and_then, is_empty,
}
use nodemesh.Text.{Text, codes, strip_prefix, strip_suffix, text_eq}
use nodemesh.Text.Split.{split_once}
use nodemesh.Text.Trim.{trim, trim_end}
use nodemesh.Text.Lines.{lines}
use nodemesh.Dict.{Dict, lookup, insert}

pub record AmpMessage : Type 0 where
  pub headers : Dict Text
  pub body : Text

abbrev pub empty_message : Text
empty_message = codes "---\n---\n"

abbrev pub new : Dict Text → Text → AmpMessage
new headers body = record { headers = headers; body = body }

abbrev pub empty : AmpMessage
empty = record { headers = []; body = [] }

-- `collect` into a map: later pairs replace earlier ones.
unfoldable pub collect : List (Text × Text) → Dict Text → Dict Text
unfolding insert
collect [] m = m
collect ((k, v) ∷ r) m = collect r (insert k v m)

unfoldable pub command : List (Text × Text) → AmpMessage
unfolding collect
command headers = record { headers = collect headers []; body = [] }

-- One line of the frontmatter; a line that is empty or has no `: ` is passed over.
unfoldable pub parse_line : Text → Dict Text → Dict Text
unfolding split_once trim insert
parse_line line headers = elim (split_once (codes ": ") line) [
  | none ↦ headers
  | some (k, v) ↦ insert (trim k) (trim v) headers
]

unfoldable pub parse_lines : List Text → Dict Text → Dict Text
unfolding parse_line
parse_lines [] headers = headers
parse_lines (line ∷ rest) headers =
    parse_lines rest (if is_empty line then headers else parse_line line headers)

abbrev pub is_newline : ℕ → Bool
is_newline c = c == b'\n'

-- The frontmatter and the body of what stands behind the opening line.
unfoldable pub split_content : Text → Option (Text × Text)
unfolding split_once strip_suffix trim_end
split_content content = elim (split_once (codes "\n---\n") content) [
  | some (fm, b) ↦ some (fm, b)
  | none ↦
      and_then (strip_suffix (codes "---\n") content)
        (λ content'. some (trim_end is_newline content', []))
]

unfoldable pub parse_content : Text → Option AmpMessage
unfolding split_content parse_lines lines
parse_content content =
    and_then (split_content content)
      (λ p. some (record { headers = parse_lines (lines p.0) []; body = p.1 }))

unfoldable pub parse : Text → Option AmpMessage
unfolding strip_prefix parse_content
parse raw = and_then (strip_prefix (codes "---\n") raw) parse_content

-- The header lines of `to_wire`.
unfoldable pub wire_headers : Dict Text → Text
wire_headers [] = []
wire_headers ((k, v) ∷ m) = k ++ (codes ": " ++ (v ++ (b'\n' ∷ wire_headers m)))

unfoldable pub ends_with : Text → ℕ → Bool
ends_with [] c = false
ends_with (d ∷ []) c = d == c
ends_with (d ∷ e ∷ s) c = ends_with (e ∷ s) c

unfoldable pub wire_body : Text → Text
unfolding ends_with
wire_body b = if is_empty b then [] else if ends_with b b'\n' then b else b ++ codes "\n"

unfoldable pub to_wire : AmpMessage → Text
unfolding wire_headers wire_body
to_wire m = codes "---\n" ++ (wire_headers m.headers ++ (codes "---\n" ++ wire_body m.body))

abbrev pub is_empty_message : AmpMessage → Bool
is_empty_message m = is_empty m.headers && is_empty m.body

unfoldable pub get : AmpMessage → Text → Option Text
unfolding lookup
get m key = lookup key m.headers

abbrev pub from_addr : AmpMessage → Option Text
from_addr m = get m (codes "from")

abbrev pub to_addr : AmpMessage → Option Text
to_addr m = get m (codes "to")

abbrev pub command_name : AmpMessage → Option Text
command_name m = get m (codes "command")

abbrev pub message_type : AmpMessage → Option Text
message_type m = get m (codes "type")

-- `args` and `json_payload` hand a header's text to the JSON parser of another crate.
module _ {ℓ} {Value : Type ℓ} (from_str : Text → Option Value) where
  unfoldable pub args : AmpMessage → Option Value
  unfolding get
  args m = and_then (get m (codes "args")) from_str

  unfoldable pub json_payload : AmpMessage → Option Value
  unfolding get
  json_payload m = and_then (get m (codes "json")) from_str
