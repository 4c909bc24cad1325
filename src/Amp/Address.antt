-- ===== src/Amp/Address.antt =====
-- crates/amp/src/address.rs: `AmpAddress`, its parser and its printer.
pub mod RoundTrip
use nodemesh.Base.{ℕ, Bool, List, [], ◌∷◌, ◌++◌, Option, none, some, and_then}
use nodemesh.Text.{Text, codes, text_eq, strip_suffix}
use nodemesh.Text.Split.{splitn}

pub record AmpAddress : Type 0 where
  pub port : Option Text
  pub app : Option Text
  pub node : Text

-- The `match` on the number of parts.
unfoldable pub from_parts : List Text → Option AmpAddress
from_parts (n ∷ []) = some (record { port = none; app = none; node = n })
from_parts (a ∷ n ∷ []) = some (record { port = none; app = some a; node = n })
from_parts (p ∷ a ∷ n ∷ []) = some (record { port = some p; app = some a; node = n })
from_parts _ = none

unfoldable pub parse : Text → Option AmpAddress
unfolding strip_suffix splitn from_parts
parse s = and_then (strip_suffix (codes ".amp") s) (λ s'. from_parts (splitn 3 (codes ".") s'))

unfoldable pub is_for_node : AmpAddress → Text → Bool
unfolding text_eq
is_for_node a node_name = text_eq a.node node_name

-- `write!(f, "{part}.")` for a part that is there.
abbrev pub fmt_part : Option Text → Text
fmt_part none = []
fmt_part (some p) = p ++ codes "."

-- `Display::fmt`.
unfoldable pub fmt : AmpAddress → Text
fmt a = fmt_part a.port ++ (fmt_part a.app ++ (a.node ++ codes ".amp"))

unfoldable pub to_string_full : AmpAddress → Text
unfolding fmt
to_string_full a = fmt a
