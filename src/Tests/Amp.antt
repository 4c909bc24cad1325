-- ===== src/Tests/Amp.antt =====
-- Addresses and messages (crates/amp).
use nodemesh.Base.{Bool, true, ◌≡◌, ◌↔◌, refl, arith, [], ◌∷◌, none, some}
use nodemesh.Text.{Text, codes}
use nodemesh.Amp.Address.{AmpAddress}
use nodemesh.Amp.Address
use nodemesh.Amp.Address.RoundTrip.{IsCanonical, parse_iff}
use nodemesh.Amp.Message.{AmpMessage, new, parse, to_wire, get, wire_body}
use nodemesh.Amp.Message.Headers.{AreHeaders}
use nodemesh.Amp.Validate.{validate, unknown_header, invalid_type, invalid_ttl}
use nodemesh.Amp.Validate.Conformance.{IsConformant, validate_iff}
use nodemesh.Amp.Message.RoundTrip.{parse-to_wire}
use nodemesh.Amp.Message.Parsed.{parse-AreHeaders, parse-to_wire-parse, to_wire_headerless}

abbrev markdown : AmpAddress
markdown = record { port = some (codes "inbox"); app = some (codes "stalwart"); node = codes "mko" }

parse-markdown : Address.parse (codes "inbox.stalwart.mko.amp") ≡ some markdown
unfolding Address.parse
parse-markdown = refl

fmt-markdown : Address.fmt markdown ≡ codes "inbox.stalwart.mko.amp"
unfolding Address.fmt
fmt-markdown = refl

parse_other_domain : Address.parse (codes "inbox.stalwart.mko.org") ≡ none
unfolding Address.parse
parse_other_domain = refl

parse_iff_example :
    (Address.parse (codes "inbox.stalwart.mko.amp") ≡ some markdown)
    ↔ (IsCanonical markdown × (Address.fmt markdown ≡ codes "inbox.stalwart.mko.amp"))
parse_iff_example = parse_iff (codes "inbox.stalwart.mko.amp") markdown

abbrev search : AmpMessage
search =
    new ((codes "command", codes "search") ∷ (codes "to", codes "stalwart.mko.amp") ∷ [])
      (codes "query")

abbrev search_text : Text
search_text = codes "---\ncommand: search\nto:  stalwart.mko.amp\nno header\n---\nquery"

search_wire : to_wire search ≡ codes "---\ncommand: search\nto: stalwart.mko.amp\n---\nquery\n"
unfolding to_wire
search_wire = refl

parse-search_text : parse search_text ≡ some search
unfolding parse
parse-search_text = refl

search-AreHeaders : AreHeaders search.headers
search-AreHeaders = parse-AreHeaders search_text parse-search_text

parse-to_wire_example :
    (m' : AmpMessage) × (parse (to_wire search) ≡ some m')
    × ((key : Text) → get m' key ≡ get search key)
    × (m'.body ≡ wire_body search.body)
parse-to_wire_example = parse-to_wire search search-AreHeaders refl

parse-to_wire-parse_example :
    (m' : AmpMessage) × (parse (to_wire search) ≡ some m')
    × ((key : Text) → get m' key ≡ get search key)
    × (m'.body ≡ wire_body search.body)
parse-to_wire-parse_example = parse-to_wire-parse search_text parse-search_text refl

abbrev nothing : AmpMessage
nothing = new [] []

parse_headerless : parse (to_wire (new [] (codes "hello"))) ≡ none
unfolding parse to_wire
parse_headerless = refl

parse_dashes : parse (to_wire (new [] (codes "---"))) ≡ some nothing
unfolding parse to_wire
parse_dashes = refl

to_wire_headerless_example : nothing.body ≡ []
to_wire_headerless_example = to_wire_headerless (codes "---") refl (omega arith) parse_dashes

abbrev any_json : Text → Bool
any_json s = true

abbrev odd : AmpMessage
odd =
    new
      ((codes "foo", codes "bar") ∷ (codes "type", codes "banana") ∷ (codes "ttl", codes "+") ∷ [])
      []

validate-odd :
    validate any_json odd
    ≡ unknown_header (codes "foo") ∷ invalid_type (codes "banana") ∷ invalid_ttl (codes "+") ∷ []
unfolding validate get nodemesh.Text.text_eq
validate-odd = refl

validate_iff_example : (validate any_json search ≡ []) ↔ IsConformant any_json search
validate_iff_example = validate_iff any_json search refl
