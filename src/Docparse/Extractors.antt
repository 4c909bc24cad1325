-- ===== src/Docparse/Extractors.antt =====
-- crates/docparse/src/extractors/mod.rs and plaintext.rs: the choice of an extractor by a file's
-- extension, and the MIME types of plain texts. `to_lowercase` is Unicode's mapping.
use nodemesh.Base.{
  ◌≡◌, refl, Bool, false, ◌||◌, List, [], ◌∷◌, Option, none, some, arith, if◌then◌else◌, unwrap_or,
  map_option,
}
use nodemesh.Text.{Text, codes, text_eq}

pub data Extractor : Type 0 where
  pdf docx email plaintext : Extractor

abbrev pub is_one_of : Text → List Text → Bool
is_one_of e [] = false
is_one_of e (x ∷ xs) = text_eq e x || is_one_of e xs

abbrev pub plaintext_extensions : List Text
plaintext_extensions =
    codes "txt"
    ∷ codes "md"
    ∷ codes "csv"
    ∷ codes "log"
    ∷ codes "json"
    ∷ codes "xml"
    ∷ codes "html"
    ∷ codes "htm"
    ∷ codes "yaml"
    ∷ codes "yml"
    ∷ codes "toml"
    ∷ codes "ini"
    ∷ codes "cfg"
    ∷ codes "conf"
    ∷ codes "rst"
    ∷ codes "tex"
    ∷ []

-- The `match` on the extension in lower case.
unfoldable pub extractor_of : Text → Option Extractor
extractor_of ext =
    if text_eq ext (codes "pdf")
    then some pdf
    else if text_eq ext (codes "docx")
    then some docx
    else if text_eq ext (codes "eml") || text_eq ext (codes "msg")
    then some email
    else if is_one_of ext plaintext_extensions
    then some plaintext
    else none

unfoldable pub get_extractor : (to_lowercase : Text → Text) → Option Text → Option Extractor
unfolding extractor_of
get_extractor to_lowercase extension =
    extractor_of (unwrap_or (map_option to_lowercase extension) [])

-- The `match ext` of `PlaintextExtractor::extract`, on the extension as it is written.
unfoldable pub mime_type : Option Text → Text
mime_type extension =
    let ext = unwrap_or extension (codes "txt") in
    if text_eq ext (codes "md")
    then codes "text/markdown"
    else if text_eq ext (codes "csv")
    then codes "text/csv"
    else if text_eq ext (codes "json")
    then codes "application/json"
    else if text_eq ext (codes "xml")
    then codes "application/xml"
    else if text_eq ext (codes "html") || text_eq ext (codes "htm")
    then codes "text/html"
    else if text_eq ext (codes "yaml") || text_eq ext (codes "yml")
    then codes "text/yaml"
    else if text_eq ext (codes "toml")
    then codes "text/toml"
    else codes "text/plain"

-- The MIME type is chosen by the letters as they stand: a file whose extension is `md` in lower case, and
-- as written is none of the extensions of plain texts, is extracted as plain text, but its type is
-- `text/plain` and not `text/markdown`.
mime_type_case :
    (to_lowercase : Text → Text) (ext : Text)
    → to_lowercase ext ≡ codes "md"
    → is_one_of ext plaintext_extensions ≡ false
    → (get_extractor to_lowercase (some ext) ≡ some plaintext)
      × (mime_type (some ext) ≡ codes "text/plain")
unfolding get_extractor mime_type
mime_type_case to_lowercase ext e h = (rw e (unfold text_eq in refl), ground arith)
