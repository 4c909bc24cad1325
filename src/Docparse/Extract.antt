-- ===== src/Docparse/Extract.antt =====
-- `extract` of the extractors of crates/docparse (src/extractors). A file is what the operating system
-- says of its path; UTF-8 and the parsers of PDF, DOCX and mail are parameters.
use nodemesh.Base.{
  ℕ, Bool, List, [], ◌∷◌, ◌++◌, Option, none, some, if◌then◌else◌, is_empty, unwrap_or, length,
}
use nodemesh.Text.{Text, codes}
use nodemesh.Text.Lines.{join}
use nodemesh.Docparse.Extractors.{Extractor, pdf, docx, email, plaintext, mime_type}
use nodemesh.Docparse.Html.{strip_html_tags}
use nodemesh.Docparse.Whitespace.{normalize_whitespace}
use nodemesh.Docparse.Pages.{count_pdf_pages}
use nodemesh.Docparse.Docx.{DocumentChild, extract_text}

pub record DocumentMetadata : Type 0 where
  pub filename : Text
  pub mime_type : Text
  pub file_size : ℕ
  pub title : Option Text
  pub author : Option Text
  pub page_count : Option ℕ
  pub subject : Option Text
  pub date : Option Text

pub record ExtractedDocument : Type 0 where
  pub text : Text
  pub metadata : DocumentMetadata

-- The name and the extension, where they are texts, and the bytes, where they can be read.
pub record File : Type 0 where
  pub exists : Bool
  pub file_name : Option Text
  pub extension : Option Text
  pub contents : Option (List ℕ)

pub data ExtractError : Type 0 where
  unreadable : ExtractError
  unparsable : ExtractError

pub data Extracted : Type 0 where
  ok : ExtractedDocument → Extracted
  err : ExtractError → Extracted

-- What the source asks the mail parser for.
pub record Mail : Type 0 where
  pub subject : Option Text
  pub from : Option Text
  pub date : Option Text
  pub body_text : Option Text
  pub body_html : Option Text

pub record Parsers : Type 0 where
  pub from_utf8 : List ℕ → Option Text
  pub from_utf8_lossy : List ℕ → Text
  pub pdf_text : List ℕ → Option Text
  pub read_docx : List ℕ → Option (List DocumentChild)
  pub parse_mail : List ℕ → Option Mail

abbrev plain_metadata : Text → Text → ℕ → DocumentMetadata
plain_metadata filename mime_type file_size = record {
  filename = filename;
  mime_type = mime_type;
  file_size = file_size;
  title = none;
  author = none;
  page_count = none;
  subject = none;
  date = none;
}

abbrev part_of : Text → Option Text → List Text
part_of name none = []
part_of name (some value) = (name ++ value) ∷ []

abbrev header_parts : Mail → List Text
header_parts m =
    part_of (codes "Subject: ") m.subject
    ++ (part_of (codes "From: ") m.from ++ part_of (codes "Date: ") m.date)

-- The blank line behind the headers, if there are any.
abbrev with_separator : List Text → List Text
with_separator parts = if is_empty parts then parts else parts ++ ([] ∷ [])

-- The plain body, or the HTML body without its tags.
abbrev body_parts : Option Text → Option Text → List Text
unfolding strip_html_tags
body_parts (some body) html = body ∷ []
body_parts none (some body) = strip_html_tags body ∷ []
body_parts none none = []

unfoldable pub email_text : Mail → Text
unfolding join strip_html_tags
email_text m =
    join (codes "\n") (with_separator (header_parts m) ++ body_parts m.body_text m.body_html)

module _ (p : Parsers) where
  abbrev pub extract_plaintext : File → List ℕ → Extracted
  unfolding mime_type
  extract_plaintext file bytes = elim (p.from_utf8 bytes) [
    | none ↦ err unreadable
    | some text ↦ ok (record {
      text = text;
      metadata =
          plain_metadata (unwrap_or file.file_name (codes "unknown.txt")) (mime_type file.extension)
            (length bytes);
    })
  ]

  abbrev pub extract_pdf : File → List ℕ → Extracted
  unfolding normalize_whitespace count_pdf_pages
  extract_pdf file bytes = elim (p.pdf_text bytes) [
    | none ↦ err unparsable
    | some text ↦ ok (record {
      text = normalize_whitespace text;
      metadata =
          record (plain_metadata (unwrap_or file.file_name (codes "unknown.pdf"))
            (codes "application/pdf") (length bytes)) {
              page_count = count_pdf_pages (p.from_utf8_lossy bytes);
            };
    })
  ]

  abbrev pub extract_docx : File → List ℕ → Extracted
  unfolding extract_text
  extract_docx file bytes = elim (p.read_docx bytes) [
    | none ↦ err unparsable
    | some children ↦ ok (record {
      text = extract_text children;
      metadata =
          plain_metadata (unwrap_or file.file_name (codes "unknown.docx"))
            (codes "application/vnd.openxmlformats-officedocument.wordprocessingml.document")
            (length bytes);
    })
  ]

  abbrev pub extract_email : File → List ℕ → Extracted
  unfolding email_text
  extract_email file bytes = elim (p.parse_mail bytes) [
    | none ↦ err unparsable
    | some m ↦ ok (record {
      text = email_text m;
      metadata =
          record (plain_metadata (unwrap_or file.file_name (codes "unknown.eml"))
            (codes "message/rfc822") (length bytes)) {
              title = m.subject;
              author = m.from;
              date = m.date;
            };
    })
  ]

  abbrev extract_bytes : Extractor → File → List ℕ → Extracted
  unfolding mime_type normalize_whitespace count_pdf_pages extract_text email_text
  extract_bytes pdf file bytes = extract_pdf file bytes
  extract_bytes docx file bytes = extract_docx file bytes
  extract_bytes email file bytes = extract_email file bytes
  extract_bytes plaintext file bytes = extract_plaintext file bytes

  unfoldable pub extract : Extractor → File → Extracted
  unfolding mime_type normalize_whitespace count_pdf_pages extract_text email_text
  extract e file = elim file.contents [
    | none ↦ err unreadable
    | some bytes ↦ extract_bytes e file bytes
  ]
