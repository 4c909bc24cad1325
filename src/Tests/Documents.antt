-- ===== src/Tests/Documents.antt =====
-- The extractors of documents (crates/docparse).
use nodemesh.Base.{◌≡◌, ◌↔◌, Option, none, some, true, false, refl, List, [], ◌∷◌, ◌++◌, arith}
use nodemesh.Text.{Text, codes, text_eq}
use nodemesh.Text.Lines.{join}
use nodemesh.Text.Trim.{trim}
use nodemesh.Docparse.Extract.{Parsers, File, ExtractedDocument}
use nodemesh.Docparse.Cli.{main, printed, Prints, main_iff}
use nodemesh.Docparse.Html.{strip_html_tags, IsTagFree, strip_html_tags_lem}
use nodemesh.Docparse.Whitespace.{normalize_whitespace, squeeze, Capped, normalize_whitespace_lem}
use nodemesh.Docparse.Docx.{
  RunChild, DocumentChild, text, run, paragraph, extract_text, texts, extract_text-texts,
}

abbrev page : Text
page = codes "<p>Hello, <b>mesh</b></p>"

strip_page : strip_html_tags page ≡ codes "Hello, mesh"
unfolding strip_html_tags
strip_page = refl

abbrev before : Text
before = codes "Hello, "

-- A tag with an opening bracket in it.
abbrev tag : Text
tag = codes "b <"

abbrev after : Text
after = codes "mesh</b>"

strip_html_tags_lem_example :
    (strip_html_tags (before ++ (b'<' ∷ tag ++ (b'>' ∷ after))) ≡ before ++ strip_html_tags after)
    × (strip_html_tags (before ++ (b'<' ∷ tag)) ≡ before ++ [])
    × (strip_html_tags (before ++ (b'>' ∷ after)) ≡ before ++ strip_html_tags after)
    × (strip_html_tags (before ++ []) ≡ before ++ [])
    × IsTagFree (strip_html_tags after)
strip_html_tags_lem_example = strip_html_tags_lem before tag after (ground arith) (ground arith)

abbrev spaced : Text
spaced = codes "\n a\n\n\n\nb \n"

normalize_spaced : normalize_whitespace spaced ≡ codes "a\n\nb"
unfolding normalize_whitespace
normalize_spaced = refl

normalize_whitespace_lem_example :
    (normalize_whitespace spaced ≡ trim (squeeze spaced))
    × Capped 0 (normalize_whitespace spaced)
    × (normalize_whitespace (normalize_whitespace spaced) ≡ normalize_whitespace spaced)
normalize_whitespace_lem_example = normalize_whitespace_lem spaced

abbrev document : List DocumentChild
document =
    paragraph (run (text (codes "One ") ∷ []) ∷ run (text (codes "line") ∷ []) ∷ [])
    ∷ paragraph []
    ∷ DocumentChild.other
    ∷ paragraph (run (RunChild.other ∷ text (codes "two") ∷ []) ∷ [])
    ∷ []

extract_document : extract_text document ≡ codes "One line\n\ntwo"
unfolding extract_text
extract_document = refl

extract_text-texts_example : extract_text document ≡ join (codes "\n\n") (texts document)
extract_text-texts_example = extract_text-texts document

-- A library that reads every byte as a character, and no document.
abbrev parsers : Parsers
parsers = record {
  from_utf8 = λ bytes. some bytes;
  from_utf8_lossy = λ bytes. bytes;
  pdf_text = λ bytes. none;
  read_docx = λ bytes. none;
  parse_mail = λ bytes. some (record {
    subject = some (codes "Hi");
    from = none;
    date = some (codes "today");
    body_text = none;
    body_html = some bytes;
  });
}

abbrev mail_file : File
mail_file = record {
  exists = true;
  file_name = some (codes "a.eml");
  extension = some (codes "eml");
  contents = some (codes "<b>x</b>");
}

abbrev no_json : ExtractedDocument → Option Text
no_json doc = none

mail_printed :
    main (λ s. s) parsers no_json mail_file false ≡ printed (codes "Subject: Hi\nDate: today\n\nx")
unfolding main text_eq
mail_printed = refl

main_iff_example :
    (main (λ s. s) parsers no_json mail_file false
      ≡ printed (codes "Subject: Hi\nDate: today\n\nx"))
    ↔ Prints (λ s. s) parsers no_json mail_file false (codes "Subject: Hi\nDate: today\n\nx")
main_iff_example =
    main_iff (λ s. s) parsers no_json mail_file false (codes "Subject: Hi\nDate: today\n\nx")
