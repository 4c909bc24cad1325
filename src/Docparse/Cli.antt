-- ===== src/Docparse/Cli.antt =====
-- crates/docparse/src/main.rs: one file, whose text or JSON is printed. The JSON printer is a
-- parameter; the messages on the error output stand as the reasons.
use nodemesh.Base.{
  ℕ, List, false, sym, subst, ◌≡◌, refl, ap, ◌↔◌, Bool, true, Option, none, some, inl, inr, arith,
  ◌++◌, if◌then◌else◌, map_option, Option-cases, Bool-cases, unwrap_or, ◌⊎◌,
}
use nodemesh.Text.{Text, codes}
use nodemesh.Docparse.Extractors.{Extractor, get_extractor}
use nodemesh.Docparse.Formats.{
  HasFormat, Converts, get_extractor-HasFormat, HasFormat-get_extractor, extract-Converts,
  Converts-extract,
}
use nodemesh.Docparse.Extract.{
  File, Parsers, ExtractedDocument, Extracted, ExtractError, ok, err, extract,
}

pub data Failure : Type 0 where
  file_not_found : Failure
  unsupported : (extension : Text) → Failure
  not_extracted : ExtractError → Failure
  not_serialized : Failure

-- What is printed, or the failure with which the process exits with status 1.
pub data Exit : Type 0 where
  printed : Text → Exit
  failed : Failure → Exit

module _ (to_lowercase : Text → Text) (parsers : Parsers)
    (to_string_pretty : ExtractedDocument → Option Text) where
  -- The output for a document.
  abbrev pub output : (json : Bool) → ExtractedDocument → Option Text
  output json doc =
      if json then map_option (λ s. s ++ codes "\n") (to_string_pretty doc) else some doc.text

  abbrev print : Option Text → Exit
  print none = failed not_serialized
  print (some text) = printed text

  abbrev finish : Bool → Extracted → Exit
  finish json (ok doc) = print (output json doc)
  finish json (err e) = failed (not_extracted e)

  unfoldable pub main : File → (json : Bool) → Exit
  unfolding get_extractor extract
  main file json =
      if file.exists
      then elim (get_extractor to_lowercase file.extension) [
        | none ↦ failed (unsupported (unwrap_or file.extension (codes "(none)")))
        | some e ↦ finish json (extract parsers e file)
      ]
      else failed file_not_found

  -- The file exists and can be read, its extension is one of a format, its bytes have a text in this
  -- format, and that is the text; or, where JSON is asked for, the text is the JSON of the document, that
  -- has the text of the bytes and is what the extractor gives, with a line feed.
  abbrev pub Prints : File → Bool → Text → Type 0
  Prints file json text =
      (file.exists ≡ true)
      × (e : Extractor) × HasFormat to_lowercase file.extension e
      × (bytes : List ℕ) × (file.contents ≡ some bytes)
      × (((json ≡ false) × Converts parsers e bytes text)
          ⊎ ((json ≡ true)
              × (doc : ExtractedDocument) × (extract parsers e file ≡ ok doc)
              × Converts parsers e bytes doc.text
              × (s : Text) × (to_string_pretty doc ≡ some s)
              × (text ≡ s ++ codes "\n")))

  Extracted-cases :
      (x : Extracted)
      → ((doc : ExtractedDocument) × (x ≡ ok doc)) ⊎ ((e : ExtractError) × (x ≡ err e))
  Extracted-cases (ok doc) = inl (doc, refl)
  Extracted-cases (err e) = inr (e, refl)

  printed-print : (o : Option Text) {text : Text} → print o ≡ printed text → o ≡ some text
  printed-print none h = cc
  printed-print (some s) h = cc

  output-Prints :
      (file : File) (json : Bool) (text : Text) (e : Extractor) (doc : ExtractedDocument)
      → file.exists ≡ true
      → get_extractor to_lowercase file.extension ≡ some e
      → extract parsers e file ≡ ok doc
      → output json doc ≡ some text
      → Prints file json text
  output-Prints file false text e doc x g q o =
      let (bytes, c, v) = extract-Converts parsers e file doc q in
      (
        x,
        e,
        get_extractor-HasFormat to_lowercase file.extension e g,
        bytes,
        c,
        inl (refl, subst (Converts parsers e bytes) (ap (λ y. unwrap_or y text) o) v),
      )
  output-Prints file true text e doc x g q o = elim (Option-cases (to_string_pretty doc)) [
    | inl n ↦ absurd (ground (arith, rw n at o))
    | inr (s, n) ↦
        let (bytes, c, v) = extract-Converts parsers e file doc q in
        (
          x,
          e,
          get_extractor-HasFormat to_lowercase file.extension e g,
          bytes,
          c,
          inr (refl, doc, q, v, s, n, sym (ap (λ y. unwrap_or y text) (rw n at o))),
        )
  ]

  main-Prints :
      (file : File) (json : Bool) (text : Text)
      → main file json ≡ printed text
      → Prints file json text
  unfolding main
  main-Prints file json text h = elim (Bool-cases file.exists) [
    | inr e ↦ absurd (ground (arith, rw e at h))
    | inl e ↦ elim (Option-cases (get_extractor to_lowercase file.extension)) [
      | inl g ↦ absurd (ground (arith, rw (g, main) at (rw e at h)))
      | inr (x, g) ↦ elim (Extracted-cases (extract parsers x file)) [
        | inl (doc, q) ↦
            output-Prints file json text x doc e g q
              (printed-print _ (rw (q, main) at (rw (g, main) at (rw e at h))))
        | inr (r, q) ↦ absurd (ground (arith, rw (q, main) at (rw (g, main) at (rw e at h))))
      ]
    ]
  ]

  prints :
      (file : File) (json : Bool) (text : Text) (e : Extractor) (doc : ExtractedDocument)
      → file.exists ≡ true
      → HasFormat to_lowercase file.extension e
      → extract parsers e file ≡ ok doc
      → output json doc ≡ some text
      → main file json ≡ printed text
  unfolding main
  prints file json text e doc x f q o =
      let g = HasFormat-get_extractor to_lowercase file.extension e f in
      rw x (rw (g, main) (rw (q, main) (ap print o)))

  Prints-main :
      (file : File) (json : Bool) (text : Text)
      → Prints file json text
      → main file json ≡ printed text
  Prints-main file json text (x, e, f, bytes, c, inl (j, v)) =
      let (doc, q, t) = Converts-extract parsers e file bytes text c v in
      prints file json text e doc x f q (rw j (ap some t))
  Prints-main file json text (x, e, f, bytes, c, inr (j, doc, q, v, s, n, t)) =
      prints file json text e doc x f q (rw j (rw n (ap some (sym t))))

  -- A text is printed exactly when the file exists and can be read, its extension in lower case is one
  -- of a format's, its bytes have a text in this format, and that is the text printed, or, where JSON is
  -- asked for, the text printed is the JSON of the document with a line feed. Else the process fails.
  pub main_iff :
      (file : File) (json : Bool) (text : Text)
      → (main file json ≡ printed text) ↔ Prints file json text
  main_iff file json text = (main-Prints file json text, Prints-main file json text)
