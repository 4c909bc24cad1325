-- ===== src/Docparse/Formats.antt =====
-- Which extensions the extractors of crates/docparse have, and which text they make of the bytes of a
-- file, format by format.
use nodemesh.Base.{
  ℕ, ◌≡◌, ◌||◌, refl, ap, sym, ◌∙◌, subst, inl, inr, true, false, List, [], ◌∷◌, Option, none, some,
  arith, Option-cases, Bool-cases, unwrap_or,
}
use nodemesh.Text.{Text, codes, text_eq, text_eq-cases}
use nodemesh.Docparse.Extractors.{
  Extractor, pdf, docx, email, plaintext, is_one_of, plaintext_extensions, extractor_of,
  get_extractor, mime_type,
}
use nodemesh.Docparse.Whitespace.{normalize_whitespace}
use nodemesh.Docparse.Pages.{count_pdf_pages}
use nodemesh.Docparse.Docx.{DocumentChild, extract_text}
use nodemesh.Docparse.Extract.{
  File, Parsers, Mail, ExtractedDocument, Extracted, ok, err, email_text, extract,
  extract_plaintext, extract_pdf, extract_docx, extract_email,
}

abbrev pub extensions : Extractor → List Text
extensions pdf = codes "pdf" ∷ []
extensions docx = codes "docx" ∷ []
extensions email = codes "eml" ∷ codes "msg" ∷ []
extensions plaintext = plaintext_extensions

-- The extension of the file, in lower case, is one of the extractor's.
abbrev pub HasFormat : (Text → Text) → Option Text → Extractor → Type 0
HasFormat to_lowercase extension e =
    (ext : Text) × (extension ≡ some ext) × (is_one_of (to_lowercase ext) (extensions e) ≡ true)

extractor_of-listed :
    (l : Text) (e : Extractor) → extractor_of l ≡ some e → is_one_of l (extensions e) ≡ true
unfolding extractor_of
extractor_of-listed l e h = elim (Bool-cases (text_eq l (codes "pdf"))) [
  | inl a ↦ found pdf (rw a at h) (rw a refl)
  | inr a ↦ elim (Bool-cases (text_eq l (codes "docx"))) [
    | inl b ↦ found docx (rw b at (rw a at h)) (rw b refl)
    | inr b ↦ elim (Bool-cases (text_eq l (codes "eml") || text_eq l (codes "msg"))) [
      | inl c ↦ found email (rw c at (rw b at (rw a at h))) (ground (arith, c))
      | inr c ↦ elim (Bool-cases (is_one_of l plaintext_extensions)) [
        | inl d ↦ found plaintext (rw d at (rw c at (rw b at (rw a at h)))) d
        | inr d ↦ absurd (ground (arith, rw d at (rw c at (rw b at (rw a at h)))))
      ]
    ]
  ]
]
  where
    found :
        (x : Extractor)
        → some x ≡ some e
        → is_one_of l (extensions x) ≡ true
        → is_one_of l (extensions e) ≡ true
    found x q g = subst (λ y. is_one_of l (extensions y) ≡ true) (ap (λ o. unwrap_or o x) q) g

-- A text that is in one list and not in another is none of the other's.
other :
    (l name : Text) (xs : List Text)
    → is_one_of l xs ≡ true
    → is_one_of name xs ≡ false
    → text_eq l name ≡ false
other l name xs h n = elim (text_eq-cases l name) [
  | inl q ↦ absurd (ground (arith, n, subst (λ x. is_one_of x xs ≡ true) q h))
  | inr q ↦ q
]

listed-extractor_of :
    (l : Text) (e : Extractor) → is_one_of l (extensions e) ≡ true → extractor_of l ≡ some e
unfolding extractor_of text_eq
listed-extractor_of l pdf h =
    let a : text_eq l (codes "pdf") ≡ true = ground (arith, h) in rw a refl
listed-extractor_of l docx h =
    let a = other l (codes "pdf") (codes "docx" ∷ []) h refl in
    let b : text_eq l (codes "docx") ≡ true = ground (arith, h) in rw a (rw b refl)
listed-extractor_of l email h =
    let a = other l (codes "pdf") (codes "eml" ∷ codes "msg" ∷ []) h refl in
    let b = other l (codes "docx") (codes "eml" ∷ codes "msg" ∷ []) h refl in
    let c : (text_eq l (codes "eml") || text_eq l (codes "msg")) ≡ true = ground (arith, h) in
    rw a (rw b (rw c refl))
listed-extractor_of l plaintext h =
    let a = other l (codes "pdf") plaintext_extensions h refl in
    let b = other l (codes "docx") plaintext_extensions h refl in
    let c = other l (codes "eml") plaintext_extensions h refl in
    let d = other l (codes "msg") plaintext_extensions h refl in
    rw a (rw b (rw c (rw d (rw h refl))))

pub get_extractor-HasFormat :
    (to_lowercase : Text → Text) (extension : Option Text) (e : Extractor)
    → get_extractor to_lowercase extension ≡ some e
    → HasFormat to_lowercase extension e
unfolding get_extractor
get_extractor-HasFormat to_lowercase none e h = absurd (nothing h)
  where
    nothing : extractor_of [] ≡ some e → ⊥
    nothing q = unfold extractor_of text_eq in (ground (arith, q))
get_extractor-HasFormat to_lowercase (some ext) e h =
    (ext, refl, extractor_of-listed (to_lowercase ext) e h)

pub HasFormat-get_extractor :
    (to_lowercase : Text → Text) (extension : Option Text) (e : Extractor)
    → HasFormat to_lowercase extension e
    → get_extractor to_lowercase extension ≡ some e
unfolding get_extractor
HasFormat-get_extractor to_lowercase extension e (ext, q, h) =
    rw q (listed-extractor_of (to_lowercase ext) e h)

module _ (p : Parsers) where
  -- The text that a format has in these bytes.
  abbrev pub Converts : Extractor → List ℕ → Text → Type 0
  Converts plaintext bytes text = p.from_utf8 bytes ≡ some text
  Converts pdf bytes text =
      (t : Text) × (p.pdf_text bytes ≡ some t) × (text ≡ normalize_whitespace t)
  Converts docx bytes text =
      (children : List DocumentChild) × (p.read_docx bytes ≡ some children)
      × (text ≡ extract_text children)
  Converts email bytes text = (m : Mail) × (p.parse_mail bytes ≡ some m) × (text ≡ email_text m)

  text_of : Extracted → Text
  text_of (ok doc) = doc.text
  text_of (err e) = []

  bytes-Converts :
      (e : Extractor) (file : File) (bytes : List ℕ) (doc : ExtractedDocument)
      → file.contents ≡ some bytes
      → extract p e file ≡ ok doc
      → Converts e bytes doc.text
  unfolding extract text_of mime_type normalize_whitespace count_pdf_pages extract_text email_text
  bytes-Converts plaintext file bytes doc c h = elim (Option-cases (p.from_utf8 bytes)) [
    | inl q ↦ absurd (ground (arith, rw (q, extract_plaintext) at (rw (c, extract) at h)))
    | inr (t, q) ↦
        q ∙ ap (λ x. some (text_of x)) (rw (q, extract_plaintext) at (rw (c, extract) at h))
  ]
  bytes-Converts pdf file bytes doc c h = elim (Option-cases (p.pdf_text bytes)) [
    | inl q ↦ absurd (ground (arith, rw (q, extract_pdf) at (rw (c, extract) at h)))
    | inr (t, q) ↦ (t, q, sym (ap text_of (rw (q, extract_pdf) at (rw (c, extract) at h))))
  ]
  bytes-Converts docx file bytes doc c h = elim (Option-cases (p.read_docx bytes)) [
    | inl q ↦ absurd (ground (arith, rw (q, extract_docx) at (rw (c, extract) at h)))
    | inr (t, q) ↦ (t, q, sym (ap text_of (rw (q, extract_docx) at (rw (c, extract) at h))))
  ]
  bytes-Converts email file bytes doc c h = elim (Option-cases (p.parse_mail bytes)) [
    | inl q ↦ absurd (ground (arith, rw (q, extract_email) at (rw (c, extract) at h)))
    | inr (t, q) ↦ (t, q, sym (ap text_of (rw (q, extract_email) at (rw (c, extract) at h))))
  ]

  -- What is extracted is the text of the bytes of the file.
  pub extract-Converts :
      (e : Extractor) (file : File) (doc : ExtractedDocument)
      → extract p e file ≡ ok doc
      → (bytes : List ℕ) × (file.contents ≡ some bytes) × Converts e bytes doc.text
  unfolding extract
  extract-Converts e file doc h = elim (Option-cases file.contents) [
    | inl c ↦ absurd (ground (arith, rw (c, extract) at h))
    | inr (bytes, c) ↦ (bytes, c, bytes-Converts e file bytes doc c h)
  ]

  -- The text is extracted, whatever the metadata.
  abbrev pub Gives : Text → Extracted → Type 0
  Gives text x = (doc : ExtractedDocument) × (x ≡ ok doc) × (doc.text ≡ text)

  -- The text of the bytes of a file is extracted.
  pub Converts-extract :
      (e : Extractor) (file : File) (bytes : List ℕ) (text : Text)
      → file.contents ≡ some bytes
      → Converts e bytes text
      → Gives text (extract p e file)
  unfolding extract mime_type normalize_whitespace count_pdf_pages extract_text email_text
  Converts-extract plaintext file bytes text c q =
      rw (c, extract) (rw (q, extract_plaintext) (_, refl, refl))
  Converts-extract pdf file bytes text c (t, q, r) =
      rw (c, extract) (rw (q, extract_pdf) (_, refl, sym r))
  Converts-extract docx file bytes text c (t, q, r) =
      rw (c, extract) (rw (q, extract_docx) (_, refl, sym r))
  Converts-extract email file bytes text c (t, q, r) =
      rw (c, extract) (rw (q, extract_email) (_, refl, sym r))
