-- ===== src/Docparse/Pages.antt =====
-- `count_pdf_pages` in crates/docparse/src/extractors/pdf.rs, on the text that `from_utf8_lossy` makes
-- of the file.
use nodemesh.Base.{
  ℕ, zero, suc, ◌+◌, ◌-◌, ◌%◌, ◌^◌, ◌<◌, ◌≡◌, true, [], ◌∷◌, ◌++◌, Option, none, some, arith, ltb,
  if◌then◌else◌, inl, inr, Option-cases, length, is_some,
}
use nodemesh.Text.{Text, codes, strip_prefix, strip_prefix-append}

-- `matches(pat).count()`: occurrences that do not overlap; the count of the characters of the last one
-- that are still to be passed over comes first.
unfoldable pub count_matches : ℕ → Text → Text → ℕ
unfolding strip_prefix
count_matches skip pat [] = 0
count_matches (suc skip) pat (c ∷ s) = count_matches skip pat s
count_matches zero pat (c ∷ s) = elim (strip_prefix pat (c ∷ s)) [
  | some r ↦ suc (count_matches (length pat - 1) pat s)
  | none ↦ count_matches 0 pat s
]

unfoldable pub count_pdf_pages : Text → Option ℕ
unfolding count_matches
count_pdf_pages haystack =
    let count =
      count_matches 0 (codes "/Type /Page\n") haystack
      + count_matches 0 (codes "/Type /Page\r") haystack
      + count_matches 0 (codes "/Type /Page ") haystack
      + count_matches 0 (codes "/Type/Page") haystack in
    if ltb 0 count then some (count % 2 ^ 32) else none

count_matches_pos : (d : ℕ) (pat a b : Text) → 0 < count_matches 0 (d ∷ pat) (a ++ ((d ∷ pat) ++ b))
unfolding count_matches
count_matches_pos d pat [] b = rw (strip_prefix-append (d ∷ pat) b, count_matches) (omega arith)
count_matches_pos d pat (c ∷ a) b =
    elim (Option-cases (strip_prefix (d ∷ pat) (c ∷ (a ++ ((d ∷ pat) ++ b))))) [
      | inl e ↦ rw (e, count_matches) (count_matches_pos d pat a b)
      | inr (r, e) ↦ rw (e, count_matches) (omega arith)
    ]

-- A page tree node written `/Type/Pages` is counted as a page: wherever a file holds that text, the
-- count is not nothing.
count_pdf_pages-tree :
    (a b : Text) → is_some (count_pdf_pages (a ++ (codes "/Type/Pages" ++ b))) ≡ true
unfolding count_pdf_pages
count_pdf_pages-tree a b = ground (arith, count_matches_pos b'/' (codes "Type/Page") a (b's' ∷ b))
