-- ===== src/Docparse/Html.antt =====
-- `strip_html_tags` in crates/docparse/src/extractors/email.rs.
use nodemesh.Base.{
  ◌≡◌, ◌≢◌, refl, Bool, true, false, [], ◌∷◌, arith, ◌==◌, if◌then◌else◌, All, ◌∙◌, ap, ◌++◌,
}
use nodemesh.Text.{Text}

unfoldable pub strip_from : Bool → Text → Text
strip_from in_tag [] = []
strip_from in_tag (ch ∷ s) =
    let open_tag = strip_from true s in
    let close_tag = strip_from false s in
    let rest = strip_from in_tag s in
    if ch == b'<'
    then open_tag
    else if ch == b'>'
    then close_tag
    else if in_tag
    then rest
    else ch ∷ rest

unfoldable pub strip_html_tags : Text → Text
unfolding strip_from
strip_html_tags html = strip_from false html

-- No angle bracket.
abbrev pub IsTagFree : Text → Type 0
IsTagFree = All (λ c. (c ≢ b'<') × (c ≢ b'>'))

strip_from-IsTagFree : (in_tag : Bool) (s : Text) → IsTagFree (strip_from in_tag s)
unfolding strip_from
strip_from-IsTagFree in_tag [] = tt
strip_from-IsTagFree in_tag (c ∷ s) = ground (
  arith,
  strip_from-IsTagFree true s,
  strip_from-IsTagFree false s,
  strip_from-IsTagFree in_tag s,
)

-- Inside a tag everything is dropped up to its end, further opening brackets too.
strip_from-in_tag :
    (tag rest : Text)
    → All (λ c. c ≢ b'>') tag
    → strip_from true (tag ++ (b'>' ∷ rest)) ≡ strip_from false rest
unfolding strip_from
strip_from-in_tag [] rest h = refl
strip_from-in_tag (c ∷ tag) rest h = ground (arith, h.0, strip_from-in_tag tag rest h.1)

strip_from-unclosed : (tag : Text) → All (λ c. c ≢ b'>') tag → strip_from true tag ≡ []
unfolding strip_from
strip_from-unclosed [] h = refl
strip_from-unclosed (c ∷ tag) h = ground (arith, h.0, strip_from-unclosed tag h.1)

-- Text outside of tags is kept.
strip_from-outside :
    (before rest : Text)
    → IsTagFree before
    → strip_from false (before ++ rest) ≡ before ++ strip_from false rest
unfolding strip_from
strip_from-outside [] rest h = refl
strip_from-outside (c ∷ before) rest h =
    ground (arith, h.0.0, h.0.1, strip_from-outside before rest h.1)

-- Tags are dropped and the text around them is kept. After text without a bracket, a tag goes, from its
-- opening bracket to the first closing one, with whatever opening brackets are in it; a tag that is not
-- closed goes to the end; a closing bracket without a tag goes alone; and the same holds of what comes
-- behind. The result has no bracket.
pub strip_html_tags_lem :
    (before tag after : Text)
    → IsTagFree before
    → All (λ c. c ≢ b'>') tag
    → (strip_html_tags (before ++ (b'<' ∷ tag ++ (b'>' ∷ after))) ≡ before ++ strip_html_tags after)
      × (strip_html_tags (before ++ (b'<' ∷ tag)) ≡ before ++ [])
      × (strip_html_tags (before ++ (b'>' ∷ after)) ≡ before ++ strip_html_tags after)
      × (strip_html_tags (before ++ []) ≡ before ++ [])
      × IsTagFree (strip_html_tags after)
unfolding strip_html_tags strip_from
strip_html_tags_lem before tag after b t = (
  strip_from-outside before _ b ∙ ap (λ x. before ++ x) (strip_from-in_tag tag after t),
  strip_from-outside before _ b ∙ ap (λ x. before ++ x) (strip_from-unclosed tag t),
  strip_from-outside before _ b,
  strip_from-outside before [] b,
  strip_from-IsTagFree false after,
)
