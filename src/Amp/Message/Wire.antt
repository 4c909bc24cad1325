-- ===== src/Amp/Message/Wire.antt =====
-- Where the frontmatter ends in what `to_wire` writes.
use nodemesh.Base.{
  ℕ, ◌≡◌, refl, ap, ◌∙◌, ◌≢◌, [], ◌∷◌, ◌++◌, Option, none, some, arith, All, All-append,
  append_assoc, append-nil,
}
use nodemesh.Text.{Text, codes, strip_prefix}
use nodemesh.Text.Split.{Without, split_once, push_left}
use nodemesh.Dict.{Dict}
use nodemesh.Amp.Message.{wire_headers}
use nodemesh.Amp.Message.Headers.{IsHeader, header_line}

abbrev pub push_text : Text → Option (Text × Text) → Option (Text × Text)
push_text l none = none
push_text l (some (a, b)) = some (l ++ a, b)

push_text-push_left :
    (c : ℕ) (l : Text) (o : Option (Text × Text))
    → push_left c (push_text l o) ≡ push_text (c ∷ l) o
push_text-push_left c l none = refl
push_text-push_left c l (some (a, b)) = refl

pub split_once_step :
    (sep : Text) (c : ℕ) (s : Text)
    → strip_prefix sep (c ∷ s) ≡ none
    → split_once sep (c ∷ s) ≡ push_left c (split_once sep s)
unfolding split_once
split_once_step sep c s miss = rw (miss, split_once)

no_line_feed :
    (sep : Text) (c : ℕ) (s : Text) → c ≢ b'\n' → strip_prefix (b'\n' ∷ sep) (c ∷ s) ≡ none
unfolding strip_prefix
no_line_feed sep c s h = ground arith

-- A piece without line feeds is passed over by a search for a separator that begins with one.
pub split_once-skip :
    (sep l s : Text)
    → Without b'\n' l
    → split_once (b'\n' ∷ sep) (l ++ s) ≡ push_text l (split_once (b'\n' ∷ sep) s)
split_once-skip sep [] s h = go (split_once (b'\n' ∷ sep) s)
  where
    go : (o : Option (Text × Text)) → o ≡ push_text [] o
    go none = refl
    go (some (a, b)) = refl
split_once-skip sep (c ∷ l) s h =
    split_once_step (b'\n' ∷ sep) c (l ++ s) (no_line_feed sep c (l ++ s) h.0)
    ∙ ap (push_left c) (split_once-skip sep l s h.1)
    ∙ push_text-push_left c l (split_once (b'\n' ∷ sep) s)

-- A header's line is no `---`.
closing-header_line :
    (k s : Text) → Without b'\n' k → strip_prefix (codes "---\n") (k ++ (b':' ∷ s)) ≡ none
unfolding strip_prefix
closing-header_line [] s h = refl
closing-header_line (a ∷ []) s h = ground arith
closing-header_line (a ∷ b ∷ []) s h = ground arith
closing-header_line (a ∷ b ∷ c ∷ []) s h = ground arith
closing-header_line (a ∷ b ∷ c ∷ d ∷ k) s h = ground arith

-- The frontmatter that the header lines make, with no line feed behind the last.
unfoldable pub frontmatter : Text × Text → Dict Text → Text
frontmatter h [] = header_line h
frontmatter h (h' ∷ m) = header_line h ++ (b'\n' ∷ frontmatter h' m)

pub header_line-Without : (h : Text × Text) → IsHeader h → Without b'\n' (header_line h)
header_line-Without (k, v) h =
    All-append _ k _ h.key_one_line (omega arith, (omega arith, h.value_one_line))

wire_headers-cons :
    (h : Text × Text) (m : Dict Text) (s : Text)
    → wire_headers (h ∷ m) ++ s ≡ header_line h ++ (b'\n' ∷ (wire_headers m ++ s))
unfolding wire_headers
wire_headers-cons h m s = simp append_assoc

-- Behind a line feed the closing line is told from a header line.
split_once-next :
    (h : Text × Text) (m : Dict Text) (s : Text)
    → IsHeader h
    → split_once (codes "\n---\n") (b'\n' ∷ (wire_headers (h ∷ m) ++ s))
      ≡ push_left b'\n' (split_once (codes "\n---\n") (wire_headers (h ∷ m) ++ s))
split_once-next h m s i = split_once_step (codes "\n---\n") b'\n' _ miss
  where
    miss : strip_prefix (codes "\n---\n") (b'\n' ∷ (wire_headers (h ∷ m) ++ s)) ≡ none
    miss =
        rw (wire_headers-cons h m s, append_assoc h.0)
          (unfold strip_prefix in closing-header_line h.0 _ i.key_one_line)

split_once_closing :
    (b : Text)
    → split_once (codes "\n---\n") (b'\n' ∷ (wire_headers [] ++ (codes "---\n" ++ b)))
      ≡ some ([], b)
unfolding split_once wire_headers
split_once_closing b = refl

-- The first closing line of what is written stands behind all headers.
pub split_once-frontmatter :
    (h : Text × Text) (m : Dict Text) (b : Text)
    → IsHeader h
    → All IsHeader m
    → split_once (codes "\n---\n") (wire_headers (h ∷ m) ++ (codes "---\n" ++ b))
      ≡ some (frontmatter h m, b)
unfolding frontmatter
split_once-frontmatter h [] b i is = rw (wire_headers-cons h [] (codes "---\n" ++ b)) (
    split_once-skip (codes "---\n") (header_line h) _ (header_line-Without h i)
    ∙ ap (push_text (header_line h)) (split_once_closing b)
    ∙ rw append-nil)
split_once-frontmatter h (h' ∷ m) b i is = rw (wire_headers-cons h (h' ∷ m) (codes "---\n" ++ b)) (
    split_once-skip (codes "---\n") (header_line h) _ (header_line-Without h i)
    ∙ ap (push_text (header_line h)) (
        split_once-next h' m (codes "---\n" ++ b) is.0
        ∙ ap (push_left b'\n') (split_once-frontmatter h' m b is.0 is.1)))
