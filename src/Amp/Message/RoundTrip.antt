-- ===== src/Amp/Message/RoundTrip.antt =====
-- What `to_wire` writes, `parse` reads back.
use nodemesh.Base.{
  ℕ, ◌≡◌, refl, ap, ◌∙◌, inl, inr, ◌≢◌, Bool, true, false, [], ◌∷◌, ◌++◌, none, some, arith,
  Option-cases, All, subst, map, is_empty,
}
use nodemesh.Text.{Text, codes, strip_suffix, strip_suffix-eq-some, strip_suffix-append}
use nodemesh.Text.Split.{Without}
use nodemesh.Text.Trim.{
  is_whitespace, trim_start, trim_end, keep_end, trim, IsTrimmed, trim_end_idem,
}
use nodemesh.Text.Lines.{lines, split_inclusive, strip_line_end, split_inclusive-append}
use nodemesh.Dict.{Dict}
use nodemesh.Amp.Message.{
  AmpMessage, new, parse, to_wire, get, wire_headers, wire_body, ends_with, split_content,
  parse_content,
}
use nodemesh.Amp.Message.Headers.{
  IsHeader, header_line, AreHeaders, parse_lines-header_line, collect-nil,
}
use nodemesh.Amp.Message.Wire.{frontmatter, header_line-Without, split_once-frontmatter}

-- A text that `trim_end` leaves as it is has no such character at its end.
ends_with-trim_end :
    (p : ℕ → Bool) (d : ℕ) (s : Text) → p d ≡ true → trim_end p s ≡ s → ends_with s d ≡ false
unfolding trim_end ends_with
ends_with-trim_end p d [] hd h = refl
ends_with-trim_end p d (c ∷ []) hd h = ground arith
ends_with-trim_end p d (c ∷ e ∷ s) hd h =
    ends_with-trim_end p d (e ∷ s) hd (tail (trim_end p (e ∷ s)) h)
  where
    tail : (r : Text) → keep_end p c r ≡ c ∷ e ∷ s → r ≡ e ∷ s
    tail [] h = ground arith
    tail (x ∷ r) h = cc

ends_with-append :
    (a : Text) (c : ℕ) (s : Text) (d : ℕ) → ends_with (a ++ (c ∷ s)) d ≡ ends_with (c ∷ s) d
unfolding ends_with
ends_with-append [] c s d = refl
ends_with-append (x ∷ []) c s d = refl
ends_with-append (x ∷ y ∷ a) c s d = ends_with-append (y ∷ a) c s d

strip_suffix-ends_with : (d : ℕ) (s : Text) → ends_with s d ≡ false → strip_suffix (d ∷ []) s ≡ none
strip_suffix-ends_with d s h = elim (Option-cases (strip_suffix (d ∷ []) s)) [
  | inl e ↦ e
  | inr (r, e) ↦ absurd (
      unfold ends_with in
      ground (arith, strip_suffix-eq-some (d ∷ []) s e, ends_with-append r d [] d))
]

trim_end-IsTrimmed : (s : Text) → IsTrimmed s → trim_end is_whitespace s ≡ s
trim_end-IsTrimmed s h =
    subst (λ t. trim_end is_whitespace t ≡ t) h
      (unfold trim in trim_end_idem is_whitespace (trim_start is_whitespace s))

-- A header line ends in no carriage return and no line feed.
ends_with-header_line :
    (h : Text × Text) (d : ℕ)
    → IsHeader h
    → is_whitespace d ≡ true
    → d ≢ b' '
    → ends_with (header_line h) d ≡ false
ends_with-header_line (k, []) d h w ne =
    ends_with-append k b':' (b' ' ∷ []) d ∙ (unfold ends_with in ground arith)
ends_with-header_line (k, c ∷ v) d h w ne =
    ends_with-append k b':' (b' ' ∷ c ∷ v) d
    ∙ ends_with-append (b':' ∷ b' ' ∷ []) c v d
    ∙ ends_with-trim_end is_whitespace d (c ∷ v) w (trim_end-IsTrimmed (c ∷ v) h.value_trimmed)

strip_line_end-header_line :
    (h : Text × Text) → IsHeader h → strip_line_end (header_line h) ≡ header_line h
unfolding strip_line_end is_whitespace
strip_line_end-header_line h i = rw (
  strip_suffix-ends_with b'\n' (header_line h) (ends_with-header_line h b'\n' i refl (omega arith)),
  strip_line_end,
)

strip_line_end-append :
    (h : Text × Text) → IsHeader h → strip_line_end (header_line h ++ (b'\n' ∷ [])) ≡ header_line h
unfolding strip_line_end is_whitespace
strip_line_end-append h i =
    rw (strip_suffix-append (b'\n' ∷ []) (header_line h), strip_line_end)
      (rw (
        strip_suffix-ends_with b'\r' (header_line h)
            (ends_with-header_line h b'\r' i refl (omega arith)),
        strip_line_end,
      ))

split_inclusive-one :
    (c : ℕ) (l : Text) → Without b'\n' (c ∷ l) → split_inclusive (c ∷ l) ≡ (c ∷ l) ∷ []
unfolding split_inclusive
split_inclusive-one c [] h = ground arith
split_inclusive-one c (d ∷ l) h = ground (arith, split_inclusive-one d l h.1)

split_inclusive-header_line :
    (h : Text × Text) → IsHeader h → split_inclusive (header_line h) ≡ header_line h ∷ []
split_inclusive-header_line ([], v) i = split_inclusive-one b':' _ (header_line-Without ([], v) i)
split_inclusive-header_line (c ∷ k, v) i =
    split_inclusive-one c _ (header_line-Without (c ∷ k, v) i)

-- The lines of the frontmatter are the header lines.
lines-frontmatter :
    (h : Text × Text) (m : Dict Text)
    → IsHeader h
    → All IsHeader m
    → lines (frontmatter h m) ≡ map header_line (h ∷ m)
unfolding frontmatter lines
lines-frontmatter h [] i is =
    ap (map strip_line_end) (split_inclusive-header_line h i)
    ∙ ap (λ l. l ∷ []) (strip_line_end-header_line h i)
lines-frontmatter h (h' ∷ m) i is =
    ap (map strip_line_end)
      (split_inclusive-append (header_line h) (frontmatter h' m) (header_line-Without h i))
    ∙ ap (λ l. l ∷ map strip_line_end (split_inclusive (frontmatter h' m)))
        (strip_line_end-append h i)
    ∙ ap (◌∷◌ (header_line h)) (lines-frontmatter h' m is.0 is.1)

pub parse_content-wire :
    (h : Text × Text) (m : Dict Text) (b : Text)
    → AreHeaders (h ∷ m)
    → parse_content (wire_headers (h ∷ m) ++ (codes "---\n" ++ b)) ≡ some (new (h ∷ m) b)
unfolding parse_content split_content
parse_content-wire h m b (is, d) =
    rw (split_once-frontmatter h m b is.0 is.1, split_content)
      (rw (lines-frontmatter h m is.0 is.1) (
        ap (λ hs. some (new hs b)) (parse_lines-header_line (h ∷ m) [] is ∙ collect-nil (h ∷ m) d)))

-- The message that is read back, written out.
pub parse-wire_lem :
    (h : Text × Text) (m : Dict Text) (b : Text)
    → AreHeaders (h ∷ m)
    → parse (to_wire (new (h ∷ m) b)) ≡ some (new (h ∷ m) (wire_body b))
unfolding parse to_wire
parse-wire_lem h m b a = parse_content-wire h m (wire_body b) a

-- A message of at least one header, whose keys differ and whose header lines are well formed, is
-- read back from the wire: every key has the value it had, and the body has gained a final line feed
-- if it was not empty and had none.
pub parse-to_wire :
    (m : AmpMessage)
    → AreHeaders m.headers
    → is_empty m.headers ≡ false
    → (m' : AmpMessage) × (parse (to_wire m) ≡ some m')
      × ((key : Text) → get m' key ≡ get m key)
      × (m'.body ≡ wire_body m.body)
parse-to_wire m h ne =
    (new m.headers (wire_body m.body), read m.headers h ne, λ key. (unfold get in refl), refl)
  where
    read :
        (hs : Dict Text)
        → AreHeaders hs
        → is_empty hs ≡ false
        → parse (to_wire (new hs m.body)) ≡ some (new hs (wire_body m.body))
    read [] h ne = cc
    read (e ∷ hs) h ne = parse-wire_lem e hs m.body h
