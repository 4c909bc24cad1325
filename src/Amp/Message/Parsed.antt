-- ===== src/Amp/Message/Parsed.antt =====
-- Messages that came from `AmpMessage::parse`, and what becomes of them when they are written again.
use nodemesh.Base.{
  ◌≡◌, refl, ap, sym, ◌∙◌, inl, inr, false, [], ◌∷◌, ◌++◌, Option, none, some, arith, Option-cases,
  subst, is_empty,
}
use nodemesh.Text.{Text, codes, strip_prefix}
use nodemesh.Text.Split.{Without, split_once, push_left}
use nodemesh.Text.Lines.{lines, lines-Without}
use nodemesh.Amp.Message.{
  AmpMessage, new, parse, to_wire, get, wire_headers, wire_body, ends_with, split_content,
  parse_content, parse_lines,
}
use nodemesh.Amp.Message.Headers.{AreHeaders, parse_lines-AreHeaders}
use nodemesh.Amp.Message.Wire.{push_text, split_once-skip, split_once_step}
use nodemesh.Amp.Message.RoundTrip.{parse-to_wire}

-- A parsed message comes of a frontmatter and a body.
parse-split :
    (raw : Text) {m : AmpMessage}
    → parse raw ≡ some m
    → (c fm : Text) × (strip_prefix (codes "---\n") raw ≡ some c)
      × (split_content c ≡ some (fm, m.body))
      × (m.headers ≡ parse_lines (lines fm) [])
unfolding parse parse_content
parse-split raw {m} h = elim (Option-cases (strip_prefix (codes "---\n") raw)) [
  | inl e ↦ absurd (ground (arith, e))
  | inr (c, e) ↦ elim (Option-cases (split_content c)) [
    | inl f ↦ absurd (ground (arith, e, f))
    | inr ((fm, b), f) ↦ (c, fm, e, ground (arith, e, f), ground (arith, e, f))
  ]
]

-- Every message that `parse` returns has distinct keys, and header lines that survive the wire.
pub parse-AreHeaders : (raw : Text) {m : AmpMessage} → parse raw ≡ some m → AreHeaders m.headers
parse-AreHeaders raw {m} h =
    let (c, fm, e, f, eq) = parse-split raw h in
    subst AreHeaders (sym eq) (parse_lines-AreHeaders (lines fm) [] (lines-Without fm) (tt, tt))

-- A received message that has a header is forwarded faithfully: what is read from its rewritten text
-- has the same value at every key, and the body up to the final line feed that is added.
pub parse-to_wire-parse :
    (raw : Text) {m : AmpMessage}
    → parse raw ≡ some m
    → is_empty m.headers ≡ false
    → (m' : AmpMessage) × (parse (to_wire m) ≡ some m')
      × ((key : Text) → get m' key ≡ get m key)
      × (m'.body ≡ wire_body m.body)
parse-to_wire-parse raw {m} h ne = parse-to_wire m (parse-AreHeaders raw h) ne

-- A split that fails, or that leaves nothing behind the separator.
abbrev EndsEmpty : Option (Text × Text) → Type 0
EndsEmpty none = Unit
EndsEmpty (some (a, b)) = b ≡ []

split_content-EndsEmpty :
    (c fm : Text) {b : Text}
    → EndsEmpty (split_once (codes "\n---\n") c)
    → split_content c ≡ some (fm, b)
    → b ≡ []
unfolding split_content
split_content-EndsEmpty c fm {b} h e = elim (Option-cases (split_once (codes "\n---\n") c)) [
  | inl f ↦ ground (arith, f)
  | inr ((x, y), f) ↦ ground (arith, f, subst EndsEmpty f h)
]

push_text-EndsEmpty :
    (l : Text) (o : Option (Text × Text)) → EndsEmpty o → EndsEmpty (push_text l o)
push_text-EndsEmpty l none h = tt
push_text-EndsEmpty l (some (a, b)) h = h

-- Behind one line there is no closing line.
one_line-none : (b : Text) → Without b'\n' b → split_once (codes "\n---\n") (b ++ codes "\n") ≡ none
one_line-none b h =
    split_once-skip (codes "---\n") b (codes "\n") h ∙ (unfold split_once strip_prefix in refl)

closing_of_one_line :
    (b : Text) {r : Text}
    → Without b'\n' b
    → strip_prefix (codes "---\n") (b ++ codes "\n") ≡ some r
    → r ≡ []
unfolding strip_prefix
closing_of_one_line [] h e = ground arith
closing_of_one_line (x ∷ []) h e = ground arith
closing_of_one_line (x ∷ y ∷ []) h e = ground arith
closing_of_one_line (x ∷ y ∷ z ∷ []) h e = ground arith
closing_of_one_line (x ∷ y ∷ z ∷ w ∷ b) h e = ground arith

one_line-EndsEmpty :
    (b : Text)
    → Without b'\n' b
    → EndsEmpty (split_once (codes "\n---\n") (codes "---\n" ++ (b ++ codes "\n")))
one_line-EndsEmpty b h =
    subst EndsEmpty
      (sym (
        split_once-skip (codes "---\n") (codes "---") (b'\n' ∷ (b ++ codes "\n"))
          (omega arith, (omega arith, (omega arith, tt)))))
      (push_text-EndsEmpty (codes "---") _
        (elim (Option-cases (strip_prefix (codes "\n---\n") (b'\n' ∷ (b ++ codes "\n")))) [
          | inl e ↦
              subst EndsEmpty
                (sym (
                  split_once_step (codes "\n---\n") b'\n' (b ++ codes "\n") e
                  ∙ ap (push_left b'\n') (one_line-none b h)))
                tt
          | inr (r, e) ↦
              unfold split_once in
              rw (e, split_once) (closing_of_one_line b h (unfold strip_prefix in e))
        ]))

ends_with-Without : (b : Text) → Without b'\n' b → ends_with b b'\n' ≡ false
unfolding ends_with
ends_with-Without [] h = refl
ends_with-Without (c ∷ []) h = ground arith
ends_with-Without (c ∷ d ∷ b) h = ends_with-Without (d ∷ b) h.1

content_of_wire :
    (b : Text)
    → is_empty b ≡ false
    → Without b'\n' b
    → strip_prefix (codes "---\n") (to_wire (new [] b)) ≡ some (codes "---\n" ++ (b ++ codes "\n"))
unfolding to_wire wire_headers wire_body strip_prefix
content_of_wire b ne h = rw (ne, ends_with-Without b h)

-- A message with a body of one line and no header loses its body on the wire: its text is refused by
-- `parse`, or is read as a message with an empty body.
pub to_wire_headerless :
    (b : Text) {m : AmpMessage}
    → is_empty b ≡ false
    → Without b'\n' b
    → parse (to_wire (new [] b)) ≡ some m
    → m.body ≡ []
to_wire_headerless b ne h e =
    let (c, fm, p, f, eq) = parse-split (to_wire (new [] b)) e in
    let same : codes "---\n" ++ (b ++ codes "\n") ≡ c = cc (p, content_of_wire b ne h) in
    split_content-EndsEmpty c fm
      (subst EndsEmpty (ap (split_once (codes "\n---\n")) same) (one_line-EndsEmpty b h)) f
