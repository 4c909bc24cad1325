-- ===== src/Docparse/Docx.antt =====
-- The text of a DOCX document (crates/docparse/src/extractors/docx.rs), from the tree that the DOCX
-- parser gives.
use nodemesh.Base.{
  ◌≡◌, ap, sym, ◌∙◌, List, [], ◌∷◌, ◌++◌, if◌then◌else◌, inl, inr, is_empty, Bool-cases, append-nil,
  append_assoc,
}
use nodemesh.Text.{Text, codes}
use nodemesh.Text.Lines.{join}

-- The parts of the tree that the source looks at; all others are `other`.
pub data RunChild : Type 0 where
  text : Text → RunChild
  other : RunChild

pub data ParagraphChild : Type 0 where
  run : List RunChild → ParagraphChild
  other : ParagraphChild

pub data DocumentChild : Type 0 where
  paragraph : List ParagraphChild → DocumentChild
  other : DocumentChild

-- `para_text` after each of the loops.
unfoldable pub push_run : Text → List RunChild → Text
push_run acc [] = acc
push_run acc (text t ∷ cs) = push_run (acc ++ t) cs
push_run acc (RunChild.other ∷ cs) = push_run acc cs

unfoldable pub push_paragraph : Text → List ParagraphChild → Text
unfolding push_run
push_paragraph acc [] = acc
push_paragraph acc (run cs ∷ ps) = push_paragraph (push_run acc cs) ps
push_paragraph acc (ParagraphChild.other ∷ ps) = push_paragraph acc ps

unfoldable pub paragraphs : List Text → List DocumentChild → List Text
unfolding push_paragraph
paragraphs acc [] = acc
paragraphs acc (paragraph ps ∷ cs) =
    let t = push_paragraph [] ps in paragraphs (if is_empty t then acc else acc ++ (t ∷ [])) cs
paragraphs acc (DocumentChild.other ∷ cs) = paragraphs acc cs

unfoldable pub extract_text : List DocumentChild → Text
unfolding paragraphs join
extract_text children = join (codes "\n\n") (paragraphs [] children)

-- The description: the runs of a paragraph in a row, and the paragraphs that have text.
abbrev pub runs_text : List RunChild → Text
runs_text [] = []
runs_text (text t ∷ cs) = t ++ runs_text cs
runs_text (RunChild.other ∷ cs) = runs_text cs

abbrev pub paragraph_text : List ParagraphChild → Text
paragraph_text [] = []
paragraph_text (run cs ∷ ps) = runs_text cs ++ paragraph_text ps
paragraph_text (ParagraphChild.other ∷ ps) = paragraph_text ps

abbrev pub texts : List DocumentChild → List Text
texts [] = []
texts (paragraph ps ∷ cs) =
    let rest = texts cs in if is_empty (paragraph_text ps) then rest else paragraph_text ps ∷ rest
texts (DocumentChild.other ∷ cs) = texts cs

push_run-runs_text : (acc : Text) (cs : List RunChild) → push_run acc cs ≡ acc ++ runs_text cs
unfolding push_run
push_run-runs_text acc [] = sym (append-nil acc)
push_run-runs_text acc (text t ∷ cs) =
    push_run-runs_text (acc ++ t) cs ∙ append_assoc acc t (runs_text cs)
push_run-runs_text acc (RunChild.other ∷ cs) = push_run-runs_text acc cs

push_paragraph-paragraph_text :
    (acc : Text) (ps : List ParagraphChild) → push_paragraph acc ps ≡ acc ++ paragraph_text ps
unfolding push_paragraph
push_paragraph-paragraph_text acc [] = sym (append-nil acc)
push_paragraph-paragraph_text acc (run cs ∷ ps) =
    push_paragraph-paragraph_text (push_run acc cs) ps
    ∙ ap (λ t. t ++ paragraph_text ps) (push_run-runs_text acc cs)
    ∙ append_assoc acc (runs_text cs) (paragraph_text ps)
push_paragraph-paragraph_text acc (ParagraphChild.other ∷ ps) = push_paragraph-paragraph_text acc ps

paragraphs-texts : (acc : List Text) (cs : List DocumentChild) → paragraphs acc cs ≡ acc ++ texts cs
unfolding paragraphs
paragraphs-texts acc [] = sym (append-nil acc)
paragraphs-texts acc (paragraph ps ∷ cs) = elim (Bool-cases (is_empty (paragraph_text ps))) [
  | inl e ↦ rw (push_paragraph-paragraph_text [] ps) (rw e (paragraphs-texts acc cs))
  | inr e ↦ rw (push_paragraph-paragraph_text [] ps) (
      rw e (
        paragraphs-texts (acc ++ (paragraph_text ps ∷ [])) cs
        ∙ append_assoc acc (paragraph_text ps ∷ []) (texts cs)))
]
paragraphs-texts acc (DocumentChild.other ∷ cs) = paragraphs-texts acc cs

-- The extracted text is that of the paragraphs which have any, in their order, with a blank line
-- between; a paragraph's text is that of its runs in a row.
pub extract_text-texts :
    (children : List DocumentChild) → extract_text children ≡ join (codes "\n\n") (texts children)
unfolding extract_text
extract_text-texts children = ap (join (codes "\n\n")) (paragraphs-texts [] children)
