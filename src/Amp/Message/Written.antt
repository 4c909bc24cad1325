-- ===== src/Amp/Message/Written.antt =====
-- Messages whose headers are written out in the program.
use nodemesh.Base.{ℕ, ◌≡◌, refl, ap, ◌∙◌, Bool, List, [], ◌∷◌, ◌++◌, some, subst, All}
use nodemesh.Text.{Text}
use nodemesh.Text.Split.{Without}
use nodemesh.Text.Trim.{IsTrimmed, trim_end, keep_end}
use nodemesh.Dict.{Dict, insert, All-insert, insert-Distinct}
use nodemesh.Amp.Message.{new, parse, to_wire, collect, wire_body}
use nodemesh.Amp.Message.Headers.{IsHeader, AreHeaders, NoColonSpace-Without}
use nodemesh.Amp.Message.RoundTrip.{parse-wire_lem}

pub collect-AreHeaders :
    (hs : List (Text × Text)) (m : Dict Text)
    → All IsHeader hs
    → AreHeaders m
    → AreHeaders (collect hs m)
unfolding collect
collect-AreHeaders [] m h a = a
collect-AreHeaders ((k, v) ∷ hs) m h a =
    collect-AreHeaders hs (insert k v m) h.1
      (All-insert IsHeader k v m h.0 a.0, insert-Distinct k v m a.1)

pub trim_end-append :
    (p : ℕ → Bool) (a : Text) (c : ℕ) (s : Text)
    → trim_end p (c ∷ s) ≡ c ∷ s
    → trim_end p (a ++ (c ∷ s)) ≡ a ++ (c ∷ s)
unfolding trim_end
trim_end-append p [] c s h = h
trim_end-append p (x ∷ a) c s h = ap (keep_end p x) (trim_end-append p a c s h) ∙ kept a
  where
    kept : (a : Text) → keep_end p x (a ++ (c ∷ s)) ≡ x ∷ (a ++ (c ∷ s))
    kept [] = refl
    kept (y ∷ a) = refl

-- A header whose key is written out.
pub named-IsHeader :
    (k v : Text)
    → IsTrimmed k
    → Without b':' k
    → Without b'\n' k
    → IsTrimmed v
    → Without b'\n' v
    → IsHeader (k, v)
named-IsHeader k v tk ck lk tv lv = record {
  key_trimmed = tk;
  value_trimmed = tv;
  key_one_line = lk;
  value_one_line = lv;
  key_splits = NoColonSpace-Without k ck;
}

-- A name that a header can carry.
abbrev pub IsName : Text → Type 0
IsName s = IsTrimmed s × Without b'\n' s

-- Headers whose keys differ are read back from the wire.
pub parse-collected :
    (h : Text × Text) (hs : List (Text × Text)) (b : Text)
    → All IsHeader (h ∷ hs)
    → collect (h ∷ hs) [] ≡ h ∷ hs
    → parse (to_wire (new (h ∷ hs) b)) ≡ some (new (h ∷ hs) (wire_body b))
parse-collected h hs b i e =
    parse-wire_lem h hs b (subst AreHeaders e (collect-AreHeaders (h ∷ hs) [] i (tt, tt)))
