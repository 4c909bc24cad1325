-- ===== src/Mesh/Hello/Identity.antt =====
-- The end that is connected to learns the name of the one that connects.
use nodemesh.Base.{◌≡◌, refl, ap, ◌∙◌, List, [], ◌∷◌, ◌++◌, and_then, arith, ◌≢◌, All, All-append}
use nodemesh.Text.{Text, codes, text_eq, strip_suffix-append}
use nodemesh.Text.Split.{Without}
use nodemesh.Text.Trim.{
  IsTrimmed, trim, trim_start, trim_end, is_whitespace, trim_start-append, trim_start-IsTrimmed,
}
use nodemesh.Amp.Message.{to_wire, get, wire_body}
use nodemesh.Amp.Message.Headers.{IsHeader}
use nodemesh.Amp.Message.Written.{trim_end-append, named-IsHeader, IsName, parse-collected}
use nodemesh.Mesh.Connection.{Read, text}
use nodemesh.Mesh.Hello.{
  hello_headers, hello, sender_name, waiting, known, from_name, after_first, first_frame, identify,
}

address-IsTrimmed : (node_name : Text) → IsTrimmed node_name → IsTrimmed (node_name ++ codes ".amp")
unfolding trim trim_start is_whitespace
address-IsTrimmed node_name h =
    ap (trim_end is_whitespace) (
      trim_start-append is_whitespace node_name b'.' (codes "amp") refl
        (trim_start-IsTrimmed node_name h))
    ∙ trim_end-append is_whitespace node_name b'.' (codes "amp") refl

args-IsTrimmed : (wg_ip : Text) → IsTrimmed (codes "{\"wg_ip\":\"" ++ (wg_ip ++ codes "\"}"))
unfolding trim trim_start
args-IsTrimmed wg_ip =
    trim_end-append is_whitespace (codes "{\"wg_ip\":\"" ++ wg_ip) b'"' (codes "}") refl

hello_headers-IsHeader :
    (node_name wg_ip : Text)
    → IsName node_name
    → Without b'\n' wg_ip
    → All IsHeader (hello_headers node_name wg_ip)
unfolding trim
hello_headers-IsHeader node_name wg_ip n w = (
  named-IsHeader (codes "amp") (codes "1") refl (omega arith) (omega arith) refl (omega arith),
  (
    named-IsHeader (codes "type") (codes "event") refl (omega arith) (omega arith) refl
        (omega arith),
    (
      named-IsHeader (codes "from") (node_name ++ codes ".amp") refl (omega arith) (omega arith)
          (address-IsTrimmed node_name n.0)
          (All-append (λ c. c ≢ b'\n') node_name (codes ".amp") n.1 (omega arith)),
      (
        named-IsHeader (codes "command") (codes "hello") refl (omega arith) (omega arith) refl
            (omega arith),
        (
          named-IsHeader (codes "args") _ refl (omega arith) (omega arith) (args-IsTrimmed wg_ip) (
              All-append (λ c. c ≢ b'\n') (codes "{\"wg_ip\":\"") _ (omega arith)
                (All-append (λ c. c ≢ b'\n') wg_ip (codes "\"}") w (omega arith))),
          tt,
        ),
      ),
    ),
  ),
)

first_frame-hello :
    (node_name wg_ip : Text)
    → IsName node_name
    → Without b'\n' wg_ip
    → first_frame (text (to_wire (hello node_name wg_ip))) ≡ known node_name
unfolding first_frame hello sender_name get text_eq wire_body
first_frame-hello node_name wg_ip n w =
    ap (λ m. from_name (and_then m sender_name))
      (parse-collected _ _ [] (hello_headers-IsHeader node_name wg_ip n w) refl)
    ∙ ap from_name (strip_suffix-append (codes ".amp") node_name)

-- Whatever comes first and is neither a close nor a hello, the hello that a node writes tells the other
-- end its name. The name has to be trimmed and of one line, and the address of one line.
pub identify-hello :
    (node_name wg_ip : Text) (before after : List Read)
    → IsName node_name
    → Without b'\n' wg_ip
    → All (λ r. first_frame r ≡ waiting) before
    → identify (before ++ (text (to_wire (hello node_name wg_ip)) ∷ after)) ≡ known node_name
unfolding identify
identify-hello node_name wg_ip [] after n w h =
    ap (λ o. after_first o (identify after)) (first_frame-hello node_name wg_ip n w)
identify-hello node_name wg_ip (r ∷ before) after n w h =
    ap (λ o. after_first o (identify (before ++ (text (to_wire (hello node_name wg_ip)) ∷ after))))
      h.0
    ∙ identify-hello node_name wg_ip before after n w h.1
