-- ===== src/Mesh/Events/Relays.antt =====
-- What the SFU events of crates/meshd/src/main.rs are written as is read back on the other node.
use nodemesh.Base.{
  ◌≡◌, refl, [], ◌∷◌, ◌++◌, Option, some, Bool-cases, inl, inr, arith, ◌≢◌, All, All-append,
}
use nodemesh.Text.{Text, codes, text_eq}
use nodemesh.Text.Split.{Without}
use nodemesh.Text.Trim.{IsTrimmed, trim, trim_start, is_whitespace}
use nodemesh.Amp.Message.{new, parse, to_wire, wire_body, ends_with}
use nodemesh.Amp.Message.Headers.{IsHeader}
use nodemesh.Amp.Message.Written.{trim_end-append, named-IsHeader, IsName, parse-collected}
use nodemesh.Mesh.Events.{sfu_address, relay_headers, relay_message, packet_headers}

sfu_address-IsTrimmed : (node : Text) → IsTrimmed (sfu_address node)
unfolding trim trim_start
sfu_address-IsTrimmed node =
    trim_end-append is_whitespace (codes "sfu." ++ node) b'.' (codes "amp") refl

sfu_address-Without : (node : Text) → Without b'\n' node → Without b'\n' (sfu_address node)
sfu_address-Without node h =
    All-append (λ c. c ≢ b'\n') (codes "sfu.") (node ++ codes ".amp") (omega arith)
      (All-append (λ c. c ≢ b'\n') node (codes ".amp") h (omega arith))

common-IsHeader :
    (kind node target : Text)
    → IsName kind
    → IsName node
    → IsName target
    → (IsHeader (codes "amp", codes "1"))
      × IsHeader (codes "type", kind)
      × IsHeader (codes "from", sfu_address node)
      × IsHeader (codes "to", sfu_address target)
unfolding trim
common-IsHeader kind node target k n t = (
  named-IsHeader (codes "amp") (codes "1") refl (omega arith) (omega arith) refl (omega arith),
  named-IsHeader (codes "type") kind refl (omega arith) (omega arith) k.0 k.1,
  named-IsHeader (codes "from") (sfu_address node) refl (omega arith) (omega arith)
      (sfu_address-IsTrimmed node) (sfu_address-Without node n.1),
  named-IsHeader (codes "to") (sfu_address target) refl (omega arith) (omega arith)
      (sfu_address-IsTrimmed target) (sfu_address-Without target t.1),
)

relay_headers-IsHeader :
    (name node target room : Text)
    → IsName name
    → IsName node
    → IsName target
    → IsName room
    → All IsHeader (relay_headers name node target room)
unfolding trim
relay_headers-IsHeader name node target room c n t r =
    let (amp, kind, from, to) =
      common-IsHeader (codes "request") node target (refl, omega arith) n t in
    (
      amp,
      (
        kind,
        (
          named-IsHeader (codes "command") name refl (omega arith) (omega arith) c.0 c.1,
          (
            from,
            (
              to,
              (
                named-IsHeader (codes "room") room refl (omega arith) (omega arith) r.0 r.1,
                (
                  named-IsHeader (codes "from-node") node refl (omega arith) (omega arith) n.0 n.1,
                  tt,
                ),
              ),
            ),
          ),
        ),
      ),
    )

-- The keys of a relay message differ, so it is the list of its headers.
relay_message_id :
    (name node target room : Text)
    → relay_message name node target room ≡ new (relay_headers name node target room) []
unfolding relay_message text_eq
relay_message_id name node target room = refl

pub parse-relay_message :
    (name node target room : Text)
    → IsName name
    → IsName node
    → IsName target
    → IsName room
    → parse (to_wire (relay_message name node target room))
      ≡ some (relay_message name node target room)
unfolding relay_message text_eq wire_body
parse-relay_message name node target room c n t r =
    parse-collected _ _ [] (relay_headers-IsHeader name node target room c n t r) refl

pub packet_headers-IsHeader :
    (node target : Text) → IsName node → IsName target → All IsHeader (packet_headers node target)
unfolding trim
packet_headers-IsHeader node target n t =
    let (amp, kind, from, to) =
      common-IsHeader (codes "stream") node target (refl, omega arith) n t in
    (
      amp,
      (
        kind,
        (
          named-IsHeader (codes "command") (codes "relay-data") refl (omega arith) (omega arith)
              refl (omega arith),
          (from, (to, tt)),
        ),
      ),
    )

pub wire_body-read :
    {V : Type 0} (from_str : Text → Option V) (s : Text)
    → from_str (s ++ codes "\n") ≡ from_str s
    → from_str (wire_body s) ≡ from_str s
unfolding wire_body
wire_body-read from_str [] h = refl
wire_body-read from_str (c ∷ s) h = elim (Bool-cases (ends_with (c ∷ s) b'\n')) [
  | inl e ↦ rw e
  | inr e ↦ rw e h
]
