-- ===== src/SfuTest/Offering.antt =====
-- An offer of the harness, through the bridge of the daemon, to the SFU.
use nodemesh.Base.{
  ◌≡◌, refl, ap, ◌∙◌, true, List, [], ◌∷◌, ◌++◌, Option, none, some, arith, All, All-append,
  append_assoc, append-nil, sym, subst,
}
use nodemesh.Text.{Text, codes, text_eq}
use nodemesh.Text.Trim.{trim}
use nodemesh.Dict.{lookup}
use nodemesh.Amp.Message.{new, parse, collect, wire_headers, get}
use nodemesh.Amp.Message.Headers.{IsHeader, AreHeaders}
use nodemesh.Amp.Message.RoundTrip.{parse_content-wire}
use nodemesh.Amp.Message.Written.{IsName, named-IsHeader, collect-AreHeaders}
use nodemesh.Sfu.Command.{SfuCommand, sdp_offer}
use nodemesh.Mesh.Sfu.{SfuHandle}
use nodemesh.Mesh.Bridge.{BridgeState, accepted_sfu, handle_send, send_message}
use nodemesh.SfuTest.{node_name, optional_line, offer_wire}

abbrev optional_header : (name value : Text) → List (Text × Text)
optional_header name [] = []
optional_header name (c ∷ value) = (name, c ∷ value) ∷ []

abbrev fixed_headers : Text → List (Text × Text)
fixed_headers request_id =
    (codes "type", codes "request")
    ∷ (codes "command", codes "sdp-offer")
    ∷ (codes "from", codes "browser.cachyos.amp")
    ∷ (codes "to", codes "sfu.cachyos.amp")
    ∷ (codes "id", request_id)
    ∷ []

-- The headers of an offer, behind the first.
abbrev offer_headers : (request_id room role : Text) → List (Text × Text)
offer_headers request_id room role =
    fixed_headers request_id
    ++ (optional_header (codes "room") room ++ optional_header (codes "role") role)

abbrev first_header : Text × Text
first_header = (codes "amp", codes "1")

wire_headers-optional :
    (name value : Text) (m : List (Text × Text)) (s : Text)
    → b'\n' ∷ (wire_headers (optional_header name value ++ m) ++ s)
      ≡ optional_line name value ++ (b'\n' ∷ (wire_headers m ++ s))
unfolding wire_headers
wire_headers-optional name [] m s = refl
wire_headers-optional name (c ∷ value) m s = simp append_assoc

optional_lines :
    (room role b : Text)
    → optional_line (codes "room") room ++ (optional_line (codes "role") role ++ (b'\n' ∷ b))
      ≡ b'\n'
        ∷ (wire_headers (optional_header (codes "room") room ++ optional_header (codes "role") role)
            ++ b)
unfolding wire_headers
optional_lines room role b =
    ap (◌++◌ (optional_line (codes "room") room)) (
      sym (
        rw (append-nil (optional_header (codes "role") role)) at
          (wire_headers-optional (codes "role") role [] b)))
    ∙ sym (wire_headers-optional (codes "room") room (optional_header (codes "role") role) b)

abbrev fixed_text : Text
fixed_text =
    codes
      "---\namp: 1\ntype: request\ncommand: sdp-offer\nfrom: browser.cachyos.amp\nto: sfu.cachyos.amp\nid: "

offer_wire_headers :
    (request_id room role sdp : Text)
    → offer_wire request_id room role sdp
      ≡ codes "---\n"
        ++ (wire_headers (first_header ∷ offer_headers request_id room role)
            ++ (codes "---\n" ++ (sdp ++ codes "\n")))
unfolding offer_wire wire_headers
offer_wire_headers request_id room role sdp =
    ap (λ t. fixed_text ++ (request_id ++ t))
      (optional_lines room role (codes "---\n" ++ (sdp ++ codes "\n")))
    ∙ sym (
        ap (λ t. fixed_text ++ t)
          (append_assoc request_id _ (codes "---\n" ++ (sdp ++ codes "\n"))))

optional-IsHeader :
    (name value : Text) → IsHeader (name, value) → All IsHeader (optional_header name value)
optional-IsHeader name [] h = tt
optional-IsHeader name (c ∷ value) h = (h, tt)

offer_headers-IsHeader :
    (request_id room role : Text)
    → IsName request_id
    → IsName room
    → IsName role
    → All IsHeader (first_header ∷ offer_headers request_id room role)
unfolding trim
offer_headers-IsHeader request_id room role i r l =
    All-append IsHeader (first_header ∷ fixed_headers request_id) _
      (
        named-IsHeader (codes "amp") (codes "1") refl (omega arith) (omega arith) refl
            (omega arith),
        (
          named-IsHeader (codes "type") (codes "request") refl (omega arith) (omega arith) refl
              (omega arith),
          (
            named-IsHeader (codes "command") (codes "sdp-offer") refl (omega arith) (omega arith)
                refl (omega arith),
            (
              named-IsHeader (codes "from") (codes "browser.cachyos.amp") refl (omega arith)
                  (omega arith) refl (omega arith),
              (
                named-IsHeader (codes "to") (codes "sfu.cachyos.amp") refl (omega arith)
                    (omega arith) refl (omega arith),
                (
                  named-IsHeader (codes "id") request_id refl (omega arith) (omega arith) i.0 i.1,
                  tt,
                ),
              ),
            ),
          ),
        ),
      )
      (All-append IsHeader (optional_header (codes "room") room) _
        (optional-IsHeader (codes "room") room
          (named-IsHeader (codes "room") room refl (omega arith) (omega arith) r.0 r.1))
        (optional-IsHeader (codes "role") role
          (named-IsHeader (codes "role") role refl (omega arith) (omega arith) l.0 l.1)))

-- The keys of an offer differ, whichever of its two optional headers it has.
collect-offer_headers :
    (request_id room role : Text)
    → collect (first_header ∷ offer_headers request_id room role) []
      ≡ first_header ∷ offer_headers request_id room role
unfolding collect text_eq
collect-offer_headers request_id [] [] = refl
collect-offer_headers request_id (c ∷ room) [] = refl
collect-offer_headers request_id [] (d ∷ role) = refl
collect-offer_headers request_id (c ∷ room) (d ∷ role) = refl

-- The message that the bridge reads.
parse-offer_wire :
    (request_id room role sdp : Text)
    → IsName request_id
    → IsName room
    → IsName role
    → parse (offer_wire request_id room role sdp)
      ≡ some (new (first_header ∷ offer_headers request_id room role) (sdp ++ codes "\n"))
unfolding parse
parse-offer_wire request_id room role sdp i r l =
    ap parse (offer_wire_headers request_id room role sdp)
    ∙ parse_content-wire first_header (offer_headers request_id room role) (sdp ++ codes "\n") (
        subst AreHeaders (collect-offer_headers request_id room role)
          (collect-AreHeaders _ [] (offer_headers-IsHeader request_id room role i r l) (tt, tt)))

abbrev pub non_empty : Text → Option Text
non_empty [] = none
non_empty (c ∷ s) = some (c ∷ s)

-- What the SFU gets for an offer of the harness.
abbrev pub offered : (request_id room role sdp : Text) → SfuCommand
offered request_id room role sdp =
    sdp_offer request_id (codes "browser.cachyos.amp") (codes "sfu.cachyos.amp") (sdp ++ codes "\n")
      (non_empty room) (non_empty role)

get-room :
    (request_id room role : Text)
    → lookup (codes "room") (first_header ∷ offer_headers request_id room role) ≡ non_empty room
unfolding lookup text_eq
get-room request_id [] [] = refl
get-room request_id [] (d ∷ role) = refl
get-room request_id (c ∷ room) role = refl

get-role :
    (request_id room role : Text)
    → lookup (codes "role") (first_header ∷ offer_headers request_id room role) ≡ non_empty role
unfolding lookup text_eq
get-role request_id [] [] = refl
get-role request_id (c ∷ room) [] = refl
get-role request_id [] (d ∷ role) = refl
get-role request_id (c ∷ room) (d ∷ role) = refl

send_message-offer_wire :
    (state : BridgeState) (h : SfuHandle) (request_id room role sdp : Text)
    → state.sfu_handle ≡ some h
    → h.running ≡ true
    → state.node_name ≡ node_name
    → send_message state
        (new (first_header ∷ offer_headers request_id room role) (sdp ++ codes "\n"))
      ≡ (
        accepted_sfu request_id,
        record state {
          sfu_handle =
              some (record h { commands = h.commands ++ (offered request_id room role sdp ∷ []) });
        },
      )
unfolding send_message get text_eq
send_message-offer_wire state h request_id room role sdp e run name =
    rw (e, send_message)
      (rw (name, send_message)
        (rw (run, send_message)
          (rw (get-room request_id room role, get-role request_id room role)
            (ap
              (λ n. (
                accepted_sfu request_id,
                record state {
                  sfu_handle = some (record h {
                    running = true;
                    commands = h.commands ++ (offered request_id room role sdp ∷ []);
                  });
                  node_name = n;
                },
              ))
              name))))

-- An offer that the harness posts to the daemon of its node, whose SFU runs, is accepted under its
-- id, and stands last in the channel of the SFU with its room and role, where it has them, and its sdp. The
-- id, the room and the role have to be trimmed and of one line.
pub handle_send-offer_wire :
    (state : BridgeState) (h : SfuHandle) (request_id room role sdp : Text)
    → state.sfu_handle ≡ some h
    → h.running ≡ true
    → state.node_name ≡ node_name
    → IsName request_id
    → IsName room
    → IsName role
    → handle_send state (offer_wire request_id room role sdp) ≡ (
      accepted_sfu request_id,
      record state {
        sfu_handle =
            some (record h { commands = h.commands ++ (offered request_id room role sdp ∷ []) });
      },
    )
unfolding handle_send
handle_send-offer_wire state h request_id room role sdp e run name i r l =
    rw (parse-offer_wire request_id room role sdp i r l, handle_send)
      (send_message-offer_wire state h request_id room role sdp e run name)
