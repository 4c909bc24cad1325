-- ===== src/SfuTest.antt =====
-- tools/sfu-test/src/main.rs: the harness between a browser that polls and the bridge of the daemon.
-- JSON and the HTTP exchange with the daemon are parameters.
pub mod Offering
pub mod Answering
use nodemesh.Base.{
  ℕ, Bool, true, false, [], ◌∷◌, ◌++◌, Option, none, some, if◌then◌else◌, is_empty, map_option,
  unwrap_or,
}
use nodemesh.Text.{Text, codes, text_eq}
use nodemesh.Text.Trim.{trim}
use nodemesh.Dict.{Dict, lookup, insert, remove, update}
use nodemesh.Amp.Message.{AmpMessage, parse, get, command_name}

-- The answers by request, empty where they are awaited.
abbrev pub PendingAnswers : Type 0
PendingAnswers = Dict Text

abbrev pub node_name : Text
node_name = codes "cachyos"

-- What is answered to an offer of the browser, with the request's id.
pub data OfferReply : Type 0 where
  bad_request : OfferReply
  ok : Text → OfferReply
  bad_gateway : OfferReply

pub data PollReply : Type 0 where
  not_found : PollReply
  accepted : PollReply
  answered : Text → PollReply

pub data CallbackReply : Type 0 where
  stored_or_ignored : CallbackReply
  refused : CallbackReply

abbrev pub optional_line : (name value : Text) → Text
optional_line name [] = []
optional_line name (c ∷ value) = codes "\n" ++ (name ++ (codes ": " ++ (c ∷ value)))

-- The text of the message that offers.
unfoldable pub offer_wire : (request_id room role sdp_body : Text) → Text
offer_wire request_id room role sdp_body =
    codes "---\namp: 1\ntype: request\ncommand: sdp-offer\nfrom: browser."
    ++ (node_name
        ++ (codes ".amp\nto: sfu."
            ++ (node_name
                ++ (codes ".amp\nid: "
                    ++ (request_id
                        ++ (optional_line (codes "room") room
                            ++ (optional_line (codes "role") role
                                ++ (codes "\n---\n" ++ (sdp_body ++ codes "\n")))))))))

-- The text that is logged for the status and the body of a response; `none` where the exchange failed.
abbrev pub send_to_meshd : Option (Text × Text) → Option Text
send_to_meshd response =
    map_option (λ (status, body). body ++ (codes " (" ++ (status ++ codes ")"))) response

abbrev is_text : Text → Option Text → Bool
is_text s none = false
is_text s (some t) = text_eq t s

abbrev after_exchange : Text → Option Text → PendingAnswers → OfferReply × PendingAnswers
after_exchange request_id (some status) pending = (ok request_id, pending)
after_exchange request_id none pending = (bad_gateway, remove request_id pending)

-- `str_field v name` is `v.get(name)` as a string, and `sdp_body v` the text of the object of its type
-- and its sdp. The exchange gets the text and says what is pending behind it.
module _ {ℓ} {Value : Type ℓ} (from_str : Text → Option Value)
    (str_field : Value → Text → Option Text) (sdp_body : Value → Text)
    (exchange : Text → PendingAnswers → Option (Text × Text) × PendingAnswers) where
  abbrev wire_of : Text → Value → Text
  unfolding offer_wire
  wire_of request_id v =
      offer_wire request_id (unwrap_or (str_field v (codes "room")) [])
        (unwrap_or (str_field v (codes "role")) []) (sdp_body v)

  unfoldable pub signal_offer :
      (request_id : Text) → PendingAnswers → (body : Text) → OfferReply × PendingAnswers
  unfolding text_eq insert remove offer_wire
  signal_offer request_id pending body = elim (from_str body) [
    | none ↦ (bad_request, pending)
    | some v ↦
        if is_text (codes "offer") (str_field v (codes "type"))
        then (let (response, pending') =
              exchange (wire_of request_id v) (insert request_id [] pending) in
            after_exchange request_id (send_to_meshd response) pending')
        else (bad_request, pending)
  ]

unfoldable pub signal_poll : PendingAnswers → (id : Text) → PollReply × PendingAnswers
unfolding lookup remove
signal_poll pending id = elim (lookup id pending) [
  | none ↦ (not_found, pending)
  | some answer ↦
      if is_empty answer then (accepted, pending) else (answered answer, remove id pending)
]

-- An answer for a request that is not pending is dropped.
abbrev store_answer : PendingAnswers → AmpMessage → Option Text → CallbackReply × PendingAnswers
unfolding trim update
store_answer pending msg none = (refused, pending)
store_answer pending msg (some request_id) =
    (stored_or_ignored, update request_id (λ slot. trim msg.body) pending)

unfoldable pub mesh_callback : PendingAnswers → (body : Text) → CallbackReply × PendingAnswers
unfolding parse get text_eq trim update
mesh_callback pending body = elim (parse body) [
  | none ↦ (refused, pending)
  | some msg ↦
      if is_text (codes "sdp-answer") (command_name msg)
      then store_answer pending msg (get msg (codes "reply-to"))
      else (stored_or_ignored, pending)
]
