-- ===== src/SfuTest/Answering.antt =====
-- The SFU's answer to an offer, through the callback of the daemon, to the browser that polls.
use nodemesh.Base.{
  subst, ℕ, ◌≡◌, ◌≢◌, refl, ap, ◌∙◌, sym, Bool, true, false, [], ◌∷◌, ◌++◌, Option, none, some,
  arith, inl, inr, Bool-cases, is_empty, All,
}
use nodemesh.Text.{Text, codes, text_eq, text_eq_refl, text_eq_iff}
use nodemesh.Text.Trim.{trim, trim_start, trim_end, keep_end, is_whitespace}
use nodemesh.Dict.{
  lookup, remove, update, Distinct, lookup-remove_self, lookup-remove_ne, lookup-update,
  update-Distinct,
}
use nodemesh.Amp.Message.{new, parse, wire_body, ends_with, get}
use nodemesh.Amp.Message.Headers.{IsHeader}
use nodemesh.Amp.Message.Written.{IsName, named-IsHeader, parse-collected}
use nodemesh.Sfu.Room.{Role}
use nodemesh.Sfu.WebRtc.{WebRtc}
use nodemesh.Sfu.Session.{
  OfferResult, ok, handle_sdp_offer, negotiate, answer_message, answer_headers,
}
use nodemesh.Mesh.Callback.{callback_post}
use nodemesh.SfuTest.{
  PendingAnswers, not_found, answered, stored_or_ignored, signal_poll, mesh_callback,
}

-- White space at the end of a text does not show behind `trim`.
trim_end-append_one :
    (p : ℕ → Bool) (s : Text) (d : ℕ) → p d ≡ true → trim_end p (s ++ (d ∷ [])) ≡ trim_end p s
unfolding trim_end
trim_end-append_one p [] d h = rw h
trim_end-append_one p (c ∷ s) d h = ap (keep_end p c) (trim_end-append_one p s d h)

trim-append_one : (s : Text) (d : ℕ) → is_whitespace d ≡ true → trim (s ++ (d ∷ [])) ≡ trim s
unfolding trim trim_start
trim-append_one [] d h = rw h (unfold trim_end in refl)
trim-append_one (c ∷ s) d h = elim (Bool-cases (is_whitespace c)) [
  | inl e ↦ rw e (trim-append_one s d h)
  | inr e ↦ rw e (trim_end-append_one is_whitespace (c ∷ s) d h)
]

trim-wire_body : (s : Text) → trim (wire_body s) ≡ trim s
unfolding wire_body
trim-wire_body [] = refl
trim-wire_body (c ∷ s) = elim (Bool-cases (ends_with (c ∷ s) b'\n')) [
  | inl e ↦ rw e
  | inr e ↦ rw e (trim-append_one (c ∷ s) b'\n' (unfold is_whitespace in refl))
]

answer_headers-IsHeader :
    (w : WebRtc) (request_id from_addr to_addr : Text)
    → IsName request_id
    → IsName from_addr
    → IsName to_addr
    → All IsHeader (answer_headers w request_id from_addr to_addr)
unfolding trim
answer_headers-IsHeader w request_id from_addr to_addr i f t = (
  named-IsHeader (codes "amp") (codes "1") refl (omega arith) (omega arith) refl (omega arith),
  (
    named-IsHeader (codes "type") (codes "response") refl (omega arith) (omega arith) refl
        (omega arith),
    (
      named-IsHeader (codes "command") (codes "sdp-answer") refl (omega arith) (omega arith) refl
          (omega arith),
      (
        named-IsHeader (codes "from") to_addr refl (omega arith) (omega arith) t.0 t.1,
        (
          named-IsHeader (codes "to") from_addr refl (omega arith) (omega arith) f.0 f.1,
          (
            named-IsHeader (codes "reply-to") request_id refl (omega arith) (omega arith) i.0 i.1,
            tt,
          ),
        ),
      ),
    ),
  ),
)

-- The callback's text, read back.
parse-answer_message :
    (w : WebRtc) (url peer request_id from_addr to_addr json : Text)
    → IsName request_id
    → IsName from_addr
    → IsName to_addr
    → parse (callback_post url peer (answer_message w request_id from_addr to_addr json)).body
      ≡ some (new (answer_headers w request_id from_addr to_addr) (wire_body json))
unfolding callback_post answer_message text_eq
parse-answer_message w url peer request_id from_addr to_addr json i f t =
    parse-collected _ _ json (answer_headers-IsHeader w request_id from_addr to_addr i f t) refl

-- The harness stores the answer under the request that it answers.
mesh_callback-answer_message :
    (w : WebRtc) (pending : PendingAnswers) (url peer request_id from_addr to_addr json : Text)
    → IsName request_id
    → IsName from_addr
    → IsName to_addr
    → mesh_callback pending
        (callback_post url peer (answer_message w request_id from_addr to_addr json)).body
      ≡ (stored_or_ignored, update request_id (λ slot. trim json) pending)
unfolding mesh_callback get text_eq
mesh_callback-answer_message w pending url peer request_id from_addr to_addr json i f t =
    rw (parse-answer_message w url peer request_id from_addr to_addr json i f t, mesh_callback)
      (ap (λ a. (stored_or_ignored, update request_id (λ slot. a) pending)) (trim-wire_body json))

signal_poll-some :
    (pending : PendingAnswers) (id answer : Text)
    → lookup id pending ≡ some answer
    → is_empty answer ≡ false
    → signal_poll pending id ≡ (answered answer, remove id pending)
unfolding signal_poll
signal_poll-some pending id answer e n = rw (e, signal_poll) (rw n)

signal_poll-none :
    (pending : PendingAnswers) (id : Text)
    → lookup id pending ≡ none
    → (signal_poll pending id).0 ≡ not_found
unfolding signal_poll
signal_poll-none pending id e = rw (e, signal_poll)

-- The first poll gets the answer, a second one finds nothing, and other requests are not touched.
abbrev pub IsAnswered : PendingAnswers → PendingAnswers → (request_id answer : Text) → Type 0
IsAnswered pending pending' request_id answer =
    ((signal_poll pending' request_id).0 ≡ answered answer)
    × ((signal_poll (signal_poll pending' request_id).1 request_id).0 ≡ not_found)
    × ((j : Text)
        → request_id ≢ j
        → lookup j (signal_poll pending' request_id).1 ≡ lookup j pending)

update-IsAnswered :
    (pending : PendingAnswers) (request_id answer : Text) {slot : Text}
    → lookup request_id pending ≡ some slot
    → Distinct pending
    → is_empty answer ≡ false
    → IsAnswered pending (update request_id (λ slot. answer) pending) request_id answer
update-IsAnswered pending request_id answer {slot} e d n =
    let pending' = update request_id (λ slot. answer) pending in
    let polled = signal_poll-some pending' request_id answer stored n in
    (
      ap (λ r. r.0) polled,
      signal_poll-none (signal_poll pending' request_id).1 request_id (
          ap (λ r. lookup request_id r.1) polled
          ∙ lookup-remove_self request_id pending' (update-Distinct request_id _ pending d)),
      λ j ne.
          ap (λ r. lookup j r.1) polled ∙ lookup-remove_ne request_id j pending' ne ∙ other j ne,
    )
  where
    stored : lookup request_id (update request_id (λ slot. answer) pending) ≡ some answer
    stored =
        lookup-update request_id request_id (λ slot. answer) pending
        ∙ rw (text_eq_refl request_id) (rw e)

    other :
        (j : Text)
        → request_id ≢ j
        → lookup j (update request_id (λ slot. answer) pending) ≡ lookup j pending
    other j ne =
        lookup-update request_id j (λ slot. answer) pending
        ∙ ground (arith, text_eq_iff request_id j)

abbrev accepted_offer :
    (w : WebRtc) (request_id from_addr to_addr : Text) (room : Option Text) (role : Option Role)
    → w.Rtc
    → (json : Text) → OfferResult w
accepted_offer w request_id from_addr to_addr room role rtc json = record {
  session = record {
    id = request_id;
    from_addr = from_addr;
    rtc = rtc;
    room = room;
    role = role;
    mid_by_kind = record { audio_mid = none; video_mid = none };
    alive = true;
  };
  answer_msg = answer_message w request_id from_addr to_addr json;
}

handle_sdp_offer-ok :
    (w : WebRtc) (now : ℕ) (request_id from_addr to_addr sdp : Text) (local_addr : w.Addr)
    (room : Option Text) (role : Option Role) {rtc : w.Rtc} {json : Text}
    → negotiate w now sdp local_addr ≡ inr (rtc, json)
    → handle_sdp_offer w now request_id from_addr to_addr sdp local_addr room role
      ≡ ok (accepted_offer w request_id from_addr to_addr room role rtc json)
unfolding handle_sdp_offer
handle_sdp_offer-ok w now request_id from_addr to_addr sdp local_addr room role n =
    rw (n, handle_sdp_offer)

-- Where the library accepts an offer, its answer comes back to the browser: the daemon posts it, the
-- harness stores it for the request, and the first poll of the browser gets it, trimmed; a second one
-- finds nothing, and other requests are not touched. The request has to be pending, its id and the
-- two addresses trimmed and of one line, and the answer not blank.
pub signal_poll-handle_sdp_offer :
    (w : WebRtc) (now : ℕ) (request_id from_addr to_addr sdp : Text) (local_addr : w.Addr)
    (room : Option Text) (role : Option Role) (url : Text) (pending : PendingAnswers) {rtc : w.Rtc}
    {json slot : Text}
    → negotiate w now sdp local_addr ≡ inr (rtc, json)
    → IsName request_id
    → IsName from_addr
    → IsName to_addr
    → lookup request_id pending ≡ some slot
    → Distinct pending
    → is_empty (trim json) ≡ false
    → (r : OfferResult w) × (handle_sdp_offer w now request_id from_addr to_addr sdp local_addr room
          role
        ≡ ok r)
      × (let (reply, pending') =
            mesh_callback pending (callback_post url (codes "sfu") r.answer_msg).body in
          (reply ≡ stored_or_ignored) × IsAnswered pending pending' request_id (trim json))
signal_poll-handle_sdp_offer w now request_id from_addr to_addr sdp local_addr room role url pending
      {rtc} {json} n i f t e d b =
    let came =
      mesh_callback-answer_message w pending url (codes "sfu") request_id from_addr to_addr json i f
        t in
    (
      accepted_offer w request_id from_addr to_addr room role rtc json,
      handle_sdp_offer-ok w now request_id from_addr to_addr sdp local_addr room role n,
      (
        ap (λ r. r.0) came,
        subst (λ (p : PendingAnswers). IsAnswered pending p request_id (trim json))
            (sym (ap (λ r. r.1) came)) (update-IsAnswered pending request_id (trim json) e d b),
      ),
    )
