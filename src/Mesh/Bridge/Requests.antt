-- ===== src/Mesh/Bridge/Requests.antt =====
-- What `handle_send` answers, and which command it gives to the SFU.
use nodemesh.Base.{
  ◌≡◌, ◌≢◌, refl, ap, true, false, [], ◌∷◌, ◌++◌, Option, none, some, arith, inl, inr, Option-cases,
  Bool-cases, unwrap_or, subst,
}
use nodemesh.Text.{Text, codes, text_eq, text_eq_iff}
use nodemesh.Amp.Address
use nodemesh.Amp.Address.{AmpAddress, is_for_node}
use nodemesh.Amp.Message.{AmpMessage, parse, command_name, get, from_addr, to_addr}
use nodemesh.Sfu.Relay.{RelayPacket}
use nodemesh.Sfu.Command.{SfuCommand, sdp_offer, is_sfu_command, parse_command}
use nodemesh.Sfu.Command.Parse.{is_offer, parse_command-is_offer}
use nodemesh.Mesh.Peers.{PeerManager, SendError, ok, err, route, Result-cases}
use nodemesh.Mesh.Sfu.{SfuHandle, send}
use nodemesh.Mesh.Bridge.{
  BridgeState, Response, bad_request, accepted_sfu, sfu_error, accepted, bad_gateway, sfu_target,
  local_sfu, offer_to, message_id, route_to_peer, send_to_sfu, send_message, handle_send,
}

-- The message is for the SFU of this node: there is one, the message is one of its commands, and it is
-- sent to an address of this node.
pub record IsForSfu (state : BridgeState) (msg : AmpMessage) (h : SfuHandle) (to : Text)
    : Type 0 where
  pub has_sfu : state.sfu_handle ≡ some h
  pub is_command : is_sfu_command msg ≡ true
  pub is_sent_to : to_addr msg ≡ some to
  pub has_address :
      (addr : AmpAddress) × (Address.parse to ≡ some addr) × (addr.node ≡ state.node_name)

IsForSfu-sfu_target :
    (state : BridgeState) (msg : AmpMessage) (h : SfuHandle) (to : Text)
    → IsForSfu state msg h to
    → sfu_target state msg ≡ some (h, to)
unfolding local_sfu is_for_node
IsForSfu-sfu_target state msg h to i =
    let (addr, p, n) = i.has_address in
    let same = (text_eq_iff addr.node state.node_name).1 n in
    let s = i.has_sfu in
    let c = i.is_command in
    let t = i.is_sent_to in
    rw (s, sfu_target) (rw c (rw (t, local_sfu) (rw (p, local_sfu) (rw same refl))))

sfu_target-IsForSfu :
    (state : BridgeState) (msg : AmpMessage) (h : SfuHandle) (to : Text)
    → sfu_target state msg ≡ some (h, to)
    → IsForSfu state msg h to
unfolding local_sfu is_for_node
sfu_target-IsForSfu state msg h to e = elim (Option-cases state.sfu_handle) [
  | inl s ↦ absurd (ground (arith, rw s at e))
  | inr (h', s) ↦ elim (Bool-cases (is_sfu_command msg)) [
    | inr c ↦ absurd (ground (arith, rw c at (rw s at e)))
    | inl c ↦ elim (Option-cases (to_addr msg)) [
      | inl t ↦ absurd (ground (arith, rw t at (rw c at (rw s at e))))
      | inr (to', t) ↦ elim (Option-cases (Address.parse to')) [
        | inl p ↦ absurd (ground (arith, rw p at (rw t at (rw c at (rw s at e)))))
        | inr (addr, p) ↦ elim (Bool-cases (text_eq addr.node state.node_name)) [
          | inr n ↦ absurd (ground (arith, rw n at (rw p at (rw t at (rw c at (rw s at e))))))
          | inl n ↦
              let same : some (h', to') ≡ some (h, to) =
                rw n at (rw p at (rw t at (rw c at (rw s at e)))) in
              subst (λ (x : SfuHandle × Text). IsForSfu state msg x.0 x.1)
                (ap (λ o. unwrap_or o (h', to')) same)
                (record {
                  has_sfu = s;
                  is_command = c;
                  is_sent_to = t;
                  has_address = (addr, p, (text_eq_iff addr.node state.node_name).0 n);
                })
        ]
      ]
    ]
  ]
]

sfu_target-none :
    (state : BridgeState) (msg : AmpMessage)
    → sfu_target state msg ≡ none
    → (h : SfuHandle) (to : Text) → IsForSfu state msg h to
    → ⊥
sfu_target-none state msg e h to i = ground (arith, e, IsForSfu-sfu_target state msg h to i)

-- The SDP offer that is made of a message.
abbrev pub offered : AmpMessage → Text → SfuCommand
offered msg to =
    sdp_offer (unwrap_or (get msg (codes "id")) (codes "none"))
      (unwrap_or (from_addr msg) (codes "unknown")) to msg.body (get msg (codes "room"))
      (get msg (codes "role"))

-- What a request is answered with, and what it leaves behind.
pub data Answer (state : BridgeState) (body : Text) (r : Response) (state' : BridgeState)
    : Type 0 where
  refused : parse body ≡ none → r ≡ bad_request → state' ≡ state → Answer state body r state'
  to_sfu :
      (msg : AmpMessage) (h : SfuHandle) (to : Text)
      → parse body ≡ some msg
      → IsForSfu state msg h to
      → h.running ≡ true
      → r ≡ accepted_sfu (unwrap_or (get msg (codes "id")) (codes "none"))
      → state' ≡ record state {
        sfu_handle = some (record h { commands = h.commands ++ (offered msg to ∷ []) });
      }
      → Answer state body r state'
  sfu_gone :
      (msg : AmpMessage) (h : SfuHandle) (to : Text)
      → parse body ≡ some msg
      → IsForSfu state msg h to
      → h.running ≡ false
      → r ≡ sfu_error
      → state' ≡ state
      → Answer state body r state'
  to_peer :
      (msg : AmpMessage) (pm : PeerManager)
      → parse body ≡ some msg
      → ((h : SfuHandle) (to : Text) → IsForSfu state msg h to → ⊥)
      → route state.peer_manager msg ≡ ok pm
      → r ≡ accepted (unwrap_or (get msg (codes "id")) (codes "none"))
      → state' ≡ record state { peer_manager = pm }
      → Answer state body r state'
  unroutable :
      (msg : AmpMessage) (e : SendError)
      → parse body ≡ some msg
      → ((h : SfuHandle) (to : Text) → IsForSfu state msg h to → ⊥)
      → route state.peer_manager msg ≡ err e
      → r ≡ bad_gateway e
      → state' ≡ state
      → Answer state body r state'

to_peer-Answer :
    (state : BridgeState) (body : Text) (msg : AmpMessage)
    → parse body ≡ some msg
    → sfu_target state msg ≡ none
    → Answer state body
        (route_to_peer state (message_id msg) msg).0
        (route_to_peer state (message_id msg) msg).1
unfolding route_to_peer
to_peer-Answer state body msg p t = elim (Result-cases (route state.peer_manager msg)) [
  | inl (pm, e) ↦ rw (e, route_to_peer) (to_peer msg pm p (sfu_target-none state msg t) e refl refl)
  | inr (x, e) ↦
      rw (e, route_to_peer) (unroutable msg x p (sfu_target-none state msg t) e refl refl)
]

to_sfu-Answer :
    (state : BridgeState) (body : Text) (msg : AmpMessage) (h : SfuHandle) (to : Text)
    → parse body ≡ some msg
    → sfu_target state msg ≡ some (h, to)
    → let (r, state') =
        send_to_sfu state (message_id msg) (send h (offer_to (message_id msg) to msg)) in
      Answer state body r state'
unfolding send_to_sfu send
to_sfu-Answer state body msg h to p t =
    let i = sfu_target-IsForSfu state msg h to t in
    elim (Bool-cases h.running) [
      | inl r ↦ to_sfu msg h to p i r (ground (arith, r)) (ground (arith, r))
      | inr r ↦ sfu_gone msg h to p i r (ground (arith, r)) (ground (arith, r))
    ]

send_message-Answer :
    (state : BridgeState) (body : Text) (msg : AmpMessage)
    → parse body ≡ some msg
    → Answer state body (send_message state msg).0 (send_message state msg).1
unfolding send_message
send_message-Answer state body msg p = elim (Option-cases (sfu_target state msg)) [
  | inl e ↦ rw (e, send_message) (to_peer-Answer state body msg p e)
  | inr ((h, to), e) ↦ rw (e, send_message) (to_sfu-Answer state body msg h to p e)
]

-- Every request is answered in one of five ways, each with its condition. A text that is no message is
-- refused. A message for the SFU of this node, that is a command of the SFU whose `to` is an address of
-- this node, goes as an SDP offer last into the channel of the SFU, or the answer is an error when the
-- SFU is gone. Any other message is routed to its peer, or the answer has the reason why it cannot be.
-- Where something failed the state is what it was.
pub handle_send-Answer :
    (state : BridgeState) (body : Text)
    → Answer state body (handle_send state body).0 (handle_send state body).1
unfolding handle_send
handle_send-Answer state body = elim (Option-cases (parse body)) [
  | inl e ↦ rw (e, handle_send) (refused e refl refl)
  | inr (msg, e) ↦ rw (e, handle_send) (send_message-Answer state body msg e)
]

-- Any command of the SFU that is posted for this node, one of the relay commands too, is given to the
-- SFU as an SDP offer with the id, the addresses, the body, the room and the role of the message: where
-- the message stands for another command, that command is not given.
pub send_message-offer :
    (packet_from_str : Text → Option RelayPacket) (state : BridgeState) (msg : AmpMessage)
    (h : SfuHandle) (to : Text) (cmd : SfuCommand)
    → IsForSfu state msg h to
    → h.running ≡ true
    → command_name msg ≢ some (codes "sdp-offer")
    → parse_command packet_from_str msg ≡ some cmd
    → ((send_message state msg).1.sfu_handle
        ≡ some (record h { commands = h.commands ++ (offered msg to ∷ []) }))
      × (offered msg to ≢ cmd)
unfolding send_message send send_to_sfu
send_message-offer packet_from_str state msg h to cmd i running ne p =
    let t = IsForSfu-sfu_target state msg h to i in
    (
      rw (t, send_message) (rw running refl),
      λ e. differ e (parse_command-is_offer packet_from_str msg cmd ne p),
    )
  where
    differ : offered msg to ≡ cmd → is_offer cmd ≡ false → ⊥
    differ e f = ground (arith, ap is_offer e)
