-- ===== src/Mesh/Dispatch/Destinations.antt =====
-- Where a message of a peer goes.
use nodemesh.Base.{
  ◌≡◌, refl, true, false, [], ◌∷◌, ◌++◌, Option, none, some, arith, inl, inr, Option-cases,
  Bool-cases, ◌⊎◌,
}
use nodemesh.Text.{Text}
use nodemesh.Amp.Message.{AmpMessage, is_empty_message}
use nodemesh.Sfu.Relay.{RelayPacket}
use nodemesh.Sfu.Command.{SfuCommand, is_sfu_command, parse_command}
use nodemesh.Sfu.Command.Parse.{parse_command-is_sfu_command}
use nodemesh.Mesh.Sfu.{SfuHandle, send}
use nodemesh.Mesh.Dispatch.{Dispatcher, to_laravel, sfu_command, keep_sent, dispatch}

-- What becomes of a message.
pub data Dispatched (packet_from_str : Text → Option RelayPacket) (d : Dispatcher) (peer : Text)
    (msg : AmpMessage) (d' : Dispatcher) : Type 0 where
  heartbeat : is_empty_message msg ≡ true → d' ≡ d → Dispatched packet_from_str d peer msg d'
  to_sfu :
      (h : SfuHandle) (cmd : SfuCommand)
      → is_empty_message msg ≡ false
      → d.sfu_handle ≡ some h
      → parse_command packet_from_str msg ≡ some cmd
      → h.running ≡ true
      → d' ≡ record d { sfu_handle = some (record h { commands = h.commands ++ (cmd ∷ []) }) }
      → Dispatched packet_from_str d peer msg d'
  sfu_gone :
      (h : SfuHandle) (cmd : SfuCommand)
      → is_empty_message msg ≡ false
      → d.sfu_handle ≡ some h
      → parse_command packet_from_str msg ≡ some cmd
      → h.running ≡ false
      → d' ≡ d
      → Dispatched packet_from_str d peer msg d'
  to_bridge :
      is_empty_message msg ≡ false
      → (d.sfu_handle ≡ none) ⊎ (parse_command packet_from_str msg ≡ none)
      → d.ws_sink ≡ some true
      → d' ≡ record d { delivered = d.delivered ++ ((peer, msg) ∷ []) }
      → Dispatched packet_from_str d peer msg d'
  fell_back :
      is_empty_message msg ≡ false
      → (d.sfu_handle ≡ none) ⊎ (parse_command packet_from_str msg ≡ none)
      → d.ws_sink ≡ some false
      → d'
        ≡ record d { ws_sink = none; ws_connected = false; posted = d.posted ++ ((peer, msg) ∷ []) }
      → Dispatched packet_from_str d peer msg d'
  to_callback :
      is_empty_message msg ≡ false
      → (d.sfu_handle ≡ none) ⊎ (parse_command packet_from_str msg ≡ none)
      → d.ws_sink ≡ none
      → d' ≡ record d { posted = d.posted ++ ((peer, msg) ∷ []) }
      → Dispatched packet_from_str d peer msg d'

module _ (packet_from_str : Text → Option RelayPacket) (d : Dispatcher) (peer : Text)
    (msg : AmpMessage) where
  sfu_command-some :
      (h : SfuHandle) (cmd : SfuCommand)
      → d.sfu_handle ≡ some h
      → parse_command packet_from_str msg ≡ some cmd
      → sfu_command packet_from_str d msg ≡ some (h, cmd)
  unfolding sfu_command
  sfu_command-some h cmd e p =
      let c = parse_command-is_sfu_command packet_from_str msg cmd p in
      rw (e, sfu_command) (rw c (rw (p, sfu_command) refl))

  sfu_command-none :
      (d.sfu_handle ≡ none) ⊎ (parse_command packet_from_str msg ≡ none)
      → sfu_command packet_from_str d msg ≡ none
  unfolding sfu_command
  sfu_command-none (inl e) = rw (e, sfu_command) refl
  sfu_command-none (inr p) = elim (Option-cases d.sfu_handle) [
    | inl e ↦ rw (e, sfu_command) refl
    | inr (h, e) ↦ elim (Bool-cases (is_sfu_command msg)) [
      | inl c ↦ rw (e, sfu_command) (rw c (rw (p, sfu_command) refl))
      | inr c ↦ rw (e, sfu_command) (rw c refl)
    ]
  ]

  to_laravel-Dispatched :
      is_empty_message msg ≡ false
      → (d.sfu_handle ≡ none) ⊎ (parse_command packet_from_str msg ≡ none)
      → Dispatched packet_from_str d peer msg (to_laravel d peer msg)
  unfolding to_laravel
  to_laravel-Dispatched ne e = elim (Option-cases d.ws_sink) [
    | inl f ↦ to_callback ne e f (ground (arith, f))
    | inr (listening, f) ↦ elim (Bool-cases listening) [
      | inl g ↦ to_bridge ne e (ground (arith, f, g)) (ground (arith, f, g))
      | inr g ↦ fell_back ne e (ground (arith, f, g)) (ground (arith, f, g))
    ]
  ]

  sfu-Dispatched :
      (h : SfuHandle) (cmd : SfuCommand)
      → is_empty_message msg ≡ false
      → d.sfu_handle ≡ some h
      → parse_command packet_from_str msg ≡ some cmd
      → Dispatched packet_from_str d peer msg (keep_sent d (send h cmd))
  unfolding send
  sfu-Dispatched h cmd ne e p = elim (Bool-cases h.running) [
    | inl r ↦ to_sfu h cmd ne e p r (ground (arith, r))
    | inr r ↦ sfu_gone h cmd ne e p r (ground (arith, r))
  ]

  dispatch-to_laravel :
      is_empty_message msg ≡ false
      → (d.sfu_handle ≡ none) ⊎ (parse_command packet_from_str msg ≡ none)
      → Dispatched packet_from_str d peer msg (dispatch packet_from_str d peer msg)
  unfolding dispatch
  dispatch-to_laravel ne e =
      let f = sfu_command-none e in rw ne (rw (f, dispatch) (to_laravel-Dispatched ne e))

  -- A heartbeat goes nowhere. Where there is an SFU, a message that can be read as a command for it goes
  -- last into its channel, and is lost if that SFU is gone. Any other message goes to the bridge, if one
  -- listens; else to the callback, and a bridge that has stopped listening is unregistered.
  pub dispatch-Dispatched :
      Dispatched packet_from_str d peer msg (dispatch packet_from_str d peer msg)
  unfolding dispatch
  dispatch-Dispatched = elim (Bool-cases (is_empty_message msg)) [
    | inl b ↦ rw b (heartbeat b refl)
    | inr ne ↦ elim (Option-cases d.sfu_handle) [
      | inl e ↦ dispatch-to_laravel ne (inl e)
      | inr (h, e) ↦ elim (Option-cases (parse_command packet_from_str msg)) [
        | inl p ↦ dispatch-to_laravel ne (inr p)
        | inr (cmd, p) ↦
            let f = sfu_command-some h cmd e p in
            rw ne (rw (f, dispatch) (sfu-Dispatched h cmd ne e p))
      ]
    ]
  ]
