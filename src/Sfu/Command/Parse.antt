-- ===== src/Sfu/Command/Parse.antt =====
-- Which messages stand for which commands.
use nodemesh.Base.{
  ◌≡◌, ◌≢◌, refl, ap, ◌∙◌, Bool, true, false, List, ◌∷◌, Option, none, some, arith, inl, inr,
  Option-cases, Bool-cases,
}
use nodemesh.Text.{Text, codes, text_eq, text_eq-cases, text_eq_comm}
use nodemesh.Amp.Message.{AmpMessage, get, command_name}
use nodemesh.Sfu.Relay.{RelayPacket, contains}
use nodemesh.Sfu.Command.{
  SfuCommand, sdp_offer, relay_subscribe, relay_unsubscribe, sfu_commands, is_sfu_command,
  parse_command, parse_named, relay_command, from_node,
}

abbrev pub is_offer : SfuCommand → Bool
is_offer (sdp_offer _ _ _ _ _ _) = true
is_offer _ = false

relay_command-is_offer :
    (make : Text → Text → SfuCommand) (msg : AmpMessage) (cmd : SfuCommand)
    → ((room node : Text) → is_offer (make room node) ≡ false)
    → relay_command make msg ≡ some cmd
    → is_offer cmd ≡ false
relay_command-is_offer make msg cmd law h = elim (Option-cases (get msg (codes "room"))) [
  | inl e ↦ absurd (ground (arith, e))
  | inr (room, e) ↦ elim (Option-cases (from_node msg)) [
    | inl f ↦ absurd (ground (arith, e, f))
    | inr (node, f) ↦ ground (arith, e, f, law room node)
  ]
]

parse_named-is_offer :
    (packet_from_str : Text → Option RelayPacket) (msg : AmpMessage) (name : Text)
    (cmd : SfuCommand)
    → text_eq name (codes "sdp-offer") ≡ false
    → parse_named packet_from_str msg name ≡ some cmd
    → is_offer cmd ≡ false
unfolding parse_named
parse_named-is_offer packet_from_str msg name cmd e0 h =
    elim (Bool-cases (text_eq name (codes "relay-subscribe"))) [
      | inl e1 ↦
          relay_command-is_offer relay_subscribe msg cmd (λ room node. refl)
            (ground (arith, e0, e1))
      | inr e1 ↦ elim (Bool-cases (text_eq name (codes "relay-unsubscribe"))) [
        | inl e2 ↦
            relay_command-is_offer relay_unsubscribe msg cmd (λ room node. refl)
              (ground (arith, e0, e1, e2))
        | inr e2 ↦ elim (Bool-cases (text_eq name (codes "relay-data"))) [
          | inl e3 ↦ elim (Option-cases (packet_from_str msg.body)) [
            | inl f ↦ absurd (ground (arith, e0, e1, e2, e3, f))
            | inr (p, f) ↦ ground (arith, e0, e1, e2, e3, f)
          ]
          | inr e3 ↦ absurd (ground (arith, e0, e1, e2, e3))
        ]
      ]
    ]

-- A message with another command than an SDP offer is never read as one.
pub parse_command-is_offer :
    (packet_from_str : Text → Option RelayPacket) (msg : AmpMessage) (cmd : SfuCommand)
    → command_name msg ≢ some (codes "sdp-offer")
    → parse_command packet_from_str msg ≡ some cmd
    → is_offer cmd ≡ false
unfolding parse_command
parse_command-is_offer packet_from_str msg cmd ne h = elim (Option-cases (command_name msg)) [
  | inl e ↦ absurd (ground (arith, e))
  | inr (name, e) ↦ elim (text_eq-cases name (codes "sdp-offer")) [
    | inl f ↦ absurd (ne (e ∙ ap some f))
    | inr f ↦ parse_named-is_offer packet_from_str msg name cmd f (ground (arith, e))
  ]
]

contains-cons_false :
    (name m : Text) (ms : List Text)
    → contains name (m ∷ ms) ≡ false
    → (text_eq name m ≡ false) × (contains name ms ≡ false)
unfolding contains
contains-cons_false name m ms h = ground (arith, text_eq_comm name m)

parse_named-listed :
    (packet_from_str : Text → Option RelayPacket) (msg : AmpMessage) (name : Text)
    → contains name sfu_commands ≡ false
    → parse_named packet_from_str msg name ≡ none
unfolding parse_named
parse_named-listed packet_from_str msg name h =
    let (a, h1) = contains-cons_false name (codes "sdp-offer") _ h in
    let (b, h2) = contains-cons_false name (codes "relay-subscribe") _ h1 in
    let (c, h3) = contains-cons_false name (codes "relay-unsubscribe") _ h2 in
    let (d, h4) = contains-cons_false name (codes "relay-data") _ h3 in rw (a, b, c, d)

-- Every message that the parser reads as a command is one that `is_sfu_command` recognises.
pub parse_command-is_sfu_command :
    (packet_from_str : Text → Option RelayPacket) (msg : AmpMessage) (cmd : SfuCommand)
    → parse_command packet_from_str msg ≡ some cmd
    → is_sfu_command msg ≡ true
unfolding parse_command is_sfu_command
parse_command-is_sfu_command packet_from_str msg cmd h = elim (Option-cases (command_name msg)) [
  | inl e ↦ absurd (ground (arith, e))
  | inr (name, e) ↦ elim (Bool-cases (contains name sfu_commands)) [
    | inl f ↦ rw (e, is_sfu_command) f
    | inr f ↦ absurd (ground (arith, e, parse_named-listed packet_from_str msg name f))
  ]
]
