-- ===== src/Sfu/Command.antt =====
-- The commands and events of the SFU, and the messages that stand for commands (crates/sfu/src/lib.rs).
-- `packet_from_str` is the JSON parser's reading of a `RelayPacket`.
pub mod Parse
use nodemesh.Base.{
  Bool, true, false, ◌||◌, List, [], ◌∷◌, Option, none, some, if◌then◌else◌, and_then, unwrap_or,
  map_option, is_some,
}
use nodemesh.Text.{Text, codes, text_eq}
use nodemesh.Amp.Address.{AmpAddress}
use nodemesh.Amp.Address
use nodemesh.Amp.Message.{AmpMessage, get, from_addr, to_addr, command_name}
use nodemesh.Sfu.Relay.{RelayPacket, contains}

pub data SfuCommand : Type 0 where
  sdp_offer : (request_id from_addr to_addr sdp : Text) (room role : Option Text) → SfuCommand
  relay_subscribe : (room from_node : Text) → SfuCommand
  relay_unsubscribe : (room from_node : Text) → SfuCommand
  relay_data : (packet : RelayPacket) → SfuCommand
  shutdown : SfuCommand

pub data SfuEvent : Type 0 where
  send_message : AmpMessage → SfuEvent
  request_relay : (target_node room : Text) → SfuEvent
  cancel_relay : (target_node room : Text) → SfuEvent
  relay_media : (target_node : Text) (packet : RelayPacket) → SfuEvent

abbrev pub sfu_commands : List Text
sfu_commands =
    codes "sdp-offer"
    ∷ codes "relay-subscribe"
    ∷ codes "relay-unsubscribe"
    ∷ codes "relay-data"
    ∷ []

abbrev is_listed : Option Text → Bool
is_listed none = false
is_listed (some cmd) = contains cmd sfu_commands

unfoldable pub is_sfu_command : AmpMessage → Bool
unfolding contains
is_sfu_command msg = is_listed (command_name msg)

abbrev or_else : Option Text → Option Text → Option Text
or_else (some a) b = some a
or_else none b = b

-- The node of the `from` address.
abbrev sender_node : AmpMessage → Option Text
sender_node msg =
    and_then (from_addr msg) (λ a. map_option (λ (d : AmpAddress). d.node) (Address.parse a))

-- `from-node`, or else the node of the sender's address.
abbrev pub from_node : AmpMessage → Option Text
from_node msg = or_else (get msg (codes "from-node")) (sender_node msg)

abbrev unknown : Text
unknown = codes "unknown"

abbrev pub offer : AmpMessage → SfuCommand
offer msg =
    sdp_offer (unwrap_or (get msg (codes "id")) unknown) (unwrap_or (from_addr msg) unknown)
      (unwrap_or (to_addr msg) unknown) msg.body (get msg (codes "room")) (get msg (codes "role"))

-- A relay command needs a room and a node.
abbrev pub relay_command : (Text → Text → SfuCommand) → AmpMessage → Option SfuCommand
relay_command make msg =
    and_then (get msg (codes "room"))
      (λ room. and_then (from_node msg) (λ node. some (make room node)))

-- The `match` on the command's name.
unfoldable pub parse_named : (Text → Option RelayPacket) → AmpMessage → Text → Option SfuCommand
parse_named packet_from_str msg cmd =
    if text_eq cmd (codes "sdp-offer")
    then some (offer msg)
    else if text_eq cmd (codes "relay-subscribe")
    then relay_command relay_subscribe msg
    else if text_eq cmd (codes "relay-unsubscribe")
    then relay_command relay_unsubscribe msg
    else if text_eq cmd (codes "relay-data")
    then map_option relay_data (packet_from_str msg.body)
    else none

unfoldable pub parse_command : (Text → Option RelayPacket) → AmpMessage → Option SfuCommand
unfolding parse_named
parse_command packet_from_str msg =
    and_then (command_name msg) (λ cmd. parse_named packet_from_str msg cmd)
