-- ===== src/Mesh/Dispatch.antt =====
-- `dispatch_inbound` in crates/meshd/src/main.rs: where the messages of the peers go. `delivered` and
-- `posted` are what went to the WebSocket bridge and to the HTTP callback.
pub mod Destinations
use nodemesh.Base.{
  Bool, true, false, ◌&&◌, List, [], ◌∷◌, ◌++◌, Option, none, some, if◌then◌else◌, and_then,
}
use nodemesh.Text.{Text}
use nodemesh.Amp.Message.{AmpMessage, is_empty_message}
use nodemesh.Sfu.Relay.{RelayPacket}
use nodemesh.Sfu.Command.{SfuCommand, is_sfu_command, parse_command}
use nodemesh.Mesh.Sfu.{SfuHandle, send}

pub record Dispatcher : Type 0 where
  pub sfu_handle : Option SfuHandle
  -- The sender to the bridge, and whether the bridge still listens.
  pub ws_sink : Option Bool
  pub ws_connected : Bool
  pub delivered : List (Text × AmpMessage)
  pub posted : List (Text × AmpMessage)

-- `forward_to_laravel`.
abbrev pub post : Dispatcher → Text → AmpMessage → Dispatcher
post d peer msg = record d { posted = d.posted ++ ((peer, msg) ∷ []) }

-- The bridge first, the callback if there is none or if it has gone.
unfoldable pub to_laravel : Dispatcher → Text → AmpMessage → Dispatcher
to_laravel d peer msg = elim d.ws_sink [
  | none ↦ post d peer msg
  | some listening ↦
      if listening
      then record d { delivered = d.delivered ++ ((peer, msg) ∷ []) }
      else post (record d { ws_sink = none; ws_connected = false }) peer msg
]

-- The command for the SFU, if there is an SFU and the message is such a command.
unfoldable pub sfu_command :
    (Text → Option RelayPacket) → Dispatcher → AmpMessage → Option (SfuHandle × SfuCommand)
unfolding is_sfu_command parse_command
sfu_command packet_from_str d msg = and_then d.sfu_handle (λ h.
    if is_sfu_command msg
    then and_then (parse_command packet_from_str msg) (λ cmd. some (h, cmd))
    else none)

abbrev pub keep_sent : Dispatcher → Option SfuHandle → Dispatcher
keep_sent d none = d
keep_sent d (some h) = record d { sfu_handle = some h }

unfoldable pub dispatch : (Text → Option RelayPacket) → Dispatcher → Text → AmpMessage → Dispatcher
unfolding sfu_command send to_laravel
dispatch packet_from_str d peer msg =
    if is_empty_message msg then d else elim (sfu_command packet_from_str d msg) [
      | some (h, cmd) ↦ keep_sent d (send h cmd)
      | none ↦ to_laravel d peer msg
    ]

-- A bridge has registered.
abbrev pub register_bridge : Dispatcher → Dispatcher
register_bridge d = record d { ws_sink = some true }
