-- ===== src/Mesh/Upgrade.antt =====
-- `handle_ws_upgrade` of crates/meshd/src/bridge/server.rs, of several requests at once: a step is what one
-- of them does between two points where another may come in. And `handle_status`.
pub mod Race
use nodemesh.Base.{
  ℕ, Bool, true, false, List, [], ◌∷◌, Option, none, some, if◌then◌else◌, get_elem?, set, is_some,
}
use nodemesh.Text.{Text}
use nodemesh.Dict.{Dict}
use nodemesh.Mesh.Peers.{PeerStatus, status}
use nodemesh.Mesh.Bridge.{BridgeState}

pub data Phase : Type 0 where
  requested : Phase
  checked : Phase
  registered : Phase
  bridging : Phase
  ended : Phase
  rejected : Phase

-- `ws_bridge_connected`, the request whose channel the dispatcher got last, and how far each has come.
pub record Upgrades : Type 0 where
  pub ws_bridge_connected : Bool
  pub ws_sink : Option ℕ
  pub phases : List Phase

abbrev to_phase : ℕ → Phase → Upgrades → Upgrades
to_phase i p u = record u { phases = set u.phases i p }

abbrev advance : (dispatcher_open : Bool) → ℕ → Upgrades → Phase → Upgrades
advance dispatcher_open i u requested =
    if u.ws_bridge_connected then to_phase i rejected u else to_phase i checked u
advance dispatcher_open i u checked =
    if dispatcher_open
    then to_phase i registered (record u { ws_sink = some i })
    else to_phase i ended u
advance dispatcher_open i u registered =
    to_phase i bridging (record u { ws_bridge_connected = true })
advance dispatcher_open i u bridging = to_phase i ended (record u { ws_bridge_connected = false })
advance dispatcher_open i u ended = u
advance dispatcher_open i u rejected = u

unfoldable pub handle_ws_upgrade : (dispatcher_open : Bool) → ℕ → Upgrades → Upgrades
handle_ws_upgrade dispatcher_open i u = elim (get_elem? u.phases i) [
  | none ↦ u
  | some p ↦ advance dispatcher_open i u p
]

-- The object that `handle_status` prints.
pub record BridgeStatus : Type 0 where
  pub node : Text
  pub uptime_secs : ℕ
  pub peers : List PeerStatus
  pub sfu_enabled : Bool
  pub ws_bridge : Bool

unfoldable pub handle_status :
    (elapsed : ℕ → ℕ) → (start_time : ℕ) → BridgeState → Upgrades → BridgeStatus
unfolding status
handle_status elapsed start_time state u = record {
  node = state.node_name;
  uptime_secs = elapsed start_time;
  peers = status elapsed state.peer_manager.peers;
  sfu_enabled = is_some state.sfu_handle;
  ws_bridge = u.ws_bridge_connected;
}
