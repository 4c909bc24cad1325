-- ===== src/Mesh/Startup.antt =====
-- The start of the daemon: `main` in crates/meshd/src/main.rs as a function of its arguments and of what
-- the system answers, with `SfuHandle::start` in crates/sfu/src/lib.rs and `resolve_peers` in
-- crates/meshd/src/peer/resolver.rs.
pub mod Serving
use nodemesh.Base.{
  Bool, true, false, not, ◌&&◌, List, [], ◌∷◌, Option, none, some, if◌then◌else◌, and_then,
  map_option, unwrap_or, is_some, ℕ, get_elem?,
}
use nodemesh.Text.{Text, codes, text_eq}
use nodemesh.Dict.{Dict}
use nodemesh.Mesh.Config.{Toml, Config, PeerConfig, SfuConfigToml, load}
use nodemesh.Mesh.Peers
use nodemesh.Mesh.Sfu.{SfuHandle}
use nodemesh.Mesh.Bridge.{BridgeState}
use nodemesh.Mesh.Dispatch.{Dispatcher}
use nodemesh.Mesh.Events.{Forwarder}

pub record SocketAddr (Ip : Type 0) : Type 0 where
  pub ip : Ip
  pub port : ℕ

-- What the system answers. `bind` gives the address that the socket then has; it and `read_to_string`
-- give `none` where they fail. The three `probe` fields are the socket that finds the local address:
-- whether it can be bound and connected, and its own address.
pub record System : Type 1 where
  pub Ip : Type 0
  pub is_unspecified : Ip → Bool
  pub probe_binds : Bool
  pub probe_connects : Bool
  pub probe_ip : Option Ip
  pub parse_addr : Text → Option (SocketAddr Ip)
  pub bind : SocketAddr Ip → Option (SocketAddr Ip)
  pub read_to_string : Text → Option Text

-- `skip_while(|a| a != "--config")`.
unfoldable pub skip_to_option : List Text → List Text
unfolding text_eq
skip_to_option [] = []
skip_to_option (arg ∷ args) =
    if text_eq arg (codes "--config") then arg ∷ args else skip_to_option args

unfoldable pub config_path : List Text → Text
unfolding skip_to_option
config_path args = unwrap_or (get_elem? (skip_to_option args) 1) (codes "/etc/meshd/meshd.toml")

-- The static configuration.
abbrev pub resolve_peers : Dict PeerConfig → Dict PeerConfig
resolve_peers config_peers = config_peers

-- What was started: the addresses that are served, the peers that are dialled, the dispatcher and the
-- bridge, and, with the SFU, the address of its candidates and the task that forwards its events.
pub record Daemon (Ip : Type 0) : Type 0 where
  pub listen : Text
  pub socket : Text
  pub callback_url : Text
  pub dialled : Dict PeerConfig
  pub bridge_state : BridgeState
  pub dispatcher : Dispatcher
  pub candidate_addr : Option (SocketAddr Ip)
  pub forwarder : Option Forwarder

-- The process ends with status 1, panics when its peers are dialled already, or serves.
pub data Started (Ip : Type 0) : Type 0 where
  exited : Started Ip
  panicked : Started Ip
  serving : Daemon Ip → Started Ip

-- How `SfuHandle::start` ends: in a panic, with an error, or with a handle and an address.
pub data Begun (Ip : Type 0) : Type 0 where
  start_panics : Begun Ip
  fails : Begun Ip
  begins : SfuHandle → SocketAddr Ip → Begun Ip

module _ (sys : System) where
  -- Of crates/sfu/src/session.rs; `none` is a panic of one of its three `expect`s.
  unfoldable pub detect_local_ip : Option sys.Ip
  detect_local_ip =
      if sys.probe_binds then if sys.probe_connects then sys.probe_ip else none else none

  -- The candidates have an address that others can reach. `none` is the panic of `detect_local_ip`.
  unfoldable pub candidate : SocketAddr sys.Ip → Option (SocketAddr sys.Ip)
  unfolding detect_local_ip
  candidate local_addr =
      if sys.is_unspecified local_addr.ip
      then map_option (λ ip. record local_addr { ip = ip }) detect_local_ip
      else some local_addr

  abbrev begun : Option (SocketAddr sys.Ip) → Begun sys.Ip
  begun none = start_panics
  begun (some local_addr) = begins (record { running = true; commands = [] }) local_addr

  -- `SfuHandle::start`: the handle, and the address that the loop gets.
  unfoldable pub start : SocketAddr sys.Ip → Begun sys.Ip
  unfolding candidate
  start udp_bind = elim (sys.bind udp_bind) [
    | none ↦ fails
    | some local_addr ↦ begun (candidate local_addr)
  ]

  -- A start that fails is only logged.
  abbrev unless_panic : Begun sys.Ip → Option (Option (SfuHandle × SocketAddr sys.Ip))
  unless_panic start_panics = none
  unless_panic fails = some none
  unless_panic (begins h local_addr) = some (some (h, local_addr))

  -- The SFU of the configuration: a panic, none, or what was started.
  unfoldable pub start_sfu : Option SfuConfigToml → Option (Option (SfuHandle × SocketAddr sys.Ip))
  unfolding start
  start_sfu none = some none
  start_sfu (some sfu_cfg) =
      if sfu_cfg.enabled
      then and_then (sys.parse_addr sfu_cfg.udp_bind) (λ udp_bind. unless_panic (start udp_bind))
      else some none

  unfoldable pub serve : Config → Option (SfuHandle × SocketAddr sys.Ip) → Daemon sys.Ip
  serve config sfu = record {
    listen = config.node.listen;
    socket = config.bridge.socket;
    callback_url = config.bridge.callback_url;
    dialled = resolve_peers config.peers;
    bridge_state = record {
      peer_manager = Peers.new;
      sfu_handle = and_then sfu (λ s. some s.0);
      node_name = config.node.name;
    };
    dispatcher = record {
      sfu_handle = and_then sfu (λ s. some s.0);
      ws_sink = none;
      ws_connected = false;
      delivered = [];
      posted = [];
    };
    candidate_addr = and_then sfu (λ s. some s.1);
    forwarder = and_then sfu (λ s.
        some (record { peer_manager = Peers.new; posted = []; node_name = config.node.name }));
  }

  unfoldable pub start_up : Toml → List Text → Started sys.Ip
  unfolding config_path load start_sfu serve
  start_up toml args = elim (load toml (sys.read_to_string (config_path args))) [
    | none ↦ exited
    | some config ↦ elim (start_sfu config.sfu) [
      | none ↦ panicked
      | some sfu ↦ serving (serve config sfu)
    ]
  ]
