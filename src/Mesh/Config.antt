-- ===== src/Mesh/Config.antt =====
-- crates/meshd/src/config.rs: the configuration, and what serde makes of the attributes of its fields. The
-- values of TOML are a parameter; a port is read by `u16`'s rule, so it is below 2 ^ 16.
pub mod Written
pub mod RoundTrip
use nodemesh.Base.{ℕ, ◌>>=◌, Bool, false, List, [], ◌∷◌, Option, none, some, and_then, map_option}
use nodemesh.Text.{Text, codes}
use nodemesh.Dict.{Dict, lookup}

pub record NodeConfig : Type 0 where
  pub name : Text
  pub wg_ip : Text
  pub listen : Text

pub record BridgeConfig : Type 0 where
  pub socket : Text
  pub callback_url : Text

pub record PeerConfig : Type 0 where
  pub wg_ip : Text
  pub port : ℕ

pub record LogConfig : Type 0 where
  pub level : Text

pub record SfuConfigToml : Type 0 where
  pub enabled : Bool
  pub udp_bind : Text

pub record Config : Type 0 where
  pub node : NodeConfig
  pub bridge : BridgeConfig
  pub peers : Dict PeerConfig
  pub log : LogConfig
  pub sfu : Option SfuConfigToml

abbrev pub default_udp_bind : Text
default_udp_bind = codes "0.0.0.0:9801"

abbrev pub default_listen : Text
default_listen = codes "0.0.0.0:9800"

abbrev pub default_socket : Text
default_socket = codes "/run/meshd/meshd.sock"

abbrev pub default_port : ℕ
default_port = 9800

abbrev pub default_log_level : Text
default_log_level = codes "info"

-- `impl Default for LogConfig`.
abbrev pub default_log : LogConfig
default_log = record { level = default_log_level }

-- The values of a TOML text, and the parser. An accessor gives `none` for a value of another type, and
-- `as_u16` for a number out of its range.
pub record Toml : Type 1 where
  pub Value : Type 0
  pub as_string : Value → Option Text
  pub as_u16 : Value → Option ℕ
  pub as_bool : Value → Option Bool
  pub as_table : Value → Option (Dict Value)
  pub from_str : Text → Option (Dict Value)

module _ {V A : Type 0} (read : V → Option A) (key : Text) (table : Dict V) where
  -- A field without a default: it has to be there.
  unfoldable pub required : Option A
  unfolding lookup
  required = and_then (lookup key table) read

  -- `#[serde(default)]`.
  unfoldable pub defaulted : A → Option A
  unfolding lookup
  defaulted d = elim (lookup key table) [ none ↦ some d | some v ↦ read v ]

  -- A field of type `Option`.
  unfoldable pub optional : Option (Option A)
  unfolding lookup
  optional = elim (lookup key table) [ none ↦ some none | some v ↦ map_option some (read v) ]

module _ (toml : Toml) where
  -- A struct is read from a table.
  abbrev pub section : {A : Type 0} → (Dict toml.Value → Option A) → toml.Value → Option A
  section read v = and_then (toml.as_table v) read

  unfoldable pub read_node : Dict toml.Value → Option NodeConfig
  unfolding required defaulted
  read_node t = do
    name ← required toml.as_string (codes "name") t
    wg_ip ← required toml.as_string (codes "wg_ip") t
    listen ← defaulted toml.as_string (codes "listen") t default_listen
    some (record { name = name; wg_ip = wg_ip; listen = listen })

  unfoldable pub read_bridge : Dict toml.Value → Option BridgeConfig
  unfolding required defaulted
  read_bridge t = do
    socket ← defaulted toml.as_string (codes "socket") t default_socket
    callback_url ← required toml.as_string (codes "callback_url") t
    some (record { socket = socket; callback_url = callback_url })

  unfoldable pub read_peer : Dict toml.Value → Option PeerConfig
  unfolding required defaulted
  read_peer t = do
    wg_ip ← required toml.as_string (codes "wg_ip") t
    port ← defaulted toml.as_u16 (codes "port") t default_port
    some (record { wg_ip = wg_ip; port = port })

  unfoldable pub read_peers : Dict toml.Value → Option (Dict PeerConfig)
  unfolding read_peer
  read_peers [] = some []
  read_peers ((name, v) ∷ m) = do
    peer ← section read_peer v
    rest ← read_peers m
    some ((name, peer) ∷ rest)

  unfoldable pub read_log : Dict toml.Value → Option LogConfig
  unfolding defaulted
  read_log t = do
    level ← defaulted toml.as_string (codes "level") t default_log_level
    some (record { level = level })

  unfoldable pub read_sfu : Dict toml.Value → Option SfuConfigToml
  unfolding defaulted
  read_sfu t = do
    enabled ← defaulted toml.as_bool (codes "enabled") t false
    udp_bind ← defaulted toml.as_string (codes "udp_bind") t default_udp_bind
    some (record { enabled = enabled; udp_bind = udp_bind })

  unfoldable pub read_config : Dict toml.Value → Option Config
  unfolding read_node read_bridge read_peers read_log read_sfu required defaulted optional
  read_config t = do
    node ← required (section read_node) (codes "node") t
    bridge ← required (section read_bridge) (codes "bridge") t
    peers ← defaulted (section read_peers) (codes "peers") t []
    log ← defaulted (section read_log) (codes "log") t default_log
    sfu ← optional (section read_sfu) (codes "sfu") t
    some (record { node = node; bridge = bridge; peers = peers; log = log; sfu = sfu })

  -- `content` is what the file holds, `none` where it cannot be read.
  unfoldable pub load : (content : Option Text) → Option Config
  unfolding read_config
  load content = do text ← content; table ← toml.from_str text; read_config table
