-- ===== src/Tests/Starting.antt =====
-- The configuration and the start of the daemon (crates/meshd/src/config.rs and main.rs).
use nodemesh.Base.{
  ℕ, ◌≡◌, ◌⊎◌, refl, ap, arith, Bool, true, false, [], ◌∷◌, Option, none, some, ◌==◌, if◌then◌else◌,
  ltb,
}
use nodemesh.Text.{Text, codes, text_eq}
use nodemesh.Dict.{Dict, lookup}
use nodemesh.Sfu.Relay.{RelayPacket}
use nodemesh.Mesh.Config.{Toml, Config, read_config, load, default_listen, default_log}
use nodemesh.Mesh.Config.Written.{Printer}
use nodemesh.Mesh.Config.RoundTrip.{written, read_config-written}
use nodemesh.Mesh.Startup.{
  System, detect_local_ip, Daemon, serving, panicked, start_up, config_path,
}
use nodemesh.Mesh.Startup.Serving.{CanStart, IsServing, start_up_lem}

mutual
  data Value : Type 0 where
    string : Text → Value
    integer : ℕ → Value
    boolean : Bool → Value
    table : Entries → Value

  data Entries : Type 0 where
    nothing : Entries
    entry : Text → Value → Entries → Entries

abbrev entries : Dict Value → Entries
entries [] = nothing
entries ((k, v) ∷ m) = entry k v (entries m)

abbrev listed : Entries → Dict Value
listed nothing = []
listed (entry k v es) = (k, v) ∷ listed es

listed-entries : (m : Dict Value) → listed (entries m) ≡ m
listed-entries [] = refl
listed-entries ((k, v) ∷ m) = ap (◌∷◌ (k, v)) (listed-entries m)

abbrev as_string : Value → Option Text
as_string (string s) = some s
as_string v = none

abbrev as_u16 : Value → Option ℕ
as_u16 (integer n) = if ltb n 65_536 then some n else none
as_u16 v = none

abbrev as_bool : Value → Option Bool
as_bool (boolean b) = some b
as_bool v = none

abbrev as_table : Value → Option (Dict Value)
as_table (table es) = some (listed es)
as_table v = none

-- A file with no peers and all defaults, but for the SFU that is enabled.
abbrev config : Config
config = record {
  node = record { name = codes "mko"; wg_ip = codes "10.0.0.1"; listen = default_listen };
  bridge = record { socket = codes "/run/m.sock"; callback_url = codes "http://l/" };
  peers = (codes "mmc", record { wg_ip = codes "10.0.0.2"; port = 9800 }) ∷ [];
  log = default_log;
  sfu = some (record { enabled = true; udp_bind = codes "0.0.0.0:9801" });
}

abbrev file : Dict Value
file =
    (
      codes "node",
      table (
          entries (
            (codes "name", string (codes "mko"))
            ∷ (codes "wg_ip", string (codes "10.0.0.1"))
            ∷ [])),
    )
    ∷ (
      codes "bridge",
      table (
          entries (
            (codes "socket", string (codes "/run/m.sock"))
            ∷ (codes "callback_url", string (codes "http://l/"))
            ∷ [])),
    )
    ∷ (
      codes "peers",
      table (
          entries (
            (codes "mmc", table (entries ((codes "wg_ip", string (codes "10.0.0.2")) ∷ []))) ∷ [])),
    )
    ∷ (codes "sfu", table (entries ((codes "enabled", boolean true) ∷ [])))
    ∷ []

abbrev toml : Toml
toml = record {
  Value = Value;
  as_string = as_string;
  as_u16 = as_u16;
  as_bool = as_bool;
  as_table = as_table;
  from_str = λ s. if text_eq s (codes "config") then some file else none;
}

printer : Printer toml
printer = record {
  string = string;
  integer = integer;
  boolean = boolean;
  table = λ t. table (entries t);
  as_string-string = λ s. refl;
  as_u16-integer = λ n h. ground arith;
  as_bool-boolean = λ b. refl;
  as_table-table = λ t. ap some (listed-entries t);
}

read_config-written_example : read_config toml (written toml printer true config) ≡ some config
read_config-written_example = read_config-written toml printer true config (omega arith, tt)

abbrev sys : System
sys = record {
  Ip = ℕ;
  is_unspecified = λ ip. ip == 0;
  probe_binds = true;
  probe_connects = true;
  probe_ip = some 7;
  parse_addr =
      λ s. if text_eq s (codes "0.0.0.0:9801") then some (record { ip = 0; port = 9801 }) else none;
  bind = λ addr. some addr;
  read_to_string =
      λ path. if text_eq path (codes "/etc/m.toml") then some (codes "config") else none;
}

no_option : config_path (codes "meshd" ∷ codes "--config" ∷ []) ≡ codes "/etc/meshd/meshd.toml"
unfolding config_path text_eq
no_option = refl

loaded : load toml (sys.read_to_string (codes "/etc/m.toml")) ≡ some config
unfolding load lookup text_eq
loaded = refl

abbrev no_packet : Text → Option RelayPacket
no_packet s = none

local_specified : (ip : ℕ) → detect_local_ip sys ≡ some ip → (ip == 0) ≡ false
unfolding detect_local_ip
local_specified ip e = ground (arith, e)

start_up_lem_example :
    ((d : Daemon ℕ) × (start_up sys toml
          (codes "meshd" ∷ codes "--config" ∷ codes "/etc/m.toml" ∷ [])
        ≡ serving d)
      × CanStart sys config.sfu
      × IsServing sys toml no_packet config d)
    ⊎ ((start_up sys toml (codes "meshd" ∷ codes "--config" ∷ codes "/etc/m.toml" ∷ []) ≡ panicked)
        × (CanStart sys config.sfu → ⊥))
unfolding text_eq
start_up_lem_example =
    start_up_lem sys toml no_packet (codes "meshd" ∷ []) [] (codes "/etc/m.toml") config (refl, tt)
      loaded local_specified
