-- ===== src/Mesh/Config/Written.antt =====
-- How the sections of a configuration (crates/meshd/src/config.rs) are written, with their defaults or
-- without, and that each is read back.
use nodemesh.Base.{
  ℕ, ◌≡◌, ◌<◌, ◌^◌, refl, ap, sym, Bool, true, false, not, ◌&&◌, [], ◌∷◌, ◌++◌, Option, none, some,
  arith, ◌==◌, All,
}
use nodemesh.Text.{Text, codes, text_eq, text_eq_iff, text_eq_refl}
use nodemesh.Dict.{Dict, lookup}
use nodemesh.Mesh.Config.{
  Toml, NodeConfig, BridgeConfig, PeerConfig, LogConfig, SfuConfigToml, default_listen,
  default_socket, default_port, default_log_level, default_udp_bind, required, defaulted, optional,
  section, read_node, read_bridge, read_peer, read_peers, read_log, read_sfu,
}

-- How values are written, so that the accessors read them.
pub record Printer (toml : Toml) : Type 0 where
  pub string : Text → toml.Value
  pub integer : ℕ → toml.Value
  pub boolean : Bool → toml.Value
  pub table : Dict toml.Value → toml.Value
  pub as_string-string : (s : Text) → toml.as_string (string s) ≡ some s
  pub as_u16-integer : (n : ℕ) → n < 2 ^ 16 → toml.as_u16 (integer n) ≡ some n
  pub as_bool-boolean : (b : Bool) → toml.as_bool (boolean b) ≡ some b
  pub as_table-table : (t : Dict toml.Value) → toml.as_table (table t) ≡ some t

-- An entry that may be left out.
abbrev pub entry : {V : Type 0} → Bool → Text → V → Dict V
entry true key v = []
entry false key v = (key, v) ∷ []

module _ (toml : Toml) (p : Printer toml) (omit : Bool) where
  abbrev pub written_node : NodeConfig → Dict toml.Value
  written_node n =
      (codes "name", p.string n.name)
      ∷ (codes "wg_ip", p.string n.wg_ip)
      ∷ entry (omit && text_eq n.listen default_listen) (codes "listen") (p.string n.listen)

  abbrev pub written_bridge : BridgeConfig → Dict toml.Value
  written_bridge b =
      (codes "callback_url", p.string b.callback_url)
      ∷ entry (omit && text_eq b.socket default_socket) (codes "socket") (p.string b.socket)

  abbrev pub written_peer : PeerConfig → Dict toml.Value
  written_peer c =
      (codes "wg_ip", p.string c.wg_ip)
      ∷ entry (omit && (c.port == default_port)) (codes "port") (p.integer c.port)

  abbrev pub written_peers : Dict PeerConfig → Dict toml.Value
  written_peers [] = []
  written_peers ((name, c) ∷ m) = (name, p.table (written_peer c)) ∷ written_peers m

  abbrev pub written_log : LogConfig → Dict toml.Value
  written_log l =
      entry (omit && text_eq l.level default_log_level) (codes "level") (p.string l.level)

  abbrev pub written_sfu : Option SfuConfigToml → Dict toml.Value
  written_sfu none = []
  written_sfu (some s) =
      (
        codes "sfu",
        p.table (
            entry (omit && not s.enabled) (codes "enabled") (p.boolean s.enabled)
            ++ entry (omit && text_eq s.udp_bind default_udp_bind) (codes "udp_bind")
                (p.string s.udp_bind)),
      )
      ∷ []

  -- A field that was left out has its default.
  defaulted-entry :
      {A : Type 0} (read : toml.Value → Option A) (key : Text) (v : toml.Value) (x d : A) (b : Bool)
      → read v ≡ some x
      → (b ≡ true → x ≡ d)
      → defaulted read key (entry b key v) d ≡ some x
  unfolding defaulted lookup
  defaulted-entry read key v x d true e h = ap some (sym (h refl))
  defaulted-entry read key v x d false e h = rw (text_eq_refl key, defaulted) e

  pub omitted_text : (s d : Text) → (omit && text_eq s d) ≡ true → s ≡ d
  omitted_text s d h = ground (arith, text_eq_iff s d)

  omitted_port : (n : ℕ) → (omit && (n == default_port)) ≡ true → n ≡ default_port
  omitted_port n h = ground arith

  pub read_node-written : (n : NodeConfig) → read_node toml (written_node n) ≡ some n
  unfolding read_node required defaulted lookup text_eq
  read_node-written n = rw (
    p.as_string-string n.name,
    p.as_string-string n.wg_ip,
    defaulted-entry toml.as_string (codes "listen") (p.string n.listen) n.listen default_listen _
        (p.as_string-string n.listen) (omitted_text n.listen default_listen),
  )

  pub read_bridge-written : (b : BridgeConfig) → read_bridge toml (written_bridge b) ≡ some b
  unfolding read_bridge required defaulted lookup text_eq
  read_bridge-written b = rw (
    defaulted-entry toml.as_string (codes "socket") (p.string b.socket) b.socket default_socket _
        (p.as_string-string b.socket) (omitted_text b.socket default_socket),
    p.as_string-string b.callback_url,
  )

  read_peer-written : (c : PeerConfig) → c.port < 2 ^ 16 → read_peer toml (written_peer c) ≡ some c
  unfolding read_peer required defaulted lookup text_eq
  read_peer-written c h = rw (
    p.as_string-string c.wg_ip,
    defaulted-entry toml.as_u16 (codes "port") (p.integer c.port) c.port default_port _
        (p.as_u16-integer c.port h) (omitted_port c.port),
  )

  pub read_peers-written :
      (m : Dict PeerConfig)
      → All (λ e. e.1.port < 2 ^ 16) m
      → read_peers toml (written_peers m) ≡ some m
  unfolding read_peers
  read_peers-written [] h = refl
  read_peers-written ((name, c) ∷ m) h =
      rw (p.as_table-table (written_peer c), read_peer-written c h.0, read_peers-written m h.1)

  pub read_log-written : (l : LogConfig) → read_log toml (written_log l) ≡ some l
  unfolding read_log
  read_log-written l = rw (
      defaulted-entry toml.as_string (codes "level") (p.string l.level) l.level default_log_level _
        (p.as_string-string l.level) (omitted_text l.level default_log_level))

  -- The two entries of the section for the SFU, each there or not.
  read_sfu-written :
      (s : SfuConfigToml) (b c : Bool)
      → (b ≡ true → s.enabled ≡ false)
      → (c ≡ true → s.udp_bind ≡ default_udp_bind)
      → read_sfu toml (
          entry b (codes "enabled") (p.boolean s.enabled)
          ++ entry c (codes "udp_bind") (p.string s.udp_bind))
        ≡ some s
  unfolding read_sfu defaulted lookup text_eq
  read_sfu-written s true true hb hc = rw (sym (hb refl), sym (hc refl))
  read_sfu-written s true false hb hc = rw (sym (hb refl), p.as_string-string s.udp_bind)
  read_sfu-written s false true hb hc = rw (p.as_bool-boolean s.enabled, sym (hc refl))
  read_sfu-written s false false hb hc =
      rw (p.as_bool-boolean s.enabled, p.as_string-string s.udp_bind)

  pub sfu_alone :
      (o : Option SfuConfigToml)
      → optional (section toml (read_sfu toml)) (codes "sfu") (written_sfu o) ≡ some o
  unfolding optional lookup text_eq
  sfu_alone none = refl
  sfu_alone (some s) = rw (
    p.as_table-table _,
    read_sfu-written s (omit && not s.enabled) (omit && text_eq s.udp_bind default_udp_bind)
        (λ e. disabled s.enabled e) (omitted_text s.udp_bind default_udp_bind),
  )
    where
      disabled : (b : Bool) → (omit && not b) ≡ true → b ≡ false
      disabled b e = ground arith
