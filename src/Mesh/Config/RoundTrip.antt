-- ===== src/Mesh/Config/RoundTrip.antt =====
-- A configuration that is written down (crates/meshd/src/config.rs), with its defaults or without, is read
-- back.
use nodemesh.Base.{
  ◌≡◌, ◌<◌, ◌^◌, refl, ap, sym, Bool, true, false, ◌&&◌, [], ◌∷◌, ◌++◌, Option, none, some, arith,
  All, is_empty,
}
use nodemesh.Text.{codes, text_eq}
use nodemesh.Dict.{Dict, lookup}
use nodemesh.Mesh.Config.{
  Toml, Config, NodeConfig, BridgeConfig, PeerConfig, LogConfig, SfuConfigToml, default_log_level,
  default_log, required, defaulted, optional, section, read_node, read_bridge, read_peers, read_log,
  read_sfu, read_config,
}
use nodemesh.Mesh.Config.Written.{
  Printer, entry, written_node, written_bridge, written_peers, written_log, written_sfu,
  omitted_text, read_node-written, read_bridge-written, read_peers-written, read_log-written,
  sfu_alone,
}

module _ (toml : Toml) (p : Printer toml) (omit : Bool) where
  -- The configuration, without the entries and sections that say what is the default; those only where
  -- `omit` is set.
  unfoldable pub written : Config → Dict toml.Value
  written c =
      (codes "node", p.table (written_node toml p omit c.node))
        ∷ (codes "bridge", p.table (written_bridge toml p omit c.bridge))
        ∷ entry (omit && is_empty c.peers) (codes "peers")
            (p.table (written_peers toml p omit c.peers))
      ++ entry (omit && text_eq c.log.level default_log_level) (codes "log")
          (p.table (written_log toml p omit c.log))
      ++ written_sfu toml p omit c.sfu

  -- The sections, where those for the peers and the log are there or not.
  abbrev sections :
      Bool
      → Bool
      → NodeConfig
      → BridgeConfig
      → Dict PeerConfig
      → LogConfig
      → Option SfuConfigToml
      → Dict toml.Value
  sections b l node bridge peers log sfu =
      (codes "node", p.table (written_node toml p omit node))
        ∷ (codes "bridge", p.table (written_bridge toml p omit bridge))
        ∷ entry b (codes "peers") (p.table (written_peers toml p omit peers))
      ++ entry l (codes "log") (p.table (written_log toml p omit log))
      ++ written_sfu toml p omit sfu

  module _ (node : NodeConfig) (bridge : BridgeConfig) (peers : Dict PeerConfig)
      (log : LogConfig) where
    node_section :
        (b l : Bool) (sfu : Option SfuConfigToml)
        → required
            (section toml (read_node toml))
            (codes "node")
            (sections b l node bridge peers log sfu)
          ≡ some node
    unfolding required lookup text_eq
    node_section b l sfu =
        rw (p.as_table-table (written_node toml p omit node), read_node-written toml p omit node)

    bridge_section :
        (b l : Bool) (sfu : Option SfuConfigToml)
        → required
            (section toml (read_bridge toml))
            (codes "bridge")
            (sections b l node bridge peers log sfu)
          ≡ some bridge
    unfolding required lookup text_eq
    bridge_section b l sfu = rw (
      p.as_table-table (written_bridge toml p omit bridge),
      read_bridge-written toml p omit bridge,
    )

    peers_section :
        (b l : Bool) (sfu : Option SfuConfigToml)
        → All (λ e. e.1.port < 2 ^ 16) peers
        → (b ≡ true → peers ≡ [])
        → defaulted
            (section toml (read_peers toml))
            (codes "peers")
            (sections b l node bridge peers log sfu)
            []
          ≡ some peers
    unfolding defaulted lookup text_eq
    peers_section true true none h e = ap some (sym (e refl))
    peers_section true false none h e = ap some (sym (e refl))
    peers_section true true (some s) h e = ap some (sym (e refl))
    peers_section true false (some s) h e = ap some (sym (e refl))
    peers_section false l sfu h e =
        rw (
          p.as_table-table (written_peers toml p omit peers),
          read_peers-written toml p omit peers h,
        )

    log_section :
        (b l : Bool) (sfu : Option SfuConfigToml)
        → (l ≡ true → log ≡ default_log)
        → defaulted
            (section toml (read_log toml))
            (codes "log")
            (sections b l node bridge peers log sfu)
            default_log
          ≡ some log
    unfolding defaulted lookup text_eq
    log_section true true none e = ap some (sym (e refl))
    log_section false true none e = ap some (sym (e refl))
    log_section true true (some s) e = ap some (sym (e refl))
    log_section false true (some s) e = ap some (sym (e refl))
    log_section true false sfu e =
        rw (p.as_table-table (written_log toml p omit log), read_log-written toml p omit log)
    log_section false false sfu e =
        rw (p.as_table-table (written_log toml p omit log), read_log-written toml p omit log)

    sfu_section :
        (b l : Bool) (sfu : Option SfuConfigToml)
        → optional
            (section toml (read_sfu toml))
            (codes "sfu")
            (sections b l node bridge peers log sfu)
          ≡ some sfu
    unfolding optional lookup text_eq
    sfu_section true true sfu = sfu_alone toml p omit sfu
    sfu_section true false sfu = sfu_alone toml p omit sfu
    sfu_section false true sfu = sfu_alone toml p omit sfu
    sfu_section false false sfu = sfu_alone toml p omit sfu

  -- A configuration that is written down is read back as it was, whether what is the default is written or
  -- left out. The ports have to be below 2 ^ 16, and the accessors to read what the printer writes.
  pub read_config-written :
      (c : Config) → All (λ e. e.1.port < 2 ^ 16) c.peers → read_config toml (written c) ≡ some c
  unfolding read_config written
  read_config-written c h =
      let b = omit && is_empty c.peers in
      let l = omit && text_eq c.log.level default_log_level in
      rw (
        node_section c.node c.bridge c.peers c.log b l c.sfu,
        bridge_section c.node c.bridge c.peers c.log b l c.sfu,
        peers_section c.node c.bridge c.peers c.log b l c.sfu h (nobody c.peers),
        log_section c.node c.bridge c.peers c.log b l c.sfu (λ e.
            λ i. record { level = omitted_text toml p omit c.log.level default_log_level e i }),
        sfu_section c.node c.bridge c.peers c.log b l c.sfu,
      )
    where
      nobody : (m : Dict PeerConfig) → (omit && is_empty m) ≡ true → m ≡ []
      nobody [] e = refl
      nobody (x ∷ m) e = absurd (ground arith)
