-- ===== src/Mesh/Startup/Serving.antt =====
-- What the daemon is after its start (crates/meshd/src/main.rs), and what it does with the commands of its
-- peers.
use nodemesh.Base.{
  ◌≡◌, ◌⊎◌, refl, ap, sym, ◌∙◌, subst, inl, inr, Bool, true, false, ◌&&◌, List, [], ◌∷◌, ◌++◌,
  Option, none, some, arith, if◌then◌else◌, Bool-cases, Option-cases, and_then, unwrap_or, is_some,
  All, is_empty,
}
use nodemesh.Text.{Text, codes, text_eq}
use nodemesh.Dict.{lookup}
use nodemesh.Amp.Message.{AmpMessage, is_empty_message, get}
use nodemesh.Sfu.Relay.{RelayPacket}
use nodemesh.Sfu.Command.{SfuCommand, is_sfu_command, parse_command}
use nodemesh.Mesh.Config.{Toml, Config, SfuConfigToml, load}
use nodemesh.Mesh.Sfu.{SfuHandle, send}
use nodemesh.Mesh.Dispatch.{Dispatcher, dispatch, sfu_command, to_laravel}
use nodemesh.Mesh.Startup.{
  SocketAddr, System, Daemon, panicked, serving, skip_to_option, config_path, candidate,
  detect_local_ip, start, start_sfu, serve, start_up,
}

-- The first option decides, with the argument behind it.
config_path-option :
    (front rest : List Text) (path : Text)
    → All (λ a. text_eq a (codes "--config") ≡ false) front
    → config_path (front ++ (codes "--config" ∷ path ∷ rest)) ≡ path
unfolding config_path skip_to_option text_eq
config_path-option [] rest path h = refl
config_path-option (a ∷ front) rest path h = rw h.0 (config_path-option front rest path h.1)

is_sfu_command-nonempty :
    (msg : AmpMessage) → is_sfu_command msg ≡ true → is_empty_message msg ≡ false
unfolding is_sfu_command get lookup
is_sfu_command-nonempty msg h = go msg.headers msg.body h
  where
    go :
        (hs : List (Text × Text)) (body : Text)
        → is_sfu_command (record { headers = hs; body = body }) ≡ true
        → (is_empty hs && is_empty body) ≡ false
    go [] body h = absurd (ground (arith, h))
    go (x ∷ hs) body h = refl

-- The dispatcher of a start.
abbrev fresh : Option SfuHandle → Dispatcher
fresh o = record {
  sfu_handle = o;
  ws_sink = none;
  ws_connected = false;
  delivered = [];
  posted = [];
}

abbrev idle : SfuHandle
idle = record { running = true; commands = [] }

dispatch-without_sfu :
    (packet_from_str : Text → Option RelayPacket) (peer : Text) (msg : AmpMessage)
    → is_empty_message msg ≡ false
    → dispatch packet_from_str (fresh none) peer msg
      ≡ record (fresh none) { posted = (peer, msg) ∷ [] }
unfolding dispatch sfu_command to_laravel
dispatch-without_sfu packet_from_str peer msg ne = rw ne refl

dispatch-to_sfu :
    (packet_from_str : Text → Option RelayPacket) (peer : Text) (msg : AmpMessage)
    (cmd : SfuCommand)
    → is_empty_message msg ≡ false
    → is_sfu_command msg ≡ true
    → parse_command packet_from_str msg ≡ some cmd
    → dispatch packet_from_str (fresh (some idle)) peer msg
      ≡ fresh (some (record idle { commands = cmd ∷ [] }))
unfolding dispatch sfu_command send
dispatch-to_sfu packet_from_str peer msg cmd ne c p =
    rw ne (rw (c, dispatch) (rw (p, dispatch) refl))

module _ (sys : System) where
  -- The SFU is enabled, its address is one, and it can be bound.
  abbrev pub sfu_runs : Option SfuConfigToml → Bool
  sfu_runs none = false
  sfu_runs (some s) = s.enabled && is_some (and_then (sys.parse_addr s.udp_bind) sys.bind)

  -- The address of an SFU that is enabled is one, and if it is bound to no address in particular, the
  -- address of this machine can be found.
  abbrev pub CanStart : Option SfuConfigToml → Type 0
  CanStart none = Unit
  CanStart (some s) =
      s.enabled ≡ true
      → (addr : SocketAddr sys.Ip) × (sys.parse_addr s.udp_bind ≡ some addr)
        × ((local_addr : SocketAddr sys.Ip)
            → sys.bind addr ≡ some local_addr
            → sys.is_unspecified local_addr.ip ≡ true
            → is_some (detect_local_ip sys) ≡ true)

  -- The command of a peer, and the place where it goes.
  abbrev pub Routes : (Text → Option RelayPacket) → Dispatcher → Bool → Type 0
  Routes packet_from_str d runs =
      (peer : Text) (msg : AmpMessage) (cmd : SfuCommand)
      → is_sfu_command msg ≡ true
      → parse_command packet_from_str msg ≡ some cmd
      → dispatch packet_from_str d peer msg ≡ (
          if runs
          then record d { sfu_handle = some (record { running = true; commands = cmd ∷ [] }) }
          else record d { posted = (peer, msg) ∷ [] })

  -- How the start of the SFU ends, told apart.
  data Outcome (o : Option SfuConfigToml) (sfu : Option (SfuHandle × SocketAddr sys.Ip))
      : Type 0 where
    not_running : sfu ≡ none → sfu_runs o ≡ false → Outcome o sfu
    is_running :
        (addr local_addr : SocketAddr sys.Ip)
        → candidate sys addr ≡ some local_addr
        → sfu ≡ some (record { running = true; commands = [] }, local_addr)
        → sfu_runs o ≡ true
        → Outcome o sfu

  -- It starts, with or without an SFU, or it panics because it cannot.
  abbrev StartsOrPanics : Option SfuConfigToml → Type 0
  StartsOrPanics o =
      (CanStart o
        × (sfu : Option (SfuHandle × SocketAddr sys.Ip)) × (start_sfu sys o ≡ some sfu)
        × Outcome o sfu)
      ⊎ ((start_sfu sys o ≡ none) × (CanStart o → ⊥))

  bound-Starts :
      (s : SfuConfigToml) (addr bound : SocketAddr sys.Ip)
      → s.enabled ≡ true
      → sys.parse_addr s.udp_bind ≡ some addr
      → sys.bind addr ≡ some bound
      → StartsOrPanics (some s)
  unfolding start_sfu start candidate
  bound-Starts s addr bound e p b = elim (Bool-cases (sys.is_unspecified bound.ip)) [
    | inr u ↦ inl (
      λ on. (addr, p, λ other q v. absurd (ground (arith, specified other q v u))),
      some (record { running = true; commands = [] }, bound),
      rw (e, p) (rw (b, start) (rw u refl)),
      is_running bound bound (rw u refl) refl (rw (e, p, b) refl),
    )
    | inl u ↦ elim (Option-cases (detect_local_ip sys)) [
      | inl d ↦ inr (
        rw (e, p) (rw (b, start) (rw u (rw d refl))),
        λ can.
            (let (other, q, found) = can e in
              let same : other ≡ addr = ap (λ o. unwrap_or o addr) (sym q ∙ p) in
              absurd (ground (arith, found bound (ap sys.bind same ∙ b) u, d))),
      )
      | inr (ip, d) ↦ inl (
        λ on. (addr, p, λ other q v. ground (arith, d)),
        some (record { running = true; commands = [] }, record bound { ip = ip }),
        rw (e, p) (rw (b, start) (rw u (rw d refl))),
        is_running bound (record bound { ip = ip }) (rw u (rw d refl)) refl (rw (e, p, b) refl),
      )
    ]
  ]
    where
      specified :
          (other : SocketAddr sys.Ip)
          → sys.bind addr ≡ some other
          → sys.is_unspecified other.ip ≡ true
          → sys.is_unspecified bound.ip ≡ false
          → ⊥
      specified other q v u =
          let same : other ≡ bound = ap (λ o. unwrap_or o bound) (sym q ∙ b) in
          ground (arith, v, u, ap (λ (x : SocketAddr sys.Ip). sys.is_unspecified x.ip) same)

  start_sfu-StartsOrPanics : (o : Option SfuConfigToml) → StartsOrPanics o
  unfolding start_sfu start
  start_sfu-StartsOrPanics none = inl (tt, none, refl, not_running refl refl)
  start_sfu-StartsOrPanics (some s) = elim (Bool-cases s.enabled) [
    | inr e ↦
        inl (λ on. absurd (ground (arith, e, on)), none, rw e refl, not_running refl (rw e refl))
    | inl e ↦ elim (Option-cases (sys.parse_addr s.udp_bind)) [
      | inl p ↦
          inr
            (rw (e, p) refl, λ can. (let (addr, q, found) = can e in absurd (ground (arith, p, q))))
      | inr (addr, p) ↦ elim (Option-cases (sys.bind addr)) [
        | inl b ↦ inl (
          λ on. (addr, p, λ other q v. absurd (ground (arith, b, q))),
          none,
          rw (e, p) (rw (b, start) refl),
          not_running refl (rw (e, p, b) refl),
        )
        | inr (bound, b) ↦ bound-Starts s addr bound e p b
      ]
    ]
  ]

  candidate-specified :
      ((ip : sys.Ip) → detect_local_ip sys ≡ some ip → sys.is_unspecified ip ≡ false)
      → (addr local_addr : SocketAddr sys.Ip) → candidate sys addr ≡ some local_addr
      → sys.is_unspecified local_addr.ip ≡ false
  unfolding candidate
  candidate-specified h addr local_addr e = elim (Bool-cases (sys.is_unspecified addr.ip)) [
    | inr u ↦
        subst (λ (x : SocketAddr sys.Ip). sys.is_unspecified x.ip ≡ false)
          (ap (λ o. unwrap_or o addr) (rw u at e)) u
    | inl u ↦ elim (Option-cases (detect_local_ip sys)) [
      | inl d ↦ absurd (ground (arith, rw d at (rw u at e)))
      | inr (ip, d) ↦
          subst (λ (x : SocketAddr sys.Ip). sys.is_unspecified x.ip ≡ false)
            (ap (λ o. unwrap_or o addr) (rw d at (rw u at e))) (h ip d)
    ]
  ]

module _ (sys : System) (toml : Toml) (packet_from_str : Text → Option RelayPacket) where
  -- What a daemon does that has just started.
  pub record IsServing (c : Config) (d : Daemon sys.Ip) : Type 0 where
    pub has_sfu : is_some d.bridge_state.sfu_handle ≡ sfu_runs sys c.sfu
    pub forwards : is_some d.forwarder ≡ sfu_runs sys c.sfu
    pub reachable :
        (addr : SocketAddr sys.Ip)
        → d.candidate_addr ≡ some addr
        → sys.is_unspecified addr.ip ≡ false
    pub routes : Routes sys packet_from_str d.dispatcher (sfu_runs sys c.sfu)

  serve-IsServing :
      (c : Config) (sfu : Option (SfuHandle × SocketAddr sys.Ip))
      → ((ip : sys.Ip) → detect_local_ip sys ≡ some ip → sys.is_unspecified ip ≡ false)
      → Outcome sys c.sfu sfu
      → IsServing c (serve sys c sfu)
  unfolding serve
  serve-IsServing c sfu h (not_running e r) = record {
    has_sfu = rw (e, r) refl;
    forwards = rw (e, r) refl;
    reachable = λ addr q. absurd (ground (arith, rw e at q));
    routes = λ peer msg cmd k p.
        rw (e, r) (dispatch-without_sfu packet_from_str peer msg (is_sfu_command-nonempty msg k));
  }
  serve-IsServing c sfu h (is_running bound local_addr found e r) = record {
    has_sfu = rw (e, r) refl;
    forwards = rw (e, r) refl;
    reachable = λ addr q.
        subst (λ (x : SocketAddr sys.Ip). sys.is_unspecified x.ip ≡ false)
          (ap (λ o. unwrap_or o local_addr) (rw e at q))
          (candidate-specified sys h bound local_addr found);
    routes = λ peer msg cmd k p.
        rw (e, r)
          (dispatch-to_sfu packet_from_str peer msg cmd (is_sfu_command-nonempty msg k) k p);
  }

  -- The daemon that is started with `--config` and a path, where a configuration can be read, serves if
  -- its SFU is not enabled, or the address of the SFU is an address and, where the socket is bound to an
  -- unspecified one, the local address can be detected; else it panics. If it serves, its SFU runs
  -- exactly if it is enabled and its socket can be bound: then the bridge knows of it and its events are
  -- forwarded. Its candidates have a specified address, where a local one that is detected is. A command
  -- for the SFU from a peer is the first in the channel of an SFU that runs; without one, even where it
  -- failed to start, the command is posted to Laravel's callback.
  pub start_up_lem :
      (front rest : List Text) (path : Text) (c : Config)
      → All (λ a. text_eq a (codes "--config") ≡ false) front
      → load toml (sys.read_to_string path) ≡ some c
      → ((ip : sys.Ip) → detect_local_ip sys ≡ some ip → sys.is_unspecified ip ≡ false)
      → ((d : Daemon sys.Ip) × (start_up sys toml (front ++ (codes "--config" ∷ path ∷ rest))
            ≡ serving d)
          × CanStart sys c.sfu
          × IsServing c d)
        ⊎ ((start_up sys toml (front ++ (codes "--config" ∷ path ∷ rest)) ≡ panicked)
            × (CanStart sys c.sfu → ⊥))
  unfolding start_up
  start_up_lem front rest path c h l local =
      let at_path = config_path-option front rest path h in
      elim (start_sfu-StartsOrPanics sys c.sfu) [
        | inr (e, cannot) ↦
            inr (rw (at_path, start_up) (rw (l, start_up) (rw (e, start_up) refl)), cannot)
        | inl (can, sfu, e, outcome) ↦ inl (
          serve sys c sfu,
          rw (at_path, start_up) (rw (l, start_up) (rw (e, start_up) refl)),
          can,
          serve-IsServing c sfu local outcome,
        )
      ]
