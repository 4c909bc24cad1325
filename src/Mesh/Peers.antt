-- ===== src/Mesh/Peers.antt =====
-- crates/meshd/src/peer/manager.rs: the table of peers, and sending by it. A sender is the number of
-- its channel; `open` lists the channels whose receiver lives, and `sent` what went into which channel.
-- The table is behind a lock: each function here is what one holder of the lock does.
pub mod Sending
pub mod Table
use nodemesh.Base.{
  ℕ, suc, ◌+◌, Bool, true, false, ◌&&◌, ◌||◌, List, [], ◌∷◌, ◌++◌, Option, none, some, ◌==◌,
  if◌then◌else◌, and_then, is_some, map_option, ◌≡◌, ◌⊎◌, inl, inr, refl,
}
use nodemesh.Text.{Text, codes}
use nodemesh.Dict.{Dict, lookup, insert, update}
use nodemesh.Amp.Address.{AmpAddress}
use nodemesh.Amp.Address
use nodemesh.Amp.Message.{AmpMessage, get, to_addr}

pub record PeerState : Type 0 where
  pub name : Text
  pub wg_ip : Text
  pub connected : Bool
  pub last_seen : Option ℕ
  pub outbound_tx : Option ℕ

pub record PeerManager : Type 0 where
  pub peers : Dict PeerState
  pub next_channel : ℕ
  pub open_channels : List ℕ
  pub sent : List (ℕ × AmpMessage)

abbrev pub new : PeerManager
new = record { peers = []; next_channel = 0; open_channels = []; sent = [] }

abbrev pub connected_peer : Text → Text → ℕ → ℕ → PeerState
connected_peer name ip now channel = record {
  name = name;
  wg_ip = ip;
  connected = true;
  last_seen = some now;
  outbound_tx = some channel;
}

-- A new channel, registered as the peer's sender: by the task that connected to the peer, and by the
-- task of an inbound connection that found no sender.
unfoldable pub register : PeerManager → Text → Text → ℕ → PeerManager
unfolding insert
register m name ip now = record m {
  peers = insert name (connected_peer name ip now m.next_channel) m.peers;
  next_channel = suc m.next_channel;
  open_channels = m.next_channel ∷ m.open_channels;
}

abbrev pub owns_sends : PeerState → Bool
owns_sends s = s.connected && is_some s.outbound_tx

abbrev pub unwrap_false : Option Bool → Bool
unwrap_false none = false
unwrap_false (some b) = b

-- Does another connection own the send channel?
unfoldable pub has_outbound : PeerManager → Text → Bool
unfolding lookup
has_outbound m name = unwrap_false (map_option owns_sends (lookup name m.peers))

-- The read-only inbound connection notes when it saw the peer.
unfoldable pub touch : PeerManager → Text → ℕ → PeerManager
unfolding update
touch m name now = record m { peers = update name (λ s. record s { last_seen = some now }) m.peers }

abbrev pub disconnect : PeerState → PeerState
disconnect s = record s { connected = false; outbound_tx = none }

-- A connection over `channel` has ended: its receiver is dropped, and the peer is marked.
abbrev pub close_channel : ℕ → List ℕ → List ℕ
close_channel channel [] = []
close_channel channel (c ∷ cs) =
    let rest = close_channel channel cs in if c == channel then rest else c ∷ rest

unfoldable pub mark_disconnected : PeerManager → Text → ℕ → PeerManager
unfolding update
mark_disconnected m name channel = record m {
  peers = update name disconnect m.peers;
  open_channels = close_channel channel m.open_channels;
}

pub data SendError : Type 0 where
  closed : Text → SendError
  not_connected : Text → SendError
  unknown_peer : Text → SendError
  no_to_address : SendError
  invalid_address : Text → SendError

pub data Result {ℓ} (A : Type ℓ) : Type ℓ where
  ok : A → Result A
  err : SendError → Result A

abbrev pub is_open : ℕ → List ℕ → Bool
is_open channel [] = false
is_open channel (c ∷ cs) = c == channel || is_open channel cs

-- `tx.send(msg).await`.
unfoldable pub push : PeerManager → ℕ → Text → AmpMessage → Result PeerManager
push m channel name msg =
    if is_open channel m.open_channels
    then ok (record m { sent = m.sent ++ ((channel, msg) ∷ []) })
    else err (closed name)

unfoldable pub send_to : PeerManager → Text → AmpMessage → Result PeerManager
unfolding lookup push
send_to m name msg = elim (lookup name m.peers) [
  | none ↦ err (unknown_peer name)
  | some s ↦ elim s.outbound_tx [
    | none ↦ err (not_connected name)
    | some channel ↦ push m channel name msg
  ]
]

unfoldable pub route : PeerManager → AmpMessage → Result PeerManager
unfolding get Address.parse send_to
route m msg = elim (to_addr msg) [
  | none ↦ err no_to_address
  | some to ↦ elim (Address.parse to) [
    | none ↦ err (invalid_address to)
    | some address ↦ send_to m address.node msg
  ]
]

pub record PeerStatus : Type 0 where
  pub name : Text
  pub wg_ip : Text
  pub connected : Bool
  pub last_seen_secs : Option ℕ

-- `elapsed` gives the seconds since an instant.
unfoldable pub status : (elapsed : ℕ → ℕ) → Dict PeerState → List PeerStatus
status elapsed [] = []
status elapsed ((k, s) ∷ m) =
    record {
      name = s.name;
      wg_ip = s.wg_ip;
      connected = s.connected;
      last_seen_secs = map_option elapsed s.last_seen;
    }
    ∷ status elapsed m

-- To split on a result and keep the equation.
pub Result-cases {ℓ} :
    {A : Type ℓ} (r : Result A) → ((a : A) × (r ≡ ok a)) ⊎ ((e : SendError) × (r ≡ err e))
Result-cases (ok a) = inl (a, refl)
Result-cases (err e) = inr (e, refl)
