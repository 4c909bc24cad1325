-- ===== src/Mesh/Tasks.antt =====
-- The tasks of the connections over the table of peers (`connect_to_peers` and `handle_inbound` of
-- crates/meshd/src/peer/manager.rs), interleaved between any two uses of the lock. Each task that owns
-- its sends has made the channel of its number.
pub mod Owned
pub mod Kept
pub mod Channels
use nodemesh.Base.{
  ℕ, Bool, true, false, List, [], ◌∷◌, ◌++◌, Option, none, some, get_elem?, set, ◌≡◌,
}
use nodemesh.Text.{Text}
use nodemesh.Dict.{update}
use nodemesh.Amp.Message.{AmpMessage}
use nodemesh.Mesh.Peers.{PeerManager, ok, new, register, touch, disconnect, close_channel, send_to}

-- The connection is up, its receiver is dropped, the peer is marked, or both.
pub data Phase : Type 0 where
  running : Phase
  dropped : Phase
  marked : Phase
  over : Phase

pub record Task : Type 0 where
  pub peer_name : Text
  pub inbound : Bool
  pub phase : Phase

pub record Net : Type 0 where
  pub manager : PeerManager
  pub tasks : List Task

-- The receiver of the channel goes.
abbrev pub drop_receiver : PeerManager → ℕ → PeerManager
drop_receiver m channel = record m { open_channels = close_channel channel m.open_channels }

-- `get_mut`: the peer is not connected and has no sender.
abbrev pub mark : PeerManager → Text → PeerManager
mark m name = record m { peers = update name disconnect m.peers }

-- A connection that comes about is registered, by whichever side.
unfoldable pub connect : Net → (inbound : Bool) → (name ip : Text) → (now : ℕ) → Net
connect net inbound name ip now = record {
  manager = register net.manager name ip now;
  tasks = net.tasks ++ (record { peer_name = name; inbound = inbound; phase = running } ∷ []);
}

abbrev dropping : Net → ℕ → Task → Phase → Net
dropping net c t p = record {
  manager = drop_receiver net.manager c;
  tasks = set net.tasks c (record t { phase = p });
}

abbrev marking : Net → ℕ → Task → Phase → Net
marking net c t p = record {
  manager = mark net.manager t.peer_name;
  tasks = set net.tasks c (record t { phase = p });
}

-- The receiver of an outbound connection goes with `run_connection`, before the peer is marked; that of
-- an inbound one at the end of the task.
abbrev advance : Net → ℕ → Task → (inbound : Bool) → Phase → Net
advance net c t false running = dropping net c t dropped
advance net c t false dropped = marking net c t over
advance net c t true running = marking net c t marked
advance net c t true marked = dropping net c t over
advance net c t inbound p = net

-- What the task of a channel does next when its connection has ended.
unfoldable pub finish : Net → (channel : ℕ) → Net
finish net c = elim (get_elem? net.tasks c) [
  | none ↦ net
  | some t ↦ advance net c t t.inbound t.phase
]

pub data NetStep (net : Net) : Net → Type 0 where
  connects :
      (inbound : Bool) (name ip : Text) (now : ℕ) → NetStep net (connect net inbound name ip now)
  finishes : (channel : ℕ) → NetStep net (finish net channel)
  touches :
      (name : Text) (now : ℕ) → NetStep net (record net { manager = touch net.manager name now })
  sends :
      {m : PeerManager} (name : Text) (msg : AmpMessage)
      → send_to net.manager name msg ≡ ok m
      → NetStep net (record net { manager = m })

abbrev pub empty_net : Net
empty_net = record { manager = new; tasks = [] }

pub data Reached : Net → Type 0 where
  start : Reached empty_net
  next : {net net' : Net} → Reached net → NetStep net net' → Reached net'
