-- ===== src/Mesh/Connection.antt =====
-- The loops over a WebSocket connection to a peer: `run_connection` in
-- crates/meshd/src/peer/connection.rs, and the two loops of `handle_inbound` in peer/manager.rs. The
-- arms that `select!` takes, with what the transport answers, are a list of turns.
pub mod Delivery
pub mod Timing
use nodemesh.Base.{Bool, true, false, List, [], ◌∷◌, ◌++◌, Option, none, some, if◌then◌else◌}
use nodemesh.Text.{Text}
use nodemesh.Amp.Message.{AmpMessage, empty, parse, to_wire, is_empty_message}

-- What `timeout(READ_TIMEOUT, ws_read.next())` gives.
pub data Read : Type 0 where
  text : Text → Read
  close : Read
  other_frame : Read
  read_error : Read
  ended : Read
  timed_out : Read

-- An arm: a message to write, a keepalive, or a read. The flags say whether the write succeeds and
-- whether the channel to the dispatcher is open.
pub data Arm : Type 0 where
  outbound : AmpMessage → Bool → Arm
  keepalive : Bool → Arm
  inbound : Read → Bool → Arm

-- What one turn does, and whether it breaks out of the loop.
pub data Turn : Type 0 where
  stop : Turn
  pass : Turn
  wrote : Text → Turn
  forwarded : AmpMessage → Turn

unfoldable pub on_text : Text → Bool → Turn
unfolding parse
on_text t channel_open = elim (parse t) [
  | none ↦ pass
  | some msg ↦ if is_empty_message msg then pass else if channel_open then forwarded msg else stop
]

-- The `match result` of the reads, the same in the three loops.
unfoldable pub on_read : Read → Bool → Turn
unfolding on_text
on_read (text t) channel_open = on_text t channel_open
on_read other_frame channel_open = pass
on_read close channel_open = stop
on_read read_error channel_open = stop
on_read ended channel_open = stop
on_read timed_out channel_open = stop

-- `run_connection`, and the bidirectional loop of `handle_inbound`.
unfoldable pub connection_turn : Arm → Turn
unfolding to_wire on_read
connection_turn (outbound msg written) = if written then wrote (to_wire msg) else stop
connection_turn (keepalive written) = if written then wrote (to_wire empty) else stop
connection_turn (inbound r channel_open) = on_read r channel_open

-- The read-only loop has no other arm than the read.
unfoldable pub read_only_turn : Read → Bool → Turn
unfolding on_read
read_only_turn r channel_open = on_read r channel_open

-- What a loop wrote and forwarded, in order, and whether it has ended.
pub record Log : Type 0 where
  pub written : List Text
  pub passed_on : List AmpMessage
  pub is_over : Bool

abbrev note : Turn → Log → Log
note stop rest = record { written = []; passed_on = []; is_over = true }
note pass rest = rest
note (wrote t) rest = record rest { written = t ∷ rest.written }
note (forwarded msg) rest = record rest { passed_on = msg ∷ rest.passed_on }

unfoldable pub run_connection : List Arm → Log
unfolding connection_turn
run_connection [] = record { written = []; passed_on = []; is_over = false }
run_connection (arm ∷ arms) = note (connection_turn arm) (run_connection arms)

unfoldable pub read_only_loop : List (Read × Bool) → Log
unfolding read_only_turn
read_only_loop [] = record { written = []; passed_on = []; is_over = false }
read_only_loop ((r, channel_open) ∷ reads) =
    note (read_only_turn r channel_open) (read_only_loop reads)
