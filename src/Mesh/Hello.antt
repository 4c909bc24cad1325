-- ===== src/Mesh/Hello.antt =====
-- The first message of a connection: `connect_to_peers` writes it, and `handle_inbound` learns from it
-- who has connected (crates/meshd/src/peer/manager.rs).
pub mod Identity
use nodemesh.Base.{Option, none, some, List, [], ◌∷◌, ◌++◌, if◌then◌else◌, and_then}
use nodemesh.Text.{Text, codes, text_eq, strip_suffix}
use nodemesh.Amp.Message.{AmpMessage, command, parse, get, command_name, from_addr}
use nodemesh.Mesh.Connection.{Read, text, close, ended, other_frame, read_error, timed_out}

abbrev pub hello_headers : (node_name wg_ip : Text) → List (Text × Text)
hello_headers node_name wg_ip =
    (codes "amp", codes "1")
    ∷ (codes "type", codes "event")
    ∷ (codes "from", node_name ++ codes ".amp")
    ∷ (codes "command", codes "hello")
    ∷ (codes "args", codes "{\"wg_ip\":\"" ++ (wg_ip ++ codes "\"}"))
    ∷ []

unfoldable pub hello : (node_name wg_ip : Text) → AmpMessage
unfolding command
hello node_name wg_ip = command (hello_headers node_name wg_ip)

-- The name in a hello.
unfoldable pub sender_name : AmpMessage → Option Text
unfolding text_eq get strip_suffix
sender_name msg = and_then (command_name msg) (λ cmd.
    if text_eq cmd (codes "hello")
    then and_then (from_addr msg) (strip_suffix (codes ".amp"))
    else none)

-- A frame of the first phase: the task goes on, ends, or has learnt the name. There is no timeout in
-- this phase, and a read error is passed over.
pub data Outcome : Type 0 where
  waiting : Outcome
  gone : Outcome
  known : Text → Outcome

abbrev pub from_name : Option Text → Outcome
from_name none = waiting
from_name (some name) = known name

unfoldable pub first_frame : Read → Outcome
unfolding parse sender_name
first_frame (text t) = from_name (and_then (parse t) sender_name)
first_frame close = gone
first_frame ended = gone
first_frame other_frame = waiting
first_frame read_error = waiting
first_frame timed_out = waiting

-- The loop goes on with the rest of the frames only while it waits.
abbrev pub after_first : Outcome → Outcome → Outcome
after_first waiting rest = rest
after_first gone rest = gone
after_first (known name) rest = known name

unfoldable pub identify : List Read → Outcome
unfolding first_frame
identify [] = waiting
identify (r ∷ rs) = after_first (first_frame r) (identify rs)
