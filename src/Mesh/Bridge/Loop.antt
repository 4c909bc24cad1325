-- ===== src/Mesh/Bridge/Loop.antt =====
-- `bridge_loop` in crates/meshd/src/bridge/ws.rs: the loop over the WebSocket to Laravel. The arms that
-- `select!` takes are a list of turns; a flag says whether the write of an arm succeeds.
use nodemesh.Base.{
  ◌≡◌, refl, ap, Bool, true, false, List, [], ◌∷◌, Option, none, some, All, arith, inl, inr,
  Option-cases, if◌then◌else◌,
}
use nodemesh.Text.{Text}
use nodemesh.Amp.Message.{AmpMessage, parse}
use nodemesh.Mesh.Bridge.{BridgeState, route_outbound, forward_wire}

pub data Frame : Type 0 where
  text : Text → Frame
  close : Frame
  other_frame : Frame
  read_error : Frame
  ended : Frame

pub data Turn : Type 0 where
  inbound : (peer : Text) (msg : AmpMessage) (written : Bool) → Turn
  inbound_closed : Turn
  frame : Frame → Turn

-- The state of the daemon, and what the loop writes from a turn on.
pub record Run : Type 0 where
  pub state : BridgeState
  pub written : List Text
  pub is_over : Bool

abbrev over : BridgeState → Run
over state = record { state = state; written = []; is_over = true }

abbrev write : Text → Run → Run
write wire rest = record rest { written = wire ∷ rest.written }

-- A text of Laravel is routed if it is a message.
abbrev pub on_text : BridgeState → Text → BridgeState
on_text state t = elim (parse t) [ none ↦ state | some msg ↦ route_outbound state msg ]

unfoldable pub bridge_loop : BridgeState → List Turn → Run
unfolding forward_wire parse route_outbound
bridge_loop state [] = record { state = state; written = []; is_over = false }
bridge_loop state (inbound peer msg written ∷ turns) =
    let rest = bridge_loop state turns in
    elim (forward_wire peer msg) [
      | none ↦ rest
      | some wire ↦ if written then write wire rest else over state
    ]
bridge_loop state (inbound_closed ∷ turns) = over state
bridge_loop state (frame (text t) ∷ turns) = bridge_loop (on_text state t) turns
bridge_loop state (frame other_frame ∷ turns) = bridge_loop state turns
bridge_loop state (frame close ∷ turns) = over state
bridge_loop state (frame read_error ∷ turns) = over state
bridge_loop state (frame ended ∷ turns) = over state

-- A turn after which the loop goes on.
abbrev pub GoesOn : Turn → Type 0
GoesOn (inbound peer msg written) = written ≡ true
GoesOn (frame (text t)) = Unit
GoesOn (frame other_frame) = Unit
GoesOn _ = ⊥

abbrev add : Option Text → List Text → List Text
add none ws = ws
add (some w) ws = w ∷ ws

-- What is written for the messages of the peers, whatever Laravel sends.
abbrev pub written_for : List Turn → List Text
written_for [] = []
written_for (inbound peer msg written ∷ turns) = add (forward_wire peer msg) (written_for turns)
written_for (_ ∷ turns) = written_for turns

-- The state after Laravel's texts, whatever the peers send.
abbrev pub routed : BridgeState → List Turn → BridgeState
routed state [] = state
routed state (frame (text t) ∷ turns) = routed (on_text state t) turns
routed state (_ ∷ turns) = routed state turns

-- While nothing ends the loop, its two directions do not disturb each other, however their turns are
-- interleaved: all messages of the peers are written in their order, and all texts of Laravel are
-- routed in theirs.
pub bridge_loop_lem :
    (state : BridgeState) (turns : List Turn)
    → All GoesOn turns
    → ((bridge_loop state turns).is_over ≡ false)
      × ((bridge_loop state turns).written ≡ written_for turns)
      × ((bridge_loop state turns).state ≡ routed state turns)
unfolding bridge_loop
bridge_loop_lem state [] h = (refl, refl, refl)
bridge_loop_lem state (inbound peer msg true ∷ turns) h =
    let (o, w, s) = bridge_loop_lem state turns h.1 in
    elim (Option-cases (forward_wire peer msg)) [
      | inl e ↦ rw (e, bridge_loop) (o, w, s)
      | inr (wire, e) ↦ rw (e, bridge_loop) (o, ap (◌∷◌ wire) w, s)
    ]
bridge_loop_lem state (inbound peer msg false ∷ turns) h = absurd (ground (arith, h.0))
bridge_loop_lem state (inbound_closed ∷ turns) h = absurd h.0
bridge_loop_lem state (frame (text t) ∷ turns) h = bridge_loop_lem (on_text state t) turns h.1
bridge_loop_lem state (frame other_frame ∷ turns) h = bridge_loop_lem state turns h.1
bridge_loop_lem state (frame close ∷ turns) h = absurd h.0
bridge_loop_lem state (frame read_error ∷ turns) h = absurd h.0
bridge_loop_lem state (frame ended ∷ turns) h = absurd h.0
