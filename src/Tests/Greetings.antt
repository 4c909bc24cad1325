-- ===== src/Tests/Greetings.antt =====
-- Messages that the daemon itself writes: hellos and the SFU's events (crates/meshd/src).
use nodemesh.Base.{◌≡◌, refl, arith, List, [], ◌∷◌, ◌++◌, Option, none}
use nodemesh.Text.{Text, codes, text_eq}
use nodemesh.Text.Trim.{trim}
use nodemesh.Amp.Message.{to_wire}
use nodemesh.Amp.Message.Written.{IsName}
use nodemesh.Sfu.Relay.{RelayPacket}
use nodemesh.Sfu.Command.{request_relay}
use nodemesh.Mesh.Peers.{register}
use nodemesh.Mesh.Peers
use nodemesh.Mesh.Connection.{Read, text, other_frame}
use nodemesh.Mesh.Hello.{hello, known, identify}
use nodemesh.Mesh.Hello.Identity.{identify-hello}
use nodemesh.Mesh.Events.{Forwarder, relay_message, forward_event}

abbrev mko : Text
mko = codes "mko"

abbrev mmc : Text
mmc = codes "mmc"

mko-IsName : IsName mko
unfolding trim
mko-IsName = (refl, omega arith)

hello_wire :
    to_wire (hello mko (codes "10.0.0.1"))
    ≡ codes
        "---\namp: 1\ntype: event\nfrom: mko.amp\ncommand: hello\nargs: {\"wg_ip\":\"10.0.0.1\"}\n---\n"
unfolding to_wire hello text_eq
hello_wire = refl

abbrev frames : List Read
frames = other_frame ∷ []

identify-hello_example :
    identify (frames ++ (text (to_wire (hello mko (codes "10.0.0.1"))) ∷ [])) ≡ known mko
unfolding identify
identify-hello_example =
    identify-hello mko (codes "10.0.0.1") frames [] mko-IsName (omega arith) (refl, tt)

abbrev forwarder : Forwarder
forwarder = record {
  peer_manager = register Peers.new mmc (codes "10.0.0.2") 5;
  posted = [];
  node_name = mko;
}

abbrev no_packet : Text → Option RelayPacket
no_packet s = none

abbrev no_text : RelayPacket → Text
no_text p = []

forward_request :
    (forward_event no_text forwarder (request_relay mmc (codes "lobby"))).peer_manager.sent
    ≡ (0, relay_message (codes "relay-subscribe") mko mmc (codes "lobby")) ∷ []
unfolding forward_event register text_eq
forward_request = refl
