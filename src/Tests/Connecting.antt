-- ===== src/Tests/Connecting.antt =====
-- The tasks of two connections with one peer (crates/meshd/src/peer/manager.rs).
use nodemesh.Base.{◌≡◌, ◌⊎◌, refl, false, [], ◌∷◌, ◌++◌, some, get_elem?}
use nodemesh.Text.{codes, text_eq}
use nodemesh.Amp.Message.{AmpMessage, new}
use nodemesh.Mesh.Peers.{ok, err, closed, send_to}
use nodemesh.Mesh.Tasks.{
  running, dropped, Task, Net, empty_net, connect, finish, connects, finishes, Reached, start, next,
}
use nodemesh.Mesh.Tasks.Channels.{send_to-Reached}

-- An outbound connection to mko, whose receiver is then dropped.
abbrev net : Net
net = finish (connect empty_net false (codes "mko") (codes "10.0.0.1") 5) 0

abbrev text_for_mko : AmpMessage
text_for_mko = new ((codes "to", codes "stalwart.mko.amp") ∷ []) (codes "hello")

net_reached : Reached net
net_reached = next (next start (connects false (codes "mko") (codes "10.0.0.1") 5)) (finishes 0)

send_to-Reached_example :
    (t : Task) × (get_elem? net.tasks 0 ≡ some t)
    × (t.peer_name ≡ codes "mko")
    × (((t.phase ≡ running)
          × (send_to net.manager (codes "mko") text_for_mko
              ≡ ok (record net.manager { sent = net.manager.sent ++ ((0, text_for_mko) ∷ []) })))
        ⊎ ((t.phase ≡ dropped)
            × (send_to net.manager (codes "mko") text_for_mko ≡ err (closed (codes "mko")))))
unfolding connect finish nodemesh.Mesh.Peers.register nodemesh.Dict.lookup text_eq
send_to-Reached_example = send_to-Reached (codes "mko") text_for_mko net_reached refl refl
