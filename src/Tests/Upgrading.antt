-- ===== src/Tests/Upgrading.antt =====
-- Requests for the bridge (crates/meshd/src/bridge/server.rs).
use nodemesh.Base.{◌≡◌, refl, arith, true, false, [], ◌∷◌, none, some}
use nodemesh.Mesh.Peers
use nodemesh.Mesh.Upgrade.{Upgrades, requested, bridging, rejected, ended, handle_status}
use nodemesh.Mesh.Upgrade.Race.{run_steps, Stand, upgrade_race}
use nodemesh.Text.{codes}

abbrev two_requests : Upgrades
two_requests = record {
  ws_bridge_connected = false;
  ws_sink = none;
  phases = requested ∷ requested ∷ [];
}

last_sink : (run_steps (0 ∷ 1 ∷ 0 ∷ 1 ∷ 0 ∷ 1 ∷ []) two_requests).ws_sink ≡ some 1
unfolding run_steps
last_sink = refl

status_bridge :
    (handle_status
      (λ t. 9)
      5
      (record { peer_manager = Peers.new; sfu_handle = none; node_name = codes "mko" })
      two_requests).ws_bridge
    ≡ false
unfolding handle_status
status_bridge = refl

upgrade_race_example :
    Stand (run_steps (0 ∷ 0 ∷ 0 ∷ 1 ∷ []) two_requests) 0 1 bridging rejected true
    × Stand (run_steps (0 ∷ 1 ∷ 0 ∷ 1 ∷ 0 ∷ 1 ∷ []) two_requests) 0 1 bridging bridging true
    × Stand (run_steps (0 ∷ 1 ∷ 0 ∷ 1 ∷ 0 ∷ 1 ∷ 0 ∷ []) two_requests) 0 1 ended bridging false
upgrade_race_example =
    upgrade_race two_requests 0 1 (λ e. omega (arith, e))
      (record { first = refl; second = refl; flag = refl })
