-- ===== src/Tests/Silence.antt =====
-- A minute of silence on a connection (crates/meshd/src/peer/connection.rs).
use nodemesh.Base.{ℕ, ◌+◌, ◌*◌, ◌≡◌, refl, arith, false, true}
use nodemesh.Mesh.Connection.{run_connection}
use nodemesh.Mesh.Connection.Timing.{
  Timed, beats, ends, beating, keepalive_interval, run_connection-IsSilent,
}

minute : Timed 0 15 (beating 4) 60
minute = beats {t = 15} true (omega arith) (omega arith) (
    beats {t = 30} true (omega arith) (omega arith) (
      beats {t = 45} true (omega arith) (omega arith)
        (beats {t = 60} true (omega arith) (omega arith) ends)))

run_connection-IsSilent_example :
    ((run_connection (beating 4)).is_over ≡ false)
    × ((n : ℕ) → Timed 0 15 (beating n) (0 + n * keepalive_interval))
run_connection-IsSilent_example = run_connection-IsSilent minute (refl, (refl, (refl, (refl, tt))))
