-- ===== src/Mesh/Connection/Timing.antt =====
-- When the arms of a connection's loop are taken (`run_connection` in crates/meshd/src/peer/connection.rs,
-- and the bidirectional loop of `handle_inbound` in peer/manager.rs), in seconds.
use nodemesh.Base.{
  ℕ, zero, suc, ◌+◌, ◌*◌, ◌≡◌, ◌≢◌, ◌≤◌, refl, subst, Bool, true, false, List, [], ◌∷◌, arith, All,
}
use nodemesh.Amp.Message.{AmpMessage}
use nodemesh.Mesh.Connection.{
  Read, timed_out, Arm, outbound, keepalive, inbound, connection_turn, run_connection,
}

abbrev pub keepalive_interval : ℕ
keepalive_interval = 15

abbrev pub read_timeout : ℕ
read_timeout = 45

-- A run of the loop, from the time at which a round begins to that at which the last one has ended;
-- `tick` is when the interval is ready next. Every round waits for its arms anew: so a read times out
-- only when it has been waited for `read_timeout` in one round, and the interval was not ready before.
-- When the interval's arm is taken, it is ready next one period after it was.
pub data Timed : (begun tick : ℕ) → List Arm → (ended : ℕ) → Type 0 where
  ends : {begun tick : ℕ} → Timed begun tick [] begun
  sends :
      {begun tick t ended : ℕ} {arms : List Arm} (msg : AmpMessage) (written : Bool)
      → begun ≤ t
      → Timed t tick arms ended
      → Timed begun tick (outbound msg written ∷ arms) ended
  beats :
      {begun tick t ended : ℕ} {arms : List Arm} (written : Bool)
      → begun ≤ t
      → tick ≤ t
      → Timed t (tick + keepalive_interval) arms ended
      → Timed begun tick (keepalive written ∷ arms) ended
  reads :
      {begun tick t ended : ℕ} {arms : List Arm} (r : Read) (channel_open : Bool)
      → r ≢ timed_out
      → begun ≤ t
      → Timed t tick arms ended
      → Timed begun tick (inbound r channel_open ∷ arms) ended
  expires :
      {begun tick t ended : ℕ} {arms : List Arm} (channel_open : Bool)
      → begun + read_timeout ≤ tick
      → begun + read_timeout ≤ t
      → Timed t tick arms ended
      → Timed begun tick (inbound timed_out channel_open ∷ arms) ended

-- Writes succeed, and nothing comes from the peer.
abbrev pub IsSilent : Arm → Type 0
IsSilent (outbound msg written) = written ≡ true
IsSilent (keepalive written) = written ≡ true
IsSilent (inbound r channel_open) = r ≡ timed_out

silent-goes_on :
    {begun tick ended : ℕ} {arms : List Arm}
    → tick ≤ begun + keepalive_interval
    → Timed begun tick arms ended
    → All IsSilent arms
    → (run_connection arms).is_over ≡ false
unfolding run_connection connection_turn
silent-goes_on l ends s = refl
silent-goes_on l (sends msg written b r) s = rw s.0 (silent-goes_on (omega arith) r s.1)
silent-goes_on l (beats written b k r) s = rw s.0 (silent-goes_on (omega arith) r s.1)
silent-goes_on l (reads read channel_open ne b r) s = absurd (ne s.0)
silent-goes_on l (expires channel_open e b r) s = absurd (omega arith)

abbrev pub beating : ℕ → List Arm
beating zero = []
beating (suc n) = keepalive true ∷ beating n

beating-Timed :
    (n begun : ℕ)
    → Timed begun (begun + keepalive_interval) (beating n) (begun + n * keepalive_interval)
beating-Timed zero begun = subst (Timed begun (begun + keepalive_interval) []) (omega arith) ends
beating-Timed (suc n) begun =
    beats {t = begun + keepalive_interval} true (omega arith) (omega arith) (
      subst
        (Timed (begun + keepalive_interval) (begun + keepalive_interval + keepalive_interval)
          (beating n))
        (omega arith) (beating-Timed n (begun + keepalive_interval)))

-- A peer that is silent is never taken for dead. While nothing comes from the peer and the writes succeed,
-- the loop goes on: no read times out, since the interval for keepalives is ready in every round before
-- the timeout is, and each round waits anew. There are such runs of any length, one of fifteen seconds
-- for each keepalive.
pub run_connection-IsSilent :
    {start ended : ℕ} {arms : List Arm}
    → Timed start (start + keepalive_interval) arms ended
    → All IsSilent arms
    → ((run_connection arms).is_over ≡ false)
      × ((n : ℕ)
          → Timed start (start + keepalive_interval) (beating n) (start + n * keepalive_interval))
run_connection-IsSilent {start} r s = (silent-goes_on (omega arith) r s, λ n. beating-Timed n start)
