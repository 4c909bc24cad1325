-- ===== src/Mesh/Backoff.antt =====
-- The delays between the attempts to connect to a peer (`connect_to_peers` in
-- crates/meshd/src/peer/manager.rs), in seconds.
use Prim.Native.Nat.{min}
use native.Mathlib.Nat.{pow-suc}
use nodemesh.Base.{
  ℕ, zero, suc, ◌+◌, ◌*◌, ◌^◌, ◌<◌, ◌≤◌, ◌≡◌, ap, ◌∙◌, Bool, true, false, List, [], ◌∷◌, some,
  arith, if◌then◌else◌, All, subst, get_elem?,
}

abbrev pub initial_backoff : ℕ
initial_backoff = 1

abbrev pub max_backoff : ℕ
max_backoff = 30

-- A connection that was made resets the backoff, when it has ended.
unfoldable pub before_sleep : Bool → ℕ → ℕ
before_sleep connected backoff = if connected then initial_backoff else backoff

-- `(backoff * 2).min(MAX_BACKOFF)`.
unfoldable pub after_sleep : ℕ → ℕ
after_sleep backoff = min (backoff * 2) max_backoff

-- The delays of a loop whose attempts end as listed.
unfoldable pub delays : ℕ → List Bool → List ℕ
unfolding before_sleep after_sleep
delays backoff [] = []
delays backoff (connected ∷ outcomes) =
    let slept = before_sleep connected backoff in slept ∷ delays (after_sleep slept) outcomes

InRange : ℕ → Type 0
InRange d = (initial_backoff ≤ d) × (d ≤ max_backoff)

before_sleep-InRange : (c : Bool) (b : ℕ) → InRange b → InRange (before_sleep c b)
unfolding InRange before_sleep
before_sleep-InRange true b h = (omega arith, omega arith)
before_sleep-InRange false b h = h

after_sleep-InRange : (b : ℕ) → InRange b → InRange (after_sleep b)
unfolding InRange after_sleep
after_sleep-InRange b h = (omega arith, omega arith)

delays-InRange : (b : ℕ) (outcomes : List Bool) → InRange b → All InRange (delays b outcomes)
unfolding delays
delays-InRange b [] h = tt
delays-InRange b (c ∷ outcomes) h =
    let s = before_sleep-InRange c b h in
    (s, delays-InRange (after_sleep (before_sleep c b)) outcomes (after_sleep-InRange _ s))

-- However the attempts end, every delay lies between one second and thirty.
pub delays_bounds :
    (outcomes : List Bool)
    → All (λ d. (initial_backoff ≤ d) × (d ≤ max_backoff)) (delays initial_backoff outcomes)
unfolding InRange
delays_bounds outcomes = delays-InRange initial_backoff outcomes (omega arith, omega arith)

abbrev pub failures : ℕ → List Bool
failures zero = []
failures (suc n) = false ∷ failures n

delays-failures_lem :
    (n i k : ℕ)
    → i < n
    → get_elem? (delays (min (2 ^ k) max_backoff) (failures n)) i
      ≡ some (min (2 ^ (i + k)) max_backoff)
unfolding delays
delays-failures_lem zero i k h = absurd (omega arith)
delays-failures_lem (suc n) zero k h = ap (λ j. some (min (2 ^ j) max_backoff)) (omega arith)
delays-failures_lem (suc n) (suc i) k h =
    subst (λ b. get_elem? (delays b (failures n)) i ≡ some (min (2 ^ (suc i + k)) max_backoff))
      (doubled k)
      (delays-failures_lem n i (suc k) (omega arith)
        ∙ ap (λ j. some (min (2 ^ j) max_backoff)) (omega arith))
  where
    doubled :
        (k : ℕ)
        → min (2 ^ suc k) max_backoff ≡ after_sleep (before_sleep false (min (2 ^ k) max_backoff))
    doubled k = unfold before_sleep after_sleep in omega (arith, pow-suc 2 k)

-- While no attempt succeeds the delays double from one second on until they reach thirty: the one
-- before retry number `i`, counted from zero, is 2 ^ i seconds, or thirty if that is less.
pub delays-failures :
    (n i : ℕ)
    → i < n
    → get_elem? (delays initial_backoff (failures n)) i ≡ some (min (2 ^ i) max_backoff)
delays-failures n i h =
    delays-failures_lem n i 0 h ∙ ap (λ j. some (min (2 ^ j) max_backoff)) (omega arith)
