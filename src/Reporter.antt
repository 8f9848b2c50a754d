-- ===== src/Reporter.antt =====
-- reporters/RemoteReporter.h and .cpp: the queue between the threads that report and the thread that
-- sweeps. A step is what one thread does while it holds the mutex, or an atomic operation outside
-- it.
mod Tests
pub mod Others
pub mod Queue
pub mod Sending
pub mod Closing
pub mod Draining
pub mod Delivery
use jaeger_client_cpp.Base.{
  ℕ, zero, suc, ◌+◌, ◌<◌, ◌≡◌, ◌≢◌, Bool, true, false, List, [], ◌∷◌, ◌++◌, map, length, ltb,
  if◌then◌else◌,
}

-- The data members. `increments` and `decrements` count the changes of the atomic `_queueLength`,
-- and `pending` the threads in `report` that have pushed and not incremented yet. `handed` are the
-- spans given to `sendSpan`, `accepted` those that were pushed, and `dropped` the metric.
pub record Reporter (X : Type 0) : Type 0 where
  pub queue : List X
  pub increments : ℕ
  pub decrements : ℕ
  pub pending : ℕ
  pub running : Bool
  pub swept : Bool
  pub accepted : List X
  pub handed : List X
  pub dropped : ℕ

abbrev pub new_reporter : {X : Type 0} → Reporter X
new_reporter = record {
  queue = [];
  increments = 0;
  decrements = 0;
  pending = 0;
  running = true;
  swept = false;
  accepted = [];
  handed = [];
  dropped = 0;
}

-- `report` up to the unlock, with whether the span was pushed.
unfoldable pub report : {X : Type 0} → ℕ → X → Reporter X → Reporter X
report fixed_queue_size span r =
    if ltb (length r.queue) fixed_queue_size
    then record r {
      queue = r.queue ++ span ∷ [];
      accepted = r.accepted ++ span ∷ [];
      pending = r.pending + 1;
    }
    else record r { dropped = r.dropped + 1 }

-- One round of `sweepQueue` when it has waited: it ends, or sends the first span, or has nothing to
-- send and may flush.
unfoldable pub sweep : {X : Type 0} → List X → Reporter X → Reporter X
sweep [] r = if r.running then r else record r { swept = true }
sweep (span ∷ rest) r = record r {
  queue = rest;
  decrements = r.decrements + 1;
  handed = r.handed ++ span ∷ [];
}

-- The steps, in any order; `sweep` steps stop when the thread has ended.
pub data Step {X : Type 0} (fixed_queue_size : ℕ) : Reporter X → Reporter X → Type 0 where
  report_step :
      (r : Reporter X) (span : X) → Step fixed_queue_size r (report fixed_queue_size span r)
  count_step :
      (r : Reporter X) (n : ℕ)
      → r.pending ≡ suc n
      → Step fixed_queue_size r (record r { pending = n; increments = r.increments + 1 })
  sweep_step : (r : Reporter X) → r.swept ≡ false → Step fixed_queue_size r (sweep r.queue r)
  close_step : (r : Reporter X) → Step fixed_queue_size r (record r { running = false })

-- A sequence of steps from the new reporter.
pub data Reached {X : Type 0} (fixed_queue_size : ℕ) : Reporter X → Type 0 where
  fresh : Reached fixed_queue_size new_reporter
  later :
      {r t : Reporter X}
      → Reached fixed_queue_size r
      → Step fixed_queue_size r t
      → Reached fixed_queue_size t
