-- ===== src/Ownership/Balance.antt =====
-- The state of a worker is dropped once, and in time.
use serverlessd.Prelude.{ℕ, zero, suc, ◌+◌, true, false, List, [], ◌∷◌, Outcome, returns, hangs}
use serverlessd.Ownership.{Memory, Event, called_back, fetched, task_ended}

-- The tasks that have not ended after the events.
abbrev pub open_tasks : List Event → ℕ → ℕ
open_tasks [] n = n
open_tasks (called_back ∷ es) n = open_tasks es n
open_tasks (fetched ∷ es) n = open_tasks es (suc n)
open_tasks (task_ended ∷ es) zero = open_tasks es zero
open_tasks (task_ended ∷ es) (suc n) = open_tasks es n

-- While the worker lives, the count is that of the handles: two or more of the worker's own, and
-- one of each task.
abbrev held : ℕ → ℕ → Memory
held more n = record {
  strong = suc (suc (more + n));
  injected = true;
  isolate = true;
  drops = 0;
  tasks = n;
}

-- What is left of a worker: nothing, once its tasks have ended; otherwise its end waits for ever.
abbrev pub ended : ℕ → Outcome Memory
ended zero = returns (record { strong = 0; injected = true; isolate = false; drops = 1; tasks = 0 })
ended (suc n) = hangs
