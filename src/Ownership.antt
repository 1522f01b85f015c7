-- ===== src/Ownership.antt =====
-- Who holds the state of a worker and its isolate: the reference counts of
-- src/runtime/worker/state.rs, as src/runtime/worker/task.rs and src/intrinsics/fetch.rs use them.
pub mod Balance
use serverlessd.Prelude.{
  ℕ, zero, suc, Bool, true, false, List, [], ◌∷◌, Outcome, returns, undefined, hangs, ◌>>=◌,
}

-- The strong count of the state, whether the isolate points to the state, whether the isolate is
-- allocated, how often `drop` ran, and how many spawned tasks have not ended.
pub record Memory : Type 0 where
  pub strong : ℕ
  pub injected : Bool
  pub isolate : Bool
  pub drops : ℕ
  pub tasks : ℕ

-- An `Arc` is cloned by way of a live one.
more_strong : ℕ → Memory → Outcome Memory
more_strong zero m = undefined
more_strong (suc n) m = returns (record m { strong = suc (suc n) })

pub clone_handle : Memory → Outcome Memory
unfolding more_strong
clone_handle m = more_strong m.strong m

less_strong : ℕ → Memory → Outcome Memory
less_strong zero m = undefined
less_strong (suc zero) m = returns (record m { strong = 0; drops = suc m.drops })
less_strong (suc (suc n)) m = returns (record m { strong = suc n })

pub drop_handle : Memory → Outcome Memory
unfolding less_strong
drop_handle m = less_strong m.strong m

-- The fields are made in their order: the isolate has been leaked into a pointer when the monitor
-- refuses. Otherwise there are two handles, one of which goes to the isolate.
pub create_injected : Bool → Memory
create_injected monitored = elim monitored [
  | false ↦ record { strong = 0; injected = false; isolate = true; drops = 0; tasks = 0 }
  | true ↦ record { strong = 2; injected = true; isolate = true; drops = 0; tasks = 0 }
]

-- The count is incremented for the handle that is made from the pointer.
pub get_from_isolate : Memory → Outcome Memory
get_from_isolate m = elim m.injected [ false ↦ undefined | true ↦ clone_handle m ]

-- The handle of the isolate itself: the count stays.
pub open_from_isolate : Memory → Outcome Memory
open_from_isolate m = elim m.injected [ false ↦ undefined | true ↦ returns m ]

pub data Event : Type 0 where
  called_back : Event
  fetched : Event
  task_ended : Event

-- The end of a task that fetch spawned: it enters the isolate, and drops its handle. Where there
-- is no task, none ends.
end_task : ℕ → Memory → Outcome Memory
end_task zero m = returns m
end_task (suc n) m = elim m.isolate [
  | false ↦ undefined
  | true ↦ drop_handle (record m { tasks = n })
]

pub step : Event → Memory → Outcome Memory
unfolding end_task
step called_back m = do m' ← get_from_isolate m; drop_handle m'
step fetched m = do
  m' ← get_from_isolate m
  m'' ← clone_handle m'
  drop_handle (record m'' { tasks = suc m''.tasks })
step task_ended m = end_task m.tasks m

pub steps : List Event → Memory → Outcome Memory
steps [] m = returns m
steps (e ∷ es) m = do m' ← step e m; steps es m'

-- `tasks.wait()` after `tasks.close()` returns once no task is left.
waited : ℕ → Memory → Outcome Memory
waited zero m = returns m
waited (suc n) m = hangs

-- `close_state`, with what happens while it waits. At its end the isolate is freed before the last
-- handle.
pub close_state : List Event → Memory → Outcome Memory
unfolding waited
close_state meanwhile m = do
  m₁ ← open_from_isolate m
  m₂ ← steps meanwhile m₁
  m₃ ← waited m₂.tasks m₂
  m₄ ← drop_handle m₃
  drop_handle (record m₄ { isolate = false })

-- A worker's life: `state_handle` gets a clone, the task runs, its handle is dropped, and the state
-- is closed by way of the clone.
pub worker_life : Bool → List Event → List Event → Outcome Memory
worker_life false events meanwhile = returns (create_injected false)
worker_life true events meanwhile = do
  m₁ ← clone_handle (create_injected true)
  m₂ ← steps events m₁
  m₃ ← drop_handle m₂
  close_state meanwhile m₃
