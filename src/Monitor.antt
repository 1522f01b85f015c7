-- ===== src/Monitor.antt =====
-- src/runtime/worker/monitor.rs: the watch over one worker's running time.
pub mod Budget
pub mod Watchers
use serverlessd.Prelude.{
  zero, suc, length, ◌++◌, Option, none, some, ℕ, ◌+◌, ◌/◌, Bool, true, false, not, List, [], ◌∷◌,
  ltb, if◌then◌else◌,
}

-- A `Duration`, in nanoseconds.
abbrev pub Nanos : Type 0
Nanos = ℕ

abbrev pub second : Nanos
second = 1_000_000_000

-- `as_secs` rounds down.
abbrev pub as_secs : Nanos → ℕ
as_secs d = d / second

-- How the `select!` of a round ended: a tick after so long, the end of the channel after so long,
-- or 100 ms without either.
pub data Wake : Type 0 where
  ticked : Nanos → Wake
  ended : Nanos → Wake
  slept : Wake

-- Why the loop was left.
pub data Reason : Type 0 where
  disconnected : Reason
  out_of_budget : Reason
  task_timeout : Reason

-- The loop of `monitor_worker_task`, from the time elapsed so far. Each element of the list is a
-- round whose first `recv` got a tick; where the list ends, that `recv` finds the channel closed.
pub watch : List Wake → Nanos → Reason × Nanos
watch [] elapsed = (disconnected, elapsed)
watch (w ∷ ws) elapsed = elim (ltb 10 (as_secs elapsed)) [
  | true ↦ (out_of_budget, elapsed)
  | false ↦ elim w [
    | ticked d ↦ watch ws (elapsed + d)
    | ended d ↦ (disconnected, elapsed + d)
    | slept ↦ (task_timeout, elapsed)
  ]
]

-- The same loop step by step, as one of many that one thread runs.
pub data Phase : Type 0 where
  waiting : Nanos → Phase
  timing_since : Nanos → Phase
  finished : Reason → Nanos → Phase

-- What happens to one watcher: a tick or the end of its channel, with the time since the start of
-- the measurement that is on, or 100 ms of such a measurement.
pub data Signal : Type 0 where
  tick_after : Nanos → Signal
  end_after : Nanos → Signal
  timer : Signal

first_tick : Nanos → Phase
first_tick elapsed =
    if ltb 10 (as_secs elapsed) then finished out_of_budget elapsed else timing_since elapsed

pub advance : Signal → Phase → Phase
unfolding first_tick
advance (tick_after d) (waiting elapsed) = first_tick elapsed
advance (end_after d) (waiting elapsed) = finished disconnected elapsed
advance timer (waiting elapsed) = waiting elapsed
advance (tick_after d) (timing_since elapsed) = waiting (elapsed + d)
advance (end_after d) (timing_since elapsed) = finished disconnected (elapsed + d)
advance timer (timing_since elapsed) = finished task_timeout elapsed
advance signal (finished reason elapsed) = finished reason elapsed

-- An isolate and the channel of a worker, by number.
pub record MonitoredWorker : Type 0 where
  pub isolate : ℕ
  pub worker_tx : ℕ
  pub phase : Phase

-- The workers that the monitor was ever asked to watch; a `Monitoring` is the place of one.
abbrev pub Monitor : Type 0
Monitor = List MonitoredWorker

pub data MonitorTrigger : Type 0 where
  spawn_request : ℕ → ℕ → MonitorTrigger

pub spawn : ℕ → ℕ → Monitor → ℕ × Monitor
spawn isolate worker_tx m =
    (length m, m ++ record { isolate = isolate; worker_tx = worker_tx; phase = waiting 0 } ∷ [])

-- `start_monitoring`: a request, and the reply that the task of the monitor sends, if it runs.
pub start_monitoring : Bool → ℕ → ℕ → Monitor → Option ℕ × Monitor
start_monitoring false isolate worker_tx m = (none, m)
start_monitoring true isolate worker_tx m =
    let (monitoring, m') = spawn isolate worker_tx m in (some monitoring, m')

-- What the monitor's thread runs next: its own task, at a trigger, or a watcher, at a signal.
pub data Turn : Type 0 where
  trigger : MonitorTrigger → Turn
  signal_to : ℕ → Signal → Turn

signal_at : ℕ → Signal → Monitor → Monitor
signal_at i signal [] = []
signal_at zero signal (w ∷ ws) = record w { phase = advance signal w.phase } ∷ ws
signal_at (suc i) signal (w ∷ ws) = w ∷ signal_at i signal ws

pub turn : Turn → Monitor → Monitor
unfolding signal_at spawn
turn (trigger (spawn_request isolate worker_tx)) m = (spawn isolate worker_tx m).1
turn (signal_to i signal) m = signal_at i signal m

pub monitor_thread : List Turn → Monitor → Monitor
monitor_thread [] m = m
monitor_thread (t ∷ ts) m = monitor_thread ts (turn t m)

-- What the task does to its worker.
pub data Action : Type 0 where
  terminate_execution : Action
  send_halt : Action

-- Whatever ended the loop, the isolate is terminated, and then the worker is told to halt.
pub monitor_worker_task : List Wake → (Reason × Nanos) × List Action
monitor_worker_task ws = (watch ws 0, terminate_execution ∷ send_halt ∷ [])

-- The tick channel, of capacity one, and whether the monitor is inside a `select!`.
pub record Channel : Type 0 where
  pub queued : Bool
  pub timing : Bool

pub data Move : Type 0 where
  tick : Move
  take : Move

-- `tick` is a `try_send` whose failure is ignored. `take` is a `recv` of the monitor: by turns the
-- one that starts a measurement, and the one that ends it.
unfoldable pub move : Channel → Move → Channel
move c tick = record c { queued = true }
move c take = if c.queued then record { queued = false; timing = not c.timing } else c

unfoldable pub moves : Channel → List Move → Channel
unfolding move
moves c [] = c
moves c (m ∷ ms) = moves (move c m) ms

-- `MonitoredFuture::poll` ticks before and after the inner poll; `during` are the moves made
-- meanwhile.
pub poll : List Move → Channel → Channel
unfolding moves
poll during c = move (moves (move c tick) during) tick
