-- ===== src/Worker.antt =====
-- src/runtime/worker/task.rs: the life of a worker, from its start to the drop of its state.
pub mod Starting
pub mod Startup
pub mod Environment
pub mod Accounting
pub mod Lifetime
use serverlessd.Prelude.{
  ℕ, zero, suc, ◌+◌, ◌-◌, hangs, Bool, true, false, List, [], ◌∷◌, ◌++◌, Option, none, some,
  Outcome, returns, ◌>>=◌, Result, ok, err,
}
use serverlessd.Prelude.Text.{Str}
use serverlessd.Pod.{ReplyTo}
use serverlessd.Repliers.{
  WorkerState, Pointer, new_state, cleanup_dead_repliers, register, resolve, drop_state,
}
use Starting.{Engine, ExceptionDetails, WorkerError, runtime_error, timeout, initialize}

-- What `fetch.call` gave: nothing, a value that is no promise, or a promise, with what building the
-- function for its `then` came to (the exception's details where it gave nothing; reading them is
-- taken not to panic).
pub data Called : Type 0 where
  threw : Called
  plain_value : Called
  promise : Result (Unit {0}) (Option ExceptionDetails) → Called

-- What goes on beside the loop: a promise that resolves, so that the function of its `then` runs, and
-- a task that `fetch` spawns or that ends.
pub data Happening : Type 0 where
  promise_resolved : Pointer → Str → Happening
  task_spawned : Happening
  task_ended : Happening

-- What the loop meets: a trigger from its channel, or what happens while it waits.
pub data Event : Type 0 where
  http_request : ReplyTo → Called → Event
  halt_request : Event
  happens : Happening → Event

-- The state, the ticks sent so far, the senders that were dropped without an answer, and how many
-- tasks of the state have not ended.
pub record Loop : Type 0 where
  pub state : WorkerState
  pub ticks : ℕ
  pub dropped : List ReplyTo
  pub tasks : ℕ

-- The senders of the triggers that are still in the channel when its receiver is dropped.
abbrev pub queued : List Event → List ReplyTo
queued [] = []
queued (http_request reply called ∷ es) = reply ∷ queued es
queued (halt_request ∷ es) = queued es
queued (happens h ∷ es) = queued es

abbrev drop_sender : ReplyTo → Loop → Loop
drop_sender reply l = record l { dropped = l.dropped ++ reply ∷ [] }

abbrev tick : Loop → Loop
tick l = record l { ticks = suc l.ticks }

pub register_reply : ReplyTo → Loop → Outcome Loop
register_reply reply l = do (p, s) ← register reply l.state; returns (record l { state = s })

-- The branch of `Http`: whether the loop goes on, and from where.
pub serve_http : Bool → ReplyTo → Called → Loop → Outcome (Result (Unit {0}) WorkerError × Loop)
unfolding register_reply
serve_http false reply called l = returns (ok tt, drop_sender reply l)
serve_http true reply threw l = returns (err timeout, drop_sender reply (tick l))
serve_http true reply plain_value l = returns (ok tt, drop_sender reply (tick (tick l)))
serve_http true reply (promise (ok _)) l = do
  l' ← register_reply reply (tick (tick l))
  returns (ok tt, l')
serve_http true reply (promise (err details)) l = do
  l' ← register_reply reply (tick (tick l))
  returns (err (runtime_error details), l')

-- Each received trigger starts with a clean-up of the repliers.
pub cleaned : Loop → Outcome Loop
cleaned l = do s ← cleanup_dead_repliers l.state; returns (record l { state = s })

-- Where there is no task, none ends.
pub happen : Happening → Loop → Outcome Loop
happen (promise_resolved p text) l = do
  s ← resolve p text l.state
  returns (tick (record l { state = s }))
happen task_spawned l = returns (record l { tasks = suc l.tasks })
happen task_ended l = returns (record l { tasks = l.tasks - 1 })

pub happen_all : List Happening → Loop → Outcome Loop
happen_all [] l = returns l
happen_all (h ∷ hs) l = do l' ← happen h l; happen_all hs l'

abbrev close_channel : List Event → Loop → Loop
close_channel es l = record l { dropped = l.dropped ++ queued es }

-- The event loop. The end of the list is the end of the channel.
pub serve_events : Bool → List Event → Loop → Outcome (Result (Unit {0}) WorkerError × Loop)
unfolding cleaned
serve_events has_fetch [] l = returns (ok tt, l)
serve_events has_fetch (happens h ∷ es) l = do l' ← happen h l; serve_events has_fetch es l'
serve_events has_fetch (halt_request ∷ es) l = do
  l' ← cleaned l
  returns (ok tt, close_channel es l')
serve_events has_fetch (http_request reply called ∷ es) l = do
  l' ← cleaned l
  (result, l'') ← serve_http has_fetch reply called l'
  elim result [
    | err e ↦ returns (err e, close_channel es l'')
    | ok _ ↦ serve_events has_fetch es l''
  ]

start_loop : ℕ → ℕ → Loop
start_loop ticks tasks = record { state = new_state; ticks = ticks; dropped = []; tasks = tasks }

-- `tasks.wait()` after `tasks.close()` returns once no task is left.
waited : ℕ → Loop → Outcome Loop
waited zero l = returns l
waited (suc n) l = hangs

-- `close_state`, with what happens while it waits; then the state is dropped.
close_state :
    List Happening
    → Result (Unit {0}) WorkerError × Loop
    → Outcome (Result (Unit {0}) WorkerError × Loop)
unfolding waited
close_state meanwhile (result, l) = do
  l' ← happen_all meanwhile l
  l'' ← waited l'.tasks l'
  s ← drop_state l''.state
  returns (result, record l'' { state = s })

-- The loop, unless the start failed. `spawned` is how many tasks the start left.
after_start :
    ℕ → List Event → Result Bool WorkerError × ℕ → Outcome (Result (Unit {0}) WorkerError × Loop)
unfolding start_loop
after_start spawned es (err e, ticks) = returns (err e, close_channel es (start_loop ticks spawned))
after_start spawned es (ok has_fetch, ticks) = serve_events has_fetch es (start_loop ticks spawned)

-- A worker that the monitor does not take ends at once, with no state.
unfoldable pub create_task :
    Bool → Engine → ℕ → List Event → Outcome (Result (Unit {0}) WorkerError × Loop)
unfolding after_start start_loop
create_task false engine spawned es = returns (ok tt, close_channel es (start_loop 0 0))
create_task true engine spawned es = do
  started ← initialize engine 0
  after_start spawned es started

-- The state is closed if there is one, whatever ended the task.
close_handle :
    Bool
    → List Happening
    → Result (Unit {0}) WorkerError × Loop
    → Outcome (Result (Unit {0}) WorkerError × Loop)
unfolding close_state
close_handle false meanwhile done = returns done
close_handle true meanwhile done = close_state meanwhile done

pub create_cancel_safe_task :
    Engine → ℕ → List Event → List Happening → Outcome (Result (Unit {0}) WorkerError × Loop)
unfolding create_task close_handle
create_cancel_safe_task engine spawned es meanwhile = do
  done ← create_task engine.monitored engine spawned es
  close_handle engine.monitored meanwhile done
