-- ===== src/App/Closing.antt =====
-- src/runtime/serverless/handle.rs where the runtime's task has ended: what its methods give when
-- the channel or the reply is gone, and what the handlers of app.rs that still run make of it.
pub mod Late
use serverlessd.Prelude.{
  ◌>>=◌, ℕ, Bool, true, false, List, [], ◌∷◌, Option, none, some, get_elem?, set, Outcome, returns,
}
use serverlessd.Prelude.Text.{Str, codes}
use serverlessd.Pod.{Allocator}
use serverlessd.CodeStore.{RegexCrate, FileSystem, CodeStoreError}
use serverlessd.Serverless.{Workers, Serverless, ServerlessReply, ctrl_c, run}
use serverlessd.App.{
  WorkerReply, dropped, errored, all_ok, get_worker_page, post_upload, post_remove, created,
  uploaded, executed, upload_result,
}
use serverlessd.App.Interleaving.{Handler, started, placed, rendered, take_turn, placed_in}

module _ (a : Allocator) (rx : RegexCrate) (fs : FileSystem) where
  -- What comes of a trigger: the channel is closed, its reply's sender is dropped without use, or
  -- it is served.
  pub data Sent : Type 0 where
    unsent : Sent
    unserved : Sent
    served : ServerlessReply a rx fs → Sent

  -- `ServerlessHandle::create_worker`.
  handle_create_worker : Sent → Option (ℕ × ℕ)
  unfolding created
  handle_create_worker unsent = none
  handle_create_worker unserved = none
  handle_create_worker (served reply) = created a rx fs reply

  -- `ServerlessHandle::upload_worker`: the error, if there is one.
  handle_upload_worker : Sent → Option (CodeStoreError rx fs)
  unfolding uploaded
  handle_upload_worker unsent = none
  handle_upload_worker unserved = none
  handle_upload_worker (served reply) = uploaded a rx fs reply

  -- `ServerlessHandle::send_http_to_worker`, whose reply comes from the worker.
  handle_send_http : WorkerReply → Sent → WorkerReply
  handle_send_http answer unsent = dropped
  handle_send_http answer unserved = dropped
  handle_send_http answer (served reply) = answer

  -- The trigger of a handler that the task does not serve any more: it is still in the channel when
  -- the receiver is dropped, or comes later.
  lost : Bool → Sent
  lost true = unserved
  lost false = unsent

  -- A handler's turn after the end of the task. What `remove_worker` gives is not looked at.
  pub late_turn : Bool → Handler a rx fs → Handler a rx fs
  unfolding placed_in executed upload_result handle_create_worker handle_upload_worker
      handle_send_http lost
  late_turn queued (started (get_worker_page name reply answer)) =
      placed_in a rx fs reply answer (handle_create_worker (lost queued))
  late_turn queued (started (post_upload name none)) =
      rendered (errored (codes "failed to parse body"))
  late_turn queued (started (post_upload name (some body))) =
      rendered (upload_result a rx fs (handle_upload_worker (lost queued)))
  late_turn queued (started (post_remove name)) = rendered all_ok
  late_turn queued (placed pod wrk reply answer) =
      rendered (executed a rx fs (handle_send_http answer (lost queued)))
  late_turn queued (rendered page) = rendered page

  -- The task, or what it left behind.
  pub data Task : Type 0 where
    serving : Serverless a rx fs → Task
    ended : Serverless a rx fs → Task

  pub turn : Workers → Bool → Handler a rx fs → Task → Outcome (Handler a rx fs × Task)
  turn workers queued h (serving s) = do
    (h', s') ← take_turn a rx fs workers h s
    returns (h', serving s')
  turn workers queued h (ended s) = returns (late_turn queued h, ended s)

  -- Ctrl-c; what comes after the task's end does not reach it.
  pub interrupt : Workers → Task → Outcome Task
  interrupt workers (serving s) = do
    exit ← run a rx fs ((ctrl_c, workers) ∷ []) s
    returns (ended exit.final)
  interrupt workers (ended s) = returns (ended s)

-- A handler's turn, or ctrl-c.
pub data Happening : Type 0 where
  turn_of : ℕ → Workers → Happening
  interrupted : Workers → Happening

module _ (a : Allocator) (rx : RegexCrate) (fs : FileSystem) (queued : ℕ → Bool) where
  -- The handlers at once, beside the task. `queued` says whose last trigger was still in the channel
  -- at the end.
  pub run_session :
      List Happening
      → List (Handler a rx fs)
      → Task a rx fs
      → Outcome (List (Handler a rx fs) × Task a rx fs)
  run_session [] hs task = returns (hs, task)
  run_session (turn_of i workers ∷ rest) hs task = elim (get_elem? hs i) [
    | none ↦ run_session rest hs task
    | some h ↦ turn a rx fs workers (queued i) h task >>= λ (h', task').
        run_session rest (set hs i h') task'
  ]
  run_session (interrupted workers ∷ rest) hs task = do
    task' ← interrupt a rx fs workers task
    run_session rest hs task'
