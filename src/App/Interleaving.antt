-- ===== src/App/Interleaving.antt =====
-- src/runtime/serverless/app.rs: requests that are served at once. A handler gives way whenever it
-- sends a trigger to the runtime's task; the task takes the triggers in the order of the turns.
pub mod Turns
pub mod Order
pub mod Serial
pub mod Progress
pub mod Rush
pub mod Once
pub mod Asking
pub mod Single
use serverlessd.Prelude.{
  ◌>>=◌, ℕ, List, [], ◌∷◌, Option, none, some, get_elem?, set, Outcome, returns,
}
use serverlessd.Prelude.Text.{Str, codes}
use serverlessd.Pod.{Allocator, ReplyTo}
use serverlessd.CodeStore.{RegexCrate, FileSystem}
use serverlessd.Serverless.{
  Workers, create_worker_request, upload_worker_request, remove_worker_request, send_http_request,
  request_trigger, Serverless, serve,
}
use serverlessd.App.{
  WorkerReply, Rendered, text, errored, all_ok, Call, get_worker_page, post_upload, post_remove,
  created, uploaded, executed, upload_result,
}

module _ (a : Allocator) (rx : RegexCrate) (fs : FileSystem) where
  -- Where a handler stands: before its first trigger, between the two of a worker page, or after its
  -- last, with its page or `awaiting` it for ever.
  pub data Handler : Type 0 where
    started : Call → Handler
    placed : ℕ → ℕ → ReplyTo → WorkerReply → Handler
    rendered : Rendered a rx fs → Handler

  -- What a page's handler makes of the place.
  unfoldable pub placed_in : ReplyTo → WorkerReply → Option (ℕ × ℕ) → Handler
  placed_in reply answer none = rendered (errored (codes "failed to create worker"))
  placed_in reply answer (some (pod, wrk)) = placed pod wrk reply answer

  -- One turn of a handler: the next trigger that it sends, and what it does with the reply. The turn
  -- that sends a request to a worker has the await of the worker's reply in it, which touches nothing of
  -- the runtime; where no reply ever comes, the handler is left with nothing rendered.
  pub take_turn : Workers → Handler → Serverless a rx fs → Outcome (Handler × Serverless a rx fs)
  unfolding placed_in
  take_turn workers (started (get_worker_page name reply answer)) s = do
    (place, s') ← serve a rx fs workers (request_trigger (create_worker_request name)) s
    returns (placed_in reply answer (created a rx fs place), s')
  take_turn workers (started (post_upload name none)) s =
      returns (rendered (errored (codes "failed to parse body")), s)
  take_turn workers (started (post_upload name (some body))) s = do
    (reply, s') ← serve a rx fs workers (request_trigger (upload_worker_request name body)) s
    returns (rendered (upload_result a rx fs (uploaded a rx fs reply)), s')
  take_turn workers (started (post_remove name)) s = do
    (_, s') ← serve a rx fs workers (request_trigger (remove_worker_request name)) s
    returns (rendered all_ok, s')
  take_turn workers (placed pod wrk reply answer) s = do
    (_, s') ← serve a rx fs workers (request_trigger (send_http_request pod wrk reply)) s
    returns (rendered (executed a rx fs answer), s')
  take_turn workers (rendered page) s = returns (rendered page, s)

  -- The handlers at once, in the order of the turns; a turn of no handler is empty.
  unfoldable pub run_handlers :
      List (ℕ × Workers)
      → List Handler
      → Serverless a rx fs
      → Outcome (List Handler × Serverless a rx fs)
  run_handlers [] hs s = returns (hs, s)
  run_handlers ((i, workers) ∷ turns) hs s = elim (get_elem? hs i) [
    | none ↦ run_handlers turns hs s
    | some h ↦ take_turn workers h s >>= λ (h', s'). run_handlers turns (set hs i h') s'
  ]
