-- ===== src/App.antt =====
-- src/runtime/serverless/app.rs: the handlers of the HTTP application, with the calls of the
-- runtime's handle (src/runtime/serverless/handle.rs) that they make.
pub mod Growth
pub mod Exhaustion
pub mod Sources
pub mod Interleaving
pub mod Closing
pub mod Service
use serverlessd.Prelude.{[], ◌>>=◌, ℕ, List, ◌∷◌, Option, none, some, Outcome, returns}
use serverlessd.Prelude.Text.{Str, codes}
use serverlessd.Pod.{Allocator, ReplyTo}
use serverlessd.CodeStore.{RegexCrate, FileSystem, Bytes, CodeStoreError}
use serverlessd.Serverless.{
  Workers, create_worker_request, upload_worker_request, remove_worker_request, send_http_request,
  request_trigger, Serverless, ServerlessReply, worker_created, upload_error, unanswered, serve,
}

-- What comes of the oneshot that a worker is sent: a text, the drop of its sender, or nothing, ever: a
-- promise of the worker may stay pending, or reject, which no function of the worker takes.
pub data WorkerReply : Type 0 where
  replied : Str → WorkerReply
  dropped : WorkerReply
  silent : WorkerReply

module _ (a : Allocator) (rx : RegexCrate) (fs : FileSystem) where
  -- What a handler renders: a text, `errored` of a message or of an error's message, or that all
  -- is well. Where it is `awaiting`, the handler waits for a worker's reply that never comes: it has
  -- sent its triggers, and renders nothing.
  pub data Rendered : Type 0 where
    text : Str → Rendered
    errored : Str → Rendered
    errored_with : CodeStoreError rx fs → Rendered
    all_ok : Rendered
    awaiting : Rendered

  -- What `ServerlessHandle::create_worker` makes of the reply.
  unfoldable pub created : ServerlessReply a rx fs → Option (ℕ × ℕ)
  created (worker_created place) = place
  created (upload_error e) = none
  created unanswered = none

  unfoldable pub uploaded : ServerlessReply a rx fs → Option (CodeStoreError rx fs)
  uploaded (worker_created place) = none
  uploaded (upload_error e) = e
  uploaded unanswered = none

  -- The end of `worker`, after the await of the oneshot (`send_http_to_worker`).
  pub executed : WorkerReply → Rendered
  executed dropped = errored (codes "failed to execute worker")
  executed (replied result) = text result
  executed silent = awaiting

  send_http :
      Workers
      → ReplyTo
      → WorkerReply
      → Option (ℕ × ℕ)
      → Serverless a rx fs
      → Outcome (Rendered × Serverless a rx fs)
  unfolding executed
  send_http workers reply answer none s = returns (errored (codes "failed to create worker"), s)
  send_http workers reply answer (some (pod, wrk)) s = do
    (_, s') ← serve a rx fs workers (request_trigger (send_http_request pod wrk reply)) s
    returns (executed answer, s')

  -- `worker`. `answer` is what comes of the oneshot.
  worker :
      Workers
      → Str
      → ReplyTo
      → WorkerReply
      → Serverless a rx fs
      → Outcome (Rendered × Serverless a rx fs)
  unfolding send_http created
  worker workers name reply answer s = do
    (place, s') ← serve a rx fs workers (request_trigger (create_worker_request name)) s
    send_http workers reply answer (created place) s'

  upload_result : Option (CodeStoreError rx fs) → Rendered
  upload_result (some e) = errored_with e
  upload_result none = all_ok

  -- The body is read before anything else, and may fail to be.
  api_upload_worker :
      Workers → Str → Option Bytes → Serverless a rx fs → Outcome (Rendered × Serverless a rx fs)
  unfolding upload_result uploaded
  api_upload_worker workers name none s = returns (errored (codes "failed to parse body"), s)
  api_upload_worker workers name (some body) s = do
    (reply, s') ← serve a rx fs workers (request_trigger (upload_worker_request name body)) s
    returns (upload_result (uploaded reply), s')

  api_remove_worker : Workers → Str → Serverless a rx fs → Outcome (Rendered × Serverless a rx fs)
  api_remove_worker workers name s = do
    (_, s') ← serve a rx fs workers (request_trigger (remove_worker_request name)) s
    returns (all_ok, s')

-- A request as the router hands it to its handler. The middleware comes before the last two.
pub data Call : Type 0 where
  get_worker_page : Str → ReplyTo → WorkerReply → Call
  post_upload : Str → Option Bytes → Call
  post_remove : Str → Call

module _ (a : Allocator) (rx : RegexCrate) (fs : FileSystem) where
  pub answer_call :
      Workers → Call → Serverless a rx fs → Outcome (Rendered a rx fs × Serverless a rx fs)
  unfolding worker api_upload_worker api_remove_worker
  answer_call workers (get_worker_page name reply answer) s =
      worker a rx fs workers name reply answer s
  answer_call workers (post_upload name body) s = api_upload_worker a rx fs workers name body s
  answer_call workers (post_remove name) s = api_remove_worker a rx fs workers name s

  -- Calls one after the other.
  pub answer_calls :
      List (Call × Workers)
      → Serverless a rx fs
      → Outcome (List (Rendered a rx fs) × Serverless a rx fs)
  answer_calls [] s = returns ([], s)
  answer_calls ((call, workers) ∷ calls) s = do
    (page, s') ← answer_call workers call s
    (pages, s'') ← answer_calls calls s'
    returns (page ∷ pages, s'')
