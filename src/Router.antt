-- ===== src/Router.antt =====
-- The router of src/runtime/serverless/app.rs: which handlers stand behind the middleware, and the
-- page of an error.
pub mod Integrity
pub mod Refusals
pub mod Pages
pub mod Arrivals
use serverlessd.Prelude.{
  Bool, true, false, List, [], ◌∷◌, Option, none, some, Outcome, returns, ◌>>=◌, ℕ, ◌||◌,
  if◌then◌else◌,
}
use serverlessd.Prelude.Text.{Str, codes}
use serverlessd.Pod.{Allocator, ReplyTo}
use serverlessd.CodeStore.{RegexCrate, FileSystem}
use serverlessd.Serverless.{Workers, Serverless}
use serverlessd.App.{
  WorkerReply, Rendered, text, errored, Call, get_worker_page, post_upload, post_remove,
  answer_call,
}
use serverlessd.Auth.{Crypto, AuthMiddleware, HttpRequest, Verdict, handle}

-- The route that a request takes, with its name.
pub data Route : Type 0 where
  to_worker_page : Str → ReplyTo → WorkerReply → Route
  to_upload : Str → Route
  to_remove : Str → Route
  to_wildcard : Route

pub record Inbound : Type 0 where
  pub route : Route
  pub request : HttpRequest

module _ (a : Allocator) (rx : RegexCrate) (fs : FileSystem) (crypto : Crypto)
    (resumes : Bool → Option ℕ → Bool) where
  -- What came of a request: a handler's page, what the middleware did in place of it, or the
  -- wildcard's answer.
  pub data Response : Type 0 where
    rendered : Rendered a rx fs → Response
    stopped : Outcome Verdict → Response
    wildcard : Response

  -- Whether the framework runs the handler behind the middleware; it has not where that panics.
  pub goes_on : Outcome Verdict → Bool
  goes_on (returns v) = v.called_next || resumes v.skip_rest v.status
  goes_on _ = false

  run_handler : Workers → Call → Serverless a rx fs → Outcome (Response × Serverless a rx fs)
  run_handler workers call s = do
    (page, s') ← answer_call a rx fs workers call s
    returns (rendered page, s')

  behind :
      Bool
      → Outcome Verdict
      → Workers
      → Call
      → Serverless a rx fs
      → Outcome (Response × Serverless a rx fs)
  unfolding run_handler
  behind true verdict workers call s = run_handler workers call s
  behind false verdict workers call s = returns (stopped verdict, s)

  guarded :
      AuthMiddleware crypto
      → HttpRequest
      → Workers
      → Call
      → Serverless a rx fs
      → Outcome (Response × Serverless a rx fs)
  unfolding behind
  guarded auth request workers call s =
      let verdict = handle crypto auth request in behind (goes_on verdict) verdict workers call s

  pub route_request :
      AuthMiddleware crypto
      → Workers
      → Inbound
      → Serverless a rx fs
      → Outcome (Response × Serverless a rx fs)
  unfolding guarded
  route_request auth workers inbound s = elim inbound.route [
    | to_worker_page name reply answer ↦ run_handler workers (get_worker_page name reply answer) s
    | to_upload name ↦
        guarded auth inbound.request workers (post_upload name inbound.request.payload) s
    | to_remove name ↦ guarded auth inbound.request workers (post_remove name) s
    | to_wildcard ↦ returns (wildcard, s)
  ]

  pub route_requests :
      AuthMiddleware crypto
      → List (Inbound × Workers)
      → Serverless a rx fs
      → Outcome (List Response × Serverless a rx fs)
  route_requests auth [] s = returns ([], s)
  route_requests auth ((inbound, workers) ∷ inbounds) s = do
    (response, s') ← route_request auth workers inbound s
    (responses, s'') ← route_requests auth inbounds s'
    returns (response ∷ responses, s'')

  -- `canonical_reason` is that of the http crate, and `catches` says for which statuses the
  -- framework asks the catcher for a page.
  module _ (canonical_reason : ℕ → Option Str) (catches : Option ℕ → Bool) where
    pub status_or : Option ℕ → ℕ
    status_or none = 500
    status_or (some code) = code

    pub reason_or : Option Str → Str
    reason_or none = codes "unknown"
    reason_or (some reason) = reason

    pub handle_error : Option ℕ → Rendered a rx fs
    unfolding status_or reason_or
    handle_error status = errored (reason_or (canonical_reason (status_or status)))

    -- What the client gets, if anything.
    pub answer_of : Response → Option (Rendered a rx fs)
    unfolding handle_error
    answer_of (rendered page) = some page
    answer_of (stopped (returns v)) =
        if catches v.status then some (handle_error v.status) else none
    answer_of (stopped other) = none
    answer_of wildcard = some (text (codes "{}"))
