-- ===== src/Router/Arrivals.antt =====
-- src/runtime/serverless/app.rs: HTTP requests that go through the router and its middleware at once.
pub mod Standing
pub mod Tame
pub mod Shown
pub mod Door
pub mod Crowd
use serverlessd.Prelude.{
  ◌>>=◌, ℕ, Bool, true, false, List, [], ◌∷◌, Option, none, some, get_elem?, set, Outcome, returns,
}
use serverlessd.Pod.{Allocator}
use serverlessd.CodeStore.{RegexCrate, FileSystem}
use serverlessd.Serverless.{Workers, Serverless}
use serverlessd.App.{Call, get_worker_page, post_upload, post_remove}
use serverlessd.App.Interleaving.{Handler, started, take_turn}
use serverlessd.Auth.{Crypto, AuthMiddleware, HttpRequest, Verdict, handle}
use serverlessd.Router.{
  Route, to_worker_page, to_upload, to_remove, to_wildcard, Inbound, Response, stopped, wildcard,
  goes_on,
}

module _ (a : Allocator) (rx : RegexCrate) (fs : FileSystem) (crypto : Crypto)
    (resumes : Bool → Option ℕ → Bool) where
  -- Where a request stands: with the handler of its route, or with a response that no handler made.
  pub data Stage : Type 0 where
    handling : Handler a rx fs → Stage
    ended : Response a rx fs crypto resumes → Stage

  pub let_through : Bool → Outcome Verdict → Call → Stage
  let_through true verdict call = handling (started call)
  let_through false verdict call = ended (stopped verdict)

  pub behind_middleware : AuthMiddleware crypto → HttpRequest → Call → Stage
  unfolding let_through
  behind_middleware auth request call =
      let verdict = handle crypto auth request in
      let_through (goes_on a rx fs crypto resumes verdict) verdict call

  -- A request on its way to the handler: the middleware sends nothing to the runtime's task.
  pub arrive : AuthMiddleware crypto → Inbound → Stage
  unfolding behind_middleware
  arrive auth inbound = elim inbound.route [
    | to_worker_page name reply answer ↦ handling (started (get_worker_page name reply answer))
    | to_upload name ↦
        behind_middleware auth inbound.request (post_upload name inbound.request.payload)
    | to_remove name ↦ behind_middleware auth inbound.request (post_remove name)
    | to_wildcard ↦ ended wildcard
  ]

  pub take_stage : Workers → Stage → Serverless a rx fs → Outcome (Stage × Serverless a rx fs)
  take_stage workers (handling h) s = do
    (h', s') ← take_turn a rx fs workers h s
    returns (handling h', s')
  take_stage workers (ended response) s = returns (ended response, s)

  -- The requests at once, in the order of the turns.
  pub run_stages :
      List (ℕ × Workers)
      → List Stage
      → Serverless a rx fs
      → Outcome (List Stage × Serverless a rx fs)
  run_stages [] stages s = returns (stages, s)
  run_stages ((i, workers) ∷ turns) stages s = elim (get_elem? stages i) [
    | none ↦ run_stages turns stages s
    | some stage ↦
        take_stage workers stage s >>= λ (stage', s'). run_stages turns (set stages i stage') s'
  ]
