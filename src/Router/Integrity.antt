-- ===== src/Router/Integrity.antt =====
-- Whose requests can change a worker's source through the router of
-- src/runtime/serverless/app.rs.
use serverlessd.Prelude.{
  ℕ, suc, ◌≤◌, ◌≡◌, refl, ap, sym, ◌∙◌, ◌⊎◌, inl, inr, Bool, true, false, List, [], ◌∷◌, All,
  Option, some, length, Outcome, returns, panics, undefined, hangs,
}
use serverlessd.Prelude.Text.{Str}
use serverlessd.Pod.{Allocator}
use serverlessd.CodeStore.{RegexCrate, FileSystem, get_worker_code}
use serverlessd.CodeStore.Names.{WorkerNameRegex, WorkerFiles, IsPlain}
use serverlessd.Serverless.{Workers, Serverless}
use serverlessd.Serverless.Invariant.{IsSound}
use serverlessd.App.{Call, get_worker_page, post_upload, post_remove}
use serverlessd.App.Exhaustion.{answer_call-Answered}
use serverlessd.App.Sources.{IsCallForOther, source-answer_call}
use serverlessd.Auth.{Claims, Crypto, AuthMiddleware, HttpRequest, Verdict, handle}
use serverlessd.Auth.Gate.{IsAuthentic, reaches, reaches-IsAuthentic}
use serverlessd.Router.{
  Route, to_worker_page, to_upload, to_remove, to_wildcard, Inbound, Response, rendered, stopped,
  wildcard, goes_on, run_handler, behind, guarded, route_request, route_requests,
}

module _ (crypto : Crypto) where
  -- No token that verifies and names the body comes with the request.
  abbrev pub IsUnsigned : AuthMiddleware crypto → HttpRequest → Type 0
  IsUnsigned auth request = (claims : Claims) → ¬ IsAuthentic crypto auth request claims

  -- A request to change a source is for another worker's, or is not authentic.
  abbrev pub Spares : AuthMiddleware crypto → Str → Route → HttpRequest → Type 0
  Spares auth name (to_worker_page other reply answer) request = Unit
  Spares auth name (to_upload other) request =
      IsUnsigned auth request ⊎ IsCallForOther name (post_upload other request.payload)
  Spares auth name (to_remove other) request =
      IsUnsigned auth request ⊎ IsCallForOther name (post_remove other)
  Spares auth name to_wildcard request = Unit

module _ (a : Allocator) (rx : RegexCrate) (fs : FileSystem) (names : WorkerNameRegex rx)
    (files : WorkerFiles fs) (crypto : Crypto) (resumes : Bool → Option ℕ → Bool)
    (skipped_stops : (status : Option ℕ) → resumes true status ≡ false)
    (error_stops : (skip : Bool) (code : ℕ) → 400 ≤ code → resumes skip (some code) ≡ false) where
  abbrev source : Str → Serverless a rx fs → Option Str
  source name s = (get_worker_code rx fs name s.code_store).0

  goes_on-reaches :
      (verdict : Outcome Verdict)
      → goes_on a rx fs crypto resumes verdict
        ≡ reaches crypto resumes skipped_stops error_stops verdict
  unfolding goes_on
  goes_on-reaches (returns v) = refl
  goes_on-reaches panics = refl
  goes_on-reaches undefined = refl
  goes_on-reaches hangs = refl

  -- A step that leaves the runtime sound and the name's source as it was.
  record Kept (name : Str) (s : Serverless a rx fs)
      (o : Outcome (Response a rx fs crypto resumes × Serverless a rx fs)) : Type 0 where
    response : Response a rx fs crypto resumes
    after : Serverless a rx fs
    result : o ≡ returns (response, after)
    sound : IsSound a rx fs names files after
    same : source name after ≡ source name s

  run_handler-Kept :
      (workers : Workers) (name : Str) (call : Call) (s : Serverless a rx fs)
      → IsSound a rx fs names files s
      → IsPlain name
      → IsCallForOther name call
      → Kept name s (run_handler a rx fs crypto resumes workers call s)
  unfolding run_handler
  run_handler-Kept workers name call s h p other =
      let d = answer_call-Answered a rx fs names files workers call s h in
      record {
        response = rendered d.page;
        after = d.after;
        result = rw d.result;
        sound = d.grows.sound;
        same =
            source-answer_call a rx fs names files workers name call s d.after d.page h.cached p
              other d.result;
      }

  behind-Kept :
      (on : Bool) (verdict : Outcome Verdict) (workers : Workers) (name : Str) (call : Call)
      (s : Serverless a rx fs)
      → IsSound a rx fs names files s
      → IsPlain name
      → (on ≡ true → IsCallForOther name call)
      → Kept name s (behind a rx fs crypto resumes on verdict workers call s)
  unfolding behind
  behind-Kept true verdict workers name call s h p other =
      run_handler-Kept workers name call s h p (other refl)
  behind-Kept false verdict workers name call s h p other = record {
    response = stopped verdict;
    after = s;
    result = refl;
    sound = h;
    same = refl;
  }

  -- Past the middleware, an unsigned request is a contradiction.
  guarded-Kept :
      (auth : AuthMiddleware crypto) (request : HttpRequest) (workers : Workers) (name : Str)
      (call : Call) (s : Serverless a rx fs)
      → IsSound a rx fs names files s
      → IsPlain name
      → IsUnsigned crypto auth request ⊎ IsCallForOther name call
      → Kept name s (guarded a rx fs crypto resumes auth request workers call s)
  unfolding guarded
  guarded-Kept auth request workers name call s h p (inr other) =
      let verdict = handle crypto auth request in
      behind-Kept (goes_on a rx fs crypto resumes verdict) verdict workers name call s h p
        (λ on. other)
  guarded-Kept auth request workers name call s h p (inl unsigned) =
      let verdict = handle crypto auth request in
      behind-Kept (goes_on a rx fs crypto resumes verdict) verdict workers name call s h p (λ on.
        let (claims, authentic) =
          reaches-IsAuthentic crypto resumes skipped_stops error_stops auth request
            (sym (goes_on-reaches verdict) ∙ on) in
        absurd (unsigned claims authentic))

  route_request-Kept :
      (auth : AuthMiddleware crypto) (workers : Workers) (name : Str) (route : Route)
      (request : HttpRequest) (s : Serverless a rx fs)
      → IsSound a rx fs names files s
      → IsPlain name
      → Spares crypto auth name route request
      → Kept name s (
          route_request a rx fs crypto resumes auth workers
            (record { route = route; request = request })
            s)
  unfolding route_request
  route_request-Kept auth workers name (to_worker_page other reply answer) request s h p spared =
      run_handler-Kept workers name (get_worker_page other reply answer) s h p tt
  route_request-Kept auth workers name (to_upload other) request s h p spared =
      guarded-Kept auth request workers name (post_upload other request.payload) s h p spared
  route_request-Kept auth workers name (to_remove other) request s h p spared =
      guarded-Kept auth request workers name (post_remove other) s h p spared
  route_request-Kept auth workers name to_wildcard request s h p spared = record {
    response = wildcard;
    after = s;
    result = refl;
    sound = h;
    same = refl;
  }

  -- From a sound runtime, any sequence of HTTP requests is answered one for one without a panic or
  -- a hang of the runtime, and leaves it sound. If each upload and each removal among them either
  -- carries no token that verifies and names its body, or is for another name (for a removal, a name
  -- without a slash), then the source of `name`, a name without a slash, is at the end what it was.
  -- This is under salvo's rule that a skip or an error status stops the handlers behind.
  pub route_requests_keep :
      (auth : AuthMiddleware crypto) (name : Str) (inbounds : List (Inbound × Workers))
      (s : Serverless a rx fs)
      → IsSound a rx fs names files s
      → IsPlain name
      → All (λ i. Spares crypto auth name i.0.route i.0.request) inbounds
      → (responses : List (Response a rx fs crypto resumes)) × (after : Serverless a rx fs)
        × (route_requests a rx fs crypto resumes auth inbounds s ≡ returns (responses, after))
        × (length responses ≡ length inbounds)
        × IsSound a rx fs names files after
        × ((get_worker_code rx fs name after.code_store).0
            ≡ (get_worker_code rx fs name s.code_store).0)
  unfolding route_requests
  route_requests_keep auth name [] s h p spared = ([], s, refl, refl, h, refl)
  route_requests_keep auth name ((inbound, workers) ∷ inbounds) s h p (first, spared) =
      let d = route_request-Kept auth workers name inbound.route inbound.request s h p first in
      let (responses, after, e, each, sound, same) =
        route_requests_keep auth name inbounds d.after d.sound p spared in
      (d.response ∷ responses, after, rw (d.result, e), ap suc each, sound, same ∙ d.same)
