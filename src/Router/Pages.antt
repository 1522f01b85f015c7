-- ===== src/Router/Pages.antt =====
-- What the clients of src/runtime/serverless/app.rs see, with the middleware of app_security.rs.
use serverlessd.Prelude.{
  map, ℕ, ◌≤◌, ◌≡◌, refl, Bool, true, false, List, [], ◌∷◌, All, Option, some, Outcome, returns,
}
use serverlessd.Prelude.Text.{Str, codes}
use serverlessd.Pod.{Allocator, ReplyTo}
use serverlessd.CodeStore.{RegexCrate, FileSystem}
use serverlessd.CodeStore.Names.{WorkerNameRegex, WorkerFiles, IsPlain}
use serverlessd.Serverless.{Workers, Serverless}
use serverlessd.Serverless.Invariant.{IsSound}
use serverlessd.App.{WorkerReply, Rendered, text, Call, get_worker_page, post_upload, post_remove}
use serverlessd.App.Service.{View, view, Serves, IsTame}
use serverlessd.App.Service.Refinement.{answer_call-Refines}
use serverlessd.Auth.{Claims, Crypto, AuthMiddleware, HttpRequest, handle}
use serverlessd.Auth.Gate.{IsAuthentic}
use serverlessd.Router.Refusals.{Refusal, passes, keeps_out, handle-Gated}
use serverlessd.Router.{
  Route, to_worker_page, to_upload, to_remove, to_wildcard, Inbound, Response, rendered, stopped,
  wildcard, run_handler, behind, guarded, route_request, route_requests, answer_of,
}

-- A removal is of a name without a slash.
abbrev pub IsTameRoute : Route → Type 0
IsTameRoute (to_remove name) = IsPlain name
IsTameRoute other = Unit

module _ (a : Allocator) (rx : RegexCrate) (fs : FileSystem) (names : WorkerNameRegex rx)
    (files : WorkerFiles fs) (crypto : Crypto) (resumes : Bool → Option ℕ → Bool)
    (skipped_stops : (status : Option ℕ) → resumes true status ≡ false)
    (error_stops : (skip : Bool) (code : ℕ) → 400 ≤ code → resumes skip (some code) ≡ false)
    (canonical_reason : ℕ → Option Str) (catches : Option ℕ → Bool)
    (errors_caught : (code : ℕ) → 400 ≤ code → catches (some code) ≡ true) where
  abbrev see : Serverless a rx fs → View fs
  see = view a rx fs

  abbrev answer : Response a rx fs crypto resumes → Option (Rendered a rx fs)
  answer = answer_of a rx fs crypto resumes canonical_reason catches

  abbrev IsRefused : AuthMiddleware crypto → HttpRequest → Option (Rendered a rx fs) → Type 0
  IsRefused =
      Refusal a rx fs crypto resumes skipped_stops error_stops canonical_reason catches
        errors_caught

  -- A call behind the middleware: it is served if the request is authentic; otherwise the request is
  -- refused, and nothing changes.
  pub data Guards (auth : AuthMiddleware crypto) (request : HttpRequest) (call : Call)
      (v v' : View fs) : Option (Rendered a rx fs) → Type 0 where
    let_in :
        {page : Rendered a rx fs} (claims : Claims)
        → IsAuthentic crypto auth request claims
        → Serves a rx fs v v' call page
        → Guards auth request call v v' (some page)
    kept_out :
        {page : Option (Rendered a rx fs)}
        → IsRefused auth request page
        → v' ≡ v
        → Guards auth request call v v' page

  abbrev pub Answers :
      AuthMiddleware crypto → Inbound → View fs → View fs → Option (Rendered a rx fs) → Type 0
  Answers auth inbound v v' page = elim inbound.route [
    | to_worker_page name reply result ↦
        (shown : Rendered a rx fs) × (page ≡ some shown)
        × Serves a rx fs v v' (get_worker_page name reply result) shown
    | to_upload name ↦
        Guards auth inbound.request (post_upload name inbound.request.payload) v v' page
    | to_remove name ↦ Guards auth inbound.request (post_remove name) v v' page
    | to_wildcard ↦ (page ≡ some (text (codes "{}"))) × (v' ≡ v)
  ]

  record Routed (o : Outcome (Response a rx fs crypto resumes × Serverless a rx fs))
      (P : View fs → Option (Rendered a rx fs) → Type 0) : Type 0 where
    response : Response a rx fs crypto resumes
    after : Serverless a rx fs
    result : o ≡ returns (response, after)
    sound : IsSound a rx fs names files after
    seen : P (see after) (answer response)

  guarded-Guards :
      (auth : AuthMiddleware crypto) (request : HttpRequest) (workers : Workers) (call : Call)
      (s : Serverless a rx fs)
      → IsSound a rx fs names files s
      → IsTame call
      → Routed
          (guarded a rx fs crypto resumes auth request workers call s)
          (Guards auth request call (see s))
  unfolding guarded behind run_handler answer_of
  guarded-Guards auth request workers call s h tame =
      elim (handle-Gated a rx fs crypto resumes skipped_stops error_stops canonical_reason catches
        errors_caught auth request) [
          | passes claims authentic on ↦
              let r = answer_call-Refines a rx fs names files workers call s h tame in
              record {
                response = rendered r.page;
                after = r.after;
                result = rw on (rw r.result);
                sound = r.sound;
                seen = let_in claims authentic r.serves;
              }
          | keeps_out why off ↦ record {
            response = stopped (handle crypto auth request);
            after = s;
            result = rw off;
            sound = h;
            seen = kept_out why refl;
          }
        ]

  open_page :
      (workers : Workers) (name : Str) (reply : ReplyTo) (result : WorkerReply)
      (s : Serverless a rx fs)
      → IsSound a rx fs names files s
      → Routed
          (run_handler a rx fs crypto resumes workers (get_worker_page name reply result) s)
          (λ v' page.
            (shown : Rendered a rx fs) × (page ≡ some shown)
            × Serves a rx fs (see s) v' (get_worker_page name reply result) shown)
  unfolding run_handler answer_of
  open_page workers name reply result s h =
      let r =
        answer_call-Refines a rx fs names files workers (get_worker_page name reply result) s h
          tt in
      record {
        response = rendered r.page;
        after = r.after;
        result = rw r.result;
        sound = r.sound;
        seen = (r.page, refl, r.serves);
      }

  route_request-Answers :
      (auth : AuthMiddleware crypto) (workers : Workers) (route : Route) (request : HttpRequest)
      (s : Serverless a rx fs)
      → IsSound a rx fs names files s
      → IsTameRoute route
      → Routed
          (route_request a rx fs crypto resumes auth workers
            (record { route = route; request = request })
            s)
          (Answers auth (record { route = route; request = request }) (see s))
  unfolding route_request answer_of
  route_request-Answers auth workers (to_worker_page name reply result) request s h tame =
      open_page workers name reply result s h
  route_request-Answers auth workers (to_upload name) request s h tame =
      guarded-Guards auth request workers (post_upload name request.payload) s h tt
  route_request-Answers auth workers (to_remove name) request s h tame =
      guarded-Guards auth request workers (post_remove name) s h tame
  route_request-Answers auth workers to_wildcard request s h tame = record {
    response = wildcard;
    after = s;
    result = refl;
    sound = h;
    seen = (refl, refl);
  }

  -- Requests one after the other, with what their clients get.
  pub data Exchange (auth : AuthMiddleware crypto)
      : View fs → List Inbound → List (Option (Rendered a rx fs)) → View fs → Type 0 where
    over : {v : View fs} → Exchange auth v [] [] v
    next :
        {v v' w : View fs} {inbound : Inbound} {page : Option (Rendered a rx fs)}
        {inbounds : List Inbound} {pages : List (Option (Rendered a rx fs))}
        → Answers auth inbound v v' page
        → Exchange auth v' inbounds pages w
        → Exchange auth v (inbound ∷ inbounds) (page ∷ pages) w

  -- From a sound runtime, what the clients of any HTTP requests get, one after the other, is what a
  -- service gives that has only sources under names and a number of free places, behind a door: pages
  -- of workers are for all; an upload or a removal is served exactly if its request is authentic, and
  -- otherwise ends in the error page of 401, if no token verifies, or of 400, if the token does not
  -- name the body, or without an answer, if the body cannot be read, and changes nothing. This is
  -- under salvo's rules that a skip or an error status stops the handlers behind, and that the catcher
  -- is asked for the page of an error status; a removal is of a name without a slash.
  pub route_requests-Exchange :
      (auth : AuthMiddleware crypto) (inbounds : List (Inbound × Workers)) (s : Serverless a rx fs)
      → IsSound a rx fs names files s
      → All (λ i. IsTameRoute i.0.route) inbounds
      → (responses : List (Response a rx fs crypto resumes)) × (after : Serverless a rx fs)
        × (route_requests a rx fs crypto resumes auth inbounds s ≡ returns (responses, after))
        × IsSound a rx fs names files after
        × Exchange auth (see s) (map (λ i. i.0) inbounds) (map answer responses) (see after)
  unfolding route_requests
  route_requests-Exchange auth [] s h tame = ([], s, refl, h, over)
  route_requests-Exchange auth ((inbound, workers) ∷ inbounds) s h (first, tame) =
      let one = route_request-Answers auth workers inbound.route inbound.request s h first in
      let (responses, after, e, sound, rest) =
        route_requests-Exchange auth inbounds one.after one.sound tame in
      (one.response ∷ responses, after, rw (one.result, e), sound, next one.seen rest)
