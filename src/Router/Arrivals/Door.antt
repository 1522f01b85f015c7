-- ===== src/Router/Arrivals/Door.antt =====
-- Which calls the router of src/runtime/serverless/app.rs lets through, and what the other requests
-- get.
use serverlessd.Prelude.{ℕ, ◌≤◌, ◌≡◌, refl, Bool, true, false, Option, some}
use serverlessd.Prelude.Text.{Str, codes}
use serverlessd.Pod.{Allocator}
use serverlessd.CodeStore.{RegexCrate, FileSystem}
use serverlessd.App.{Rendered, text, Call, get_worker_page, post_upload, post_remove}
use serverlessd.App.Interleaving.{started}
use serverlessd.Auth.{Claims, Crypto, AuthMiddleware, HttpRequest}
use serverlessd.Auth.Gate.{IsAuthentic}
use serverlessd.Router.{
  Route, to_worker_page, to_upload, to_remove, to_wildcard, Inbound, Response, answer_of,
}
use serverlessd.Router.Refusals.{Refusal, passes, keeps_out, handle-Gated}
use serverlessd.Router.Arrivals.{Stage, handling, ended, let_through, behind_middleware, arrive}

module _ (a : Allocator) (rx : RegexCrate) (fs : FileSystem) (crypto : Crypto)
    (resumes : Bool → Option ℕ → Bool)
    (skipped_stops : (status : Option ℕ) → resumes true status ≡ false)
    (error_stops : (skip : Bool) (code : ℕ) → 400 ≤ code → resumes skip (some code) ≡ false)
    (canonical_reason : ℕ → Option Str) (catches : Option ℕ → Bool)
    (errors_caught : (code : ℕ) → 400 ≤ code → catches (some code) ≡ true)
    (auth : AuthMiddleware crypto) where
  abbrev answer : Response a rx fs crypto resumes → Option (Rendered a rx fs)
  answer = answer_of a rx fs crypto resumes canonical_reason catches

  abbrev IsRefused : HttpRequest → Option (Rendered a rx fs) → Type 0
  IsRefused =
      Refusal a rx fs crypto resumes skipped_stops error_stops canonical_reason catches
        errors_caught auth

  -- The request may make the call: a page is for all, the others are for authentic requests.
  abbrev pub Asks : Inbound → Call → Type 0
  Asks inbound call = elim inbound.route [
    | to_worker_page name reply result ↦ call ≡ get_worker_page name reply result
    | to_upload name ↦
        (claims : Claims) × IsAuthentic crypto auth inbound.request claims
        × (call ≡ post_upload name inbound.request.payload)
    | to_remove name ↦
        (claims : Claims) × IsAuthentic crypto auth inbound.request claims
        × (call ≡ post_remove name)
    | to_wildcard ↦ ⊥
  ]

  -- What a request gets that no handler answers.
  abbrev pub Refuses : Inbound → Option (Rendered a rx fs) → Type 0
  Refuses inbound page = elim inbound.route [
    | to_worker_page name reply result ↦ ⊥
    | to_upload name ↦ IsRefused inbound.request page
    | to_remove name ↦ IsRefused inbound.request page
    | to_wildcard ↦ page ≡ some (text (codes "{}"))
  ]

  pub data Arrives (inbound : Inbound) : Stage a rx fs crypto resumes → Type 0 where
    taken : {call : Call} → Asks inbound call → Arrives inbound (handling (started call))
    refused :
        {response : Response a rx fs crypto resumes}
        → Refuses inbound (answer response)
        → Arrives inbound (ended response)

  -- Behind the middleware, the route of an upload or a removal.
  behind-Arrives :
      (inbound : Inbound) (call : Call)
      → ((claims : Claims) → IsAuthentic crypto auth inbound.request claims → Asks inbound call)
      → ((page : Option (Rendered a rx fs)) → IsRefused inbound.request page → Refuses inbound page)
      → Arrives inbound (behind_middleware a rx fs crypto resumes auth inbound.request call)
  unfolding behind_middleware let_through
  behind-Arrives inbound call asks refuses =
      elim (handle-Gated a rx fs crypto resumes skipped_stops error_stops canonical_reason catches
        errors_caught auth inbound.request) [
          | passes claims authentic on ↦ rw on (taken (asks claims authentic))
          | keeps_out why off ↦ rw off (refused (refuses _ why))
        ]

  pub arrive-Arrives :
      (route : Route) (request : HttpRequest)
      → Arrives
          (record { route = route; request = request })
          (arrive a rx fs crypto resumes auth (record { route = route; request = request }))
  unfolding arrive answer_of
  arrive-Arrives (to_worker_page name reply result) request = taken refl
  arrive-Arrives (to_upload name) request =
      behind-Arrives _ _ (λ claims authentic. (claims, authentic, refl)) (λ page why. why)
  arrive-Arrives (to_remove name) request =
      behind-Arrives _ _ (λ claims authentic. (claims, authentic, refl)) (λ page why. why)
  arrive-Arrives to_wildcard request = refused refl
