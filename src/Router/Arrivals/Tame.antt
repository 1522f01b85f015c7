-- ===== src/Router/Arrivals/Tame.antt =====
-- Which requests of src/runtime/serverless/app.rs ask for a call that the service takes: a removal
-- only of a name without a slash.
use serverlessd.Prelude.{map, ℕ, Bool, true, false, List, [], ◌∷◌, All, Option, some}
use serverlessd.Pod.{Allocator}
use serverlessd.CodeStore.{RegexCrate, FileSystem}
use serverlessd.App.{Call, post_upload, post_remove}
use serverlessd.App.Service.Linear.{IsTameIf}
use serverlessd.Auth.{Crypto, AuthMiddleware, HttpRequest, handle}
use serverlessd.Router.{Route, to_worker_page, to_upload, to_remove, to_wildcard, Inbound}
use serverlessd.Router.Pages.{IsTameRoute}
use serverlessd.Router.Arrivals.{let_through, behind_middleware, arrive}
use serverlessd.Router.Arrivals.Standing.{waiting_at}

module _ (a : Allocator) (rx : RegexCrate) (fs : FileSystem) (crypto : Crypto)
    (resumes : Bool → Option ℕ → Bool) (auth : AuthMiddleware crypto) where
  let_through-IsTameIf :
      (on : Bool) (request : HttpRequest) (call : Call)
      → IsTameIf (some call)
      → IsTameIf
          (waiting_at (let_through a rx fs crypto resumes on (handle crypto auth request) call))
  unfolding let_through
  let_through-IsTameIf true request call tame = tame
  let_through-IsTameIf false request call tame = tt

  arrive-IsTameIf :
      (route : Route) (request : HttpRequest)
      → IsTameRoute route
      → IsTameIf (
          waiting_at
            (arrive a rx fs crypto resumes auth (record { route = route; request = request })))
  unfolding arrive behind_middleware
  arrive-IsTameIf (to_worker_page name reply result) request tame = tt
  arrive-IsTameIf (to_upload name) request tame =
      let_through-IsTameIf _ request (post_upload name request.payload) tt
  arrive-IsTameIf (to_remove name) request tame =
      let_through-IsTameIf _ request (post_remove name) tame
  arrive-IsTameIf to_wildcard request tame = tt

  pub arrivals-IsTameIf :
      (inbounds : List Inbound)
      → All (λ i. IsTameRoute i.route) inbounds
      → All IsTameIf (map waiting_at (map (arrive a rx fs crypto resumes auth) inbounds))
  arrivals-IsTameIf [] tame = tt
  arrivals-IsTameIf (inbound ∷ inbounds) (first, tame) =
      (arrive-IsTameIf inbound.route inbound.request first, arrivals-IsTameIf inbounds tame)
