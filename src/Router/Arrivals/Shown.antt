-- ===== src/Router/Arrivals/Shown.antt =====
-- Where the requests of src/runtime/serverless/app.rs stand after some turns, and their pages.
use mathlib.Core.Option.{some-injective}
use serverlessd.Prelude.{
  map, ℕ, ◌≤◌, ◌≡◌, refl, ap, sym, ◌∙◌, Bool, true, false, List, [], ◌∷◌, All, Option, some,
  get_elem?, get_elem?-map, get_elem?_of_map, subst,
}
use serverlessd.Prelude.Text.{Str}
use serverlessd.Pod.{Allocator}
use serverlessd.CodeStore.{RegexCrate, FileSystem}
use serverlessd.App.{Rendered, Call}
use serverlessd.App.Interleaving.{Handler}
use serverlessd.App.Interleaving.Turns.{page_of}
use serverlessd.App.Interleaving.Order.{Renders, page_at-get_elem?}
use serverlessd.Auth.{Crypto, AuthMiddleware}
use serverlessd.Router.{Inbound, Response, answer_of}
use serverlessd.Router.Arrivals.{Stage, handling, ended, arrive}
use serverlessd.Router.Arrivals.Standing.{handler_of, ended_of, waiting_at}
use serverlessd.Router.Arrivals.Door.{Asks, Refuses, Arrives, taken, refused, arrive-Arrives}

module _ (a : Allocator) (rx : RegexCrate) (fs : FileSystem) (crypto : Crypto)
    (resumes : Bool → Option ℕ → Bool)
    (skipped_stops : (status : Option ℕ) → resumes true status ≡ false)
    (error_stops : (skip : Bool) (code : ℕ) → 400 ≤ code → resumes skip (some code) ≡ false)
    (canonical_reason : ℕ → Option Str) (catches : Option ℕ → Bool)
    (errors_caught : (code : ℕ) → 400 ≤ code → catches (some code) ≡ true)
    (auth : AuthMiddleware crypto) where
  abbrev answer : Response a rx fs crypto resumes → Option (Rendered a rx fs)
  answer = answer_of a rx fs crypto resumes canonical_reason catches

  abbrev arrivals : List Inbound → List (Stage a rx fs crypto resumes)
  arrivals = map (arrive a rx fs crypto resumes auth)

  abbrev AsksFor : Inbound → Call → Type 0
  AsksFor =
      Asks a rx fs crypto resumes skipped_stops error_stops canonical_reason catches errors_caught
        auth

  abbrev IsRefused : Inbound → Option (Rendered a rx fs) → Type 0
  IsRefused =
      Refuses a rx fs crypto resumes skipped_stops error_stops canonical_reason catches
        errors_caught auth

  abbrev HasArrived : Inbound → Stage a rx fs crypto resumes → Type 0
  HasArrived =
      Arrives a rx fs crypto resumes skipped_stops error_stops canonical_reason catches
        errors_caught auth

  -- Where a request stands after some turns: with its handler, or refused.
  pub data Stands (inbound : Inbound) : Option (Stage a rx fs crypto resumes) → Type 0 where
    at_handler :
        {h : Handler a rx fs} (call : Call)
        → AsksFor inbound call
        → Stands inbound (some (handling h))
    at_end :
        {response : Response a rx fs crypto resumes}
        → IsRefused inbound (answer response)
        → Stands inbound (some (ended response))

  -- The call of the i-th request has its page, or is going to get it.
  pub record Shown (inbounds : List Inbound) (stages : List (Stage a rx fs crypto resumes)) (i : ℕ)
      (call : Call) (page : Rendered a rx fs) : Type 0 where
    pub inbound : Inbound
    pub handler : Handler a rx fs
    pub sent : get_elem? inbounds i ≡ some inbound
    pub asks : AsksFor inbound call
    pub stands : get_elem? stages i ≡ some (handling handler)
    pub page_same : page_of handler ≡ some page

  abbrev pub Shows :
      List Inbound
      → List (Stage a rx fs crypto resumes)
      → List (ℕ × Call)
      → List (Rendered a rx fs)
      → Type 0
  Shows inbounds stages [] [] = Unit
  Shows inbounds stages [] (page ∷ pages) = ⊥
  Shows inbounds stages ((i, call) ∷ order) [] = ⊥
  Shows inbounds stages ((i, call) ∷ order) (page ∷ pages) =
      Shown inbounds stages i call page × Shows inbounds stages order pages

  -- The i-th request came with the call, and has its handler.
  pub record Came (inbounds : List Inbound) (stages : List (Stage a rx fs crypto resumes)) (i : ℕ)
      (call : Call) : Type 0 where
    pub inbound : Inbound
    pub handler : Handler a rx fs
    pub sent : get_elem? inbounds i ≡ some inbound
    pub asks : AsksFor inbound call
    pub stands : get_elem? stages i ≡ some (handling handler)

  pub Renders-Shows :
      (inbounds : List Inbound) (stages : List (Stage a rx fs crypto resumes))
      (order : List (ℕ × Call)) (pages : List (Rendered a rx fs))
      → All (λ c. Came inbounds stages c.0 c.1) order
      → Renders order pages (map handler_of stages)
      → Shows inbounds stages order pages
  Renders-Shows inbounds stages [] [] came shown = tt
  Renders-Shows inbounds stages [] (page ∷ pages) came shown = shown
  Renders-Shows inbounds stages ((i, call) ∷ order) [] came shown = shown
  Renders-Shows inbounds stages ((i, call) ∷ order) (page ∷ pages) (c, came) (e, shown) = (
    record {
      inbound = c.inbound;
      handler = c.handler;
      sent = c.sent;
      asks = c.asks;
      stands = c.stands;
      page_same =
          sym (
            page_at-get_elem? (map handler_of stages) i c.handler
              (get_elem?-map handler_of stages i (handling c.handler) c.stands))
          ∙ e;
    },
    Renders-Shows inbounds stages order pages came shown,
  )

  -- The handlers stay with their requests, and the responses that no handler made stay.
  after-Arrives :
      (inbound : Inbound) (stage stage' : Stage a rx fs crypto resumes)
      → HasArrived inbound stage
      → ended_of stage' ≡ ended_of stage
      → Stands inbound (some stage')
  after-Arrives inbound stage (handling h) (taken asks) e = at_handler _ asks
  after-Arrives inbound stage (handling h) (refused why) e = absurd (cc)
  after-Arrives inbound stage (ended response) (taken asks) e = absurd (cc)
  after-Arrives inbound stage (ended response) (refused why) e =
      at_end (subst (λ r. IsRefused inbound (answer r)) (some-injective _ response (sym e)) why)

  waiting-Arrives :
      (inbound : Inbound) (call : Call) (stage stage' : Stage a rx fs crypto resumes)
      → HasArrived inbound stage
      → waiting_at stage ≡ some call
      → ended_of stage' ≡ ended_of stage
      → (h : Handler a rx fs) × AsksFor inbound call × (stage' ≡ handling h)
  waiting-Arrives inbound call stage (handling h) (taken asks) e q =
      (h, subst (AsksFor inbound) (some-injective _ call e) asks, refl)
  waiting-Arrives inbound call stage (ended response) (taken asks) e q = absurd (cc)
  waiting-Arrives inbound call stage stage' (refused why) e q = absurd (cc)

  abbrev Stays : List Inbound → List (Stage a rx fs crypto resumes) → Type 0
  Stays inbounds stages = map ended_of stages ≡ map ended_of (arrivals inbounds)

  stage_of :
      (inbounds : List Inbound) (stages : List (Stage a rx fs crypto resumes)) (i : ℕ)
      (inbound : Inbound)
      → Stays inbounds stages
      → get_elem? inbounds i ≡ some inbound
      → (stage : Stage a rx fs crypto resumes) × (get_elem? stages i ≡ some stage)
        × (ended_of stage ≡ ended_of (arrive a rx fs crypto resumes auth inbound))
  stage_of inbounds stages i inbound stays e = get_elem?_of_map ended_of stages i _ (
      ap (λ os. get_elem? os i) stays
      ∙ get_elem?-map ended_of (arrivals inbounds) i _ (get_elem?-map _ inbounds i inbound e))

  pub Stays-Stands :
      (inbounds : List Inbound) (stages : List (Stage a rx fs crypto resumes)) (i : ℕ)
      (inbound : Inbound)
      → Stays inbounds stages
      → get_elem? inbounds i ≡ some inbound
      → Stands inbound (get_elem? stages i)
  Stays-Stands inbounds stages i inbound stays e =
      let (stage, at, q) = stage_of inbounds stages i inbound stays e in
      rw at (
        after-Arrives inbound _ stage
          (arrive-Arrives a rx fs crypto resumes skipped_stops error_stops canonical_reason catches
            errors_caught auth inbound.route inbound.request)
          q)

  pub Stays-Came :
      (inbounds : List Inbound) (stages : List (Stage a rx fs crypto resumes)) (i : ℕ) (call : Call)
      → Stays inbounds stages
      → get_elem? (map waiting_at (arrivals inbounds)) i ≡ some (some call)
      → Came inbounds stages i call
  Stays-Came inbounds stages i call stays e =
      let (arrival, at, waits) = get_elem?_of_map waiting_at (arrivals inbounds) i (some call) e in
      let (inbound, sent, same) =
        get_elem?_of_map (arrive a rx fs crypto resumes auth) inbounds i arrival at in
      let (stage, stands, q) = stage_of inbounds stages i inbound stays sent in
      let (h, asks, handled) =
        waiting-Arrives inbound call _ stage
          (arrive-Arrives a rx fs crypto resumes skipped_stops error_stops canonical_reason catches
            errors_caught auth inbound.route inbound.request)
          (ap waiting_at same ∙ waits) q in
      record {
        inbound = inbound;
        handler = h;
        sent = sent;
        asks = asks;
        stands = stands ∙ ap some handled;
      }
