-- ===== src/Router/Arrivals/Crowd.antt =====
-- Requests that go through the router of src/runtime/serverless/app.rs at once, as one session of the
-- abstract service behind its door.
use mathlib.Core.List.{Perm}
use serverlessd.Prelude.{
  map, ℕ, ◌≤◌, ◌≡◌, ap, sym, ◌∙◌, Bool, true, false, List, ◌++◌, All, Option, some, returns,
  get_elem?, get_elem?-map, lt_of_get_elem?, subst, returns-injective, >>=-eq-returns,
}
use serverlessd.Prelude.Text.{Str}
use serverlessd.Pod.{Allocator}
use serverlessd.CodeStore.{RegexCrate, FileSystem}
use serverlessd.CodeStore.Names.{WorkerNameRegex, WorkerFiles}
use serverlessd.Serverless.{Workers, Serverless}
use serverlessd.Serverless.Invariant.{IsSound}
use serverlessd.App.{Rendered, Call}
use serverlessd.App.Service.{view, Session}
use serverlessd.App.Service.Linear.{calls_of, run_handlers-Ordered}
use serverlessd.App.Interleaving.Turns.{waiting_call}
use serverlessd.App.Interleaving.Order.{numbered, first_turns, first_turns-All, Renders}
use serverlessd.App.Interleaving.Rush.{turns_of, Rushed, run_handlers-Rushed, Rushed-rendered}
use serverlessd.Auth.{Crypto, AuthMiddleware}
use serverlessd.Router.{Inbound}
use serverlessd.Router.Pages.{IsTameRoute}
use serverlessd.Router.Arrivals.{Stage, arrive, run_stages}
use serverlessd.Router.Arrivals.Tame.{arrivals-IsTameIf}
use serverlessd.Router.Arrivals.Standing.{
  Done, rendered-Done, handler_of, ended_of, waiting_at, waiting-handler_of, run_stages-Follows,
  run_stages-ended,
}
use serverlessd.Router.Arrivals.Shown.{Stands, Came, Shows, Renders-Shows, Stays-Stands, Stays-Came}

module _ (a : Allocator) (rx : RegexCrate) (fs : FileSystem) (names : WorkerNameRegex rx)
    (files : WorkerFiles fs) (crypto : Crypto) (resumes : Bool → Option ℕ → Bool)
    (skipped_stops : (status : Option ℕ) → resumes true status ≡ false)
    (error_stops : (skip : Bool) (code : ℕ) → 400 ≤ code → resumes skip (some code) ≡ false)
    (canonical_reason : ℕ → Option Str) (catches : Option ℕ → Bool)
    (errors_caught : (code : ℕ) → 400 ≤ code → catches (some code) ≡ true)
    (auth : AuthMiddleware crypto) where
  abbrev pub arrivals : List Inbound → List (Stage a rx fs crypto resumes)
  arrivals = map (arrive a rx fs crypto resumes auth)

  -- The calls that the requests come with, in the order of their first turns.
  abbrev pub calls_in_order : List (ℕ × Workers) → List Inbound → List (ℕ × Call)
  calls_in_order turns inbounds = first_turns turns (map waiting_at (arrivals inbounds))

  came :
      (turns : List (ℕ × Workers)) (inbounds : List Inbound)
      (stages : List (Stage a rx fs crypto resumes))
      → map ended_of stages ≡ map ended_of (arrivals inbounds)
      → All
          (λ c.
            Came a rx fs crypto resumes skipped_stops error_stops canonical_reason catches
              errors_caught auth inbounds stages c.0 c.1)
          (calls_in_order turns inbounds)
  came turns inbounds stages stays =
      first_turns-All _ turns (map waiting_at (arrivals inbounds)) (λ i call q.
        Stays-Came a rx fs crypto resumes skipped_stops error_stops canonical_reason catches
          errors_caught auth inbounds stages i call stays q)

  two_turns-Done :
      (turns : List (ℕ × Workers)) (inbounds : List Inbound)
      (stages : List (Stage a rx fs crypto resumes)) (s : Serverless a rx fs)
      (rushed : Rushed a rx fs names files turns (map handler_of (arrivals inbounds)) s)
      → rushed.handlers ≡ map handler_of stages
      → (i : ℕ) (inbound : Inbound) → get_elem? inbounds i ≡ some inbound
      → 2 ≤ turns_of i turns
      → Done (get_elem? stages i)
  two_turns-Done turns inbounds stages s rushed same i inbound at two =
      let hs = map handler_of (arrivals inbounds) in
      let there =
        get_elem?-map handler_of (arrivals inbounds) i _
          (get_elem?-map (arrive a rx fs crypto resumes auth) inbounds i inbound at) in
      let (page, q) =
        Rushed-rendered a rx fs names files rushed i (lt_of_get_elem? hs i there) two in
      rendered-Done stages i page (ap (λ l. get_elem? l i) (sym same) ∙ q)

  -- Requests in the midst of their turns: the calls that had a turn are a session of the service, each
  -- call with its page; each stands in their order once, or still waits; each request has its handler,
  -- or is refused; and two turns are enough for its response.
  pub record Crowd (turns : List (ℕ × Workers)) (inbounds : List Inbound) (s : Serverless a rx fs)
      : Type 0 where
    pub stages : List (Stage a rx fs crypto resumes)
    pub after : Serverless a rx fs
    pub pages : List (Rendered a rx fs)
    pub result :
        run_stages a rx fs crypto resumes turns (arrivals inbounds) s ≡ returns (stages, after)
    pub sound : IsSound a rx fs names files after
    pub session :
        Session a rx fs
          (view a rx fs s)
          (calls_of (calls_in_order turns inbounds))
          pages
          (view a rx fs after)
    pub shows :
        Shows a rx fs crypto resumes skipped_stops error_stops canonical_reason catches
          errors_caught auth inbounds stages
          (calls_in_order turns inbounds)
          pages
    pub all :
        Perm
          (calls_in_order turns inbounds ++ numbered 0 (map waiting_at stages))
          (numbered 0 (map waiting_at (arrivals inbounds)))
    pub stands :
        (i : ℕ) (inbound : Inbound)
        → get_elem? inbounds i ≡ some inbound
        → Stands a rx fs crypto resumes skipped_stops error_stops canonical_reason catches
            errors_caught auth inbound
            (get_elem? stages i)
    pub served :
        (i : ℕ) (inbound : Inbound)
        → get_elem? inbounds i ≡ some inbound
        → 2 ≤ turns_of i turns
        → Done (get_elem? stages i)

  -- From a sound runtime, HTTP requests that go through the router at once go through without a panic
  -- or a hang of the runtime, however their turns fall, and leave it sound. The calls that had a turn
  -- are a session of the service, in the order of their first turns, and each was asked for by its
  -- request: a page of a worker by any, an upload or a removal by an authentic one. Every other request
  -- has what the middleware or the wildcard leave to it: the error page of 401, if no token verifies,
  -- or of 400, if the token does not name the body, no answer, if the body cannot be read, or `{}`. Each
  -- call stands in the order once or still waits for its first turn; after two turns a request has its
  -- response, or waits for a worker that never replies. This is under salvo's rules that a skip or an
  -- error status stops the handlers behind, and that the catcher is asked for the page of an error
  -- status; a removal is of a name without a slash.
  pub run_stages-Crowd :
      (turns : List (ℕ × Workers)) (inbounds : List Inbound) (s : Serverless a rx fs)
      → IsSound a rx fs names files s
      → All (λ i. IsTameRoute i.route) inbounds
      → Crowd turns inbounds s
  run_stages-Crowd turns inbounds s h tame =
      let hs = map handler_of (arrivals inbounds) in
      let o =
        run_handlers-Ordered a rx fs names files turns hs s h
          (waiting-handler_of (arrivals inbounds))
          (arrivals-IsTameIf a rx fs crypto resumes auth inbounds tame) in
      let rushed = run_handlers-Rushed a rx fs names files turns hs s h in
      let ((stages, after), e, e') =
        >>=-eq-returns (run_stages a rx fs crypto resumes turns (arrivals inbounds) s) _
          (run_stages-Follows a rx fs crypto resumes turns (arrivals inbounds) s ∙ o.result) in
      let one = returns-injective e' in
      let handlers = sym (ap (λ p. p.0) one) in
      let end = sym (ap (λ p. p.1) one) in
      let ended = returns-injective (sym rushed.result ∙ o.result) in
      let stays =
        run_stages-ended a rx fs crypto resumes turns (arrivals inbounds) stages s after e in
      record {
        stages = stages;
        after = after;
        pages = o.pages;
        result = e;
        sound = subst (IsSound a rx fs names files) (ap (λ p. p.1) ended ∙ end) rushed.grows.sound;
        session =
            subst
              (λ t.
                Session a rx fs (view a rx fs s) (calls_of (calls_in_order turns inbounds)) o.pages
                  (view a rx fs t))
              end o.session;
        shows =
            Renders-Shows a rx fs crypto resumes skipped_stops error_stops canonical_reason catches
              errors_caught auth inbounds stages (calls_in_order turns inbounds) o.pages
              (came turns inbounds stages stays)
              (subst (Renders (calls_in_order turns inbounds) o.pages) handlers o.renders);
        all =
            subst
              (λ ds.
                Perm (calls_in_order turns inbounds ++ numbered 0 ds)
                  (numbered 0 (map waiting_at (arrivals inbounds))))
              (ap (map waiting_call) handlers ∙ waiting-handler_of stages) o.all;
        stands = λ i inbound at.
            Stays-Stands a rx fs crypto resumes skipped_stops error_stops canonical_reason catches
              errors_caught auth inbounds stages i inbound stays at;
        served = λ i inbound at two.
            two_turns-Done turns inbounds stages s rushed (ap (λ p. p.0) ended ∙ handlers) i inbound
              at two;
      }
