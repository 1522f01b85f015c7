-- ===== src/Router/Arrivals/Standing.antt =====
-- What the router of src/runtime/serverless/app.rs makes of a request that arrives, and how the
-- turns of several go through.
use serverlessd.Prelude.{
  map, ℕ, ◌≡◌, refl, ap, sym, ◌∙◌, ◌>>=◌, Bool, List, [], ◌∷◌, Option, none, some, Outcome, returns,
  panics, undefined, hangs, get_elem?, set, get_elem?-map, get_elem?_of_map, get_elem?-map-none,
  map-set, map-set_same, Option-cases, inl, inr, >>=-eq-returns, returns-injective,
}
use serverlessd.Pod.{Allocator}
use serverlessd.CodeStore.{RegexCrate, FileSystem}
use serverlessd.Serverless.{Workers, Serverless}
use serverlessd.App.{Rendered, Call, all_ok}
use serverlessd.App.Interleaving.{Handler, rendered, take_turn, run_handlers}
use serverlessd.App.Interleaving.Turns.{waiting_call, take_turn-rendered}
use serverlessd.Auth.{Crypto}
use serverlessd.Router.{Response}
use serverlessd.Router.Arrivals.{Stage, handling, ended, take_stage, run_stages}

module _ {a : Allocator} {rx : RegexCrate} {fs : FileSystem} {crypto : Crypto}
    {resumes : Bool → Option ℕ → Bool} where
  -- A request that has ended takes no turns, like a handler that has rendered its page.
  abbrev pub handler_of : Stage a rx fs crypto resumes → Handler a rx fs
  handler_of (handling h) = h
  handler_of (ended response) = rendered all_ok

  abbrev pub ended_of : Stage a rx fs crypto resumes → Option (Response a rx fs crypto resumes)
  ended_of (handling h) = none
  ended_of (ended response) = some response

  abbrev pub waiting_at : Stage a rx fs crypto resumes → Option Call
  waiting_at (handling h) = waiting_call h
  waiting_at (ended response) = none

  pub waiting-handler_of :
      (stages : List (Stage a rx fs crypto resumes))
      → map waiting_call (map handler_of stages) ≡ map waiting_at stages
  waiting-handler_of [] = refl
  waiting-handler_of (handling h ∷ stages) = ap (◌∷◌ (waiting_call h)) (waiting-handler_of stages)
  waiting-handler_of (ended response ∷ stages) = ap (◌∷◌ none) (waiting-handler_of stages)

  -- The request has its response, a handler's or one that no handler made, or its handler waits for a
  -- worker that never replies.
  pub data Done : Option (Stage a rx fs crypto resumes) → Type 0 where
    with_page : (page : Rendered a rx fs) → Done (some (handling (rendered page)))
    without_handler : (response : Response a rx fs crypto resumes) → Done (some (ended response))

  handled-Done :
      (stage : Stage a rx fs crypto resumes) (page : Rendered a rx fs)
      → handler_of stage ≡ rendered page
      → Done (some stage)
  handled-Done (handling h) page e = rw e (with_page page)
  handled-Done (ended response) page e = without_handler response

  pub rendered-Done :
      (stages : List (Stage a rx fs crypto resumes)) (i : ℕ) (page : Rendered a rx fs)
      → get_elem? (map handler_of stages) i ≡ some (rendered page)
      → Done (get_elem? stages i)
  rendered-Done stages i page e =
      let (stage, at, q) = get_elem?_of_map handler_of stages i (rendered page) e in
      rw at (handled-Done stage page q)

  abbrev handlers_of :
      List (Stage a rx fs crypto resumes) × Serverless a rx fs
      → Outcome (List (Handler a rx fs) × Serverless a rx fs)
  handlers_of (stages, s) = returns (map handler_of stages, s)

module _ (a : Allocator) (rx : RegexCrate) (fs : FileSystem) (crypto : Crypto)
    (resumes : Bool → Option ℕ → Bool) where
  run_stages-none :
      (i : ℕ) (workers : Workers) (turns : List (ℕ × Workers))
      (stages : List (Stage a rx fs crypto resumes)) (s : Serverless a rx fs)
      → get_elem? stages i ≡ none
      → run_stages a rx fs crypto resumes ((i, workers) ∷ turns) stages s
        ≡ run_stages a rx fs crypto resumes turns stages s
  unfolding run_stages
  run_stages-none i workers turns stages s e = rw (e, run_stages)

  run_stages-some :
      (i : ℕ) (workers : Workers) (turns : List (ℕ × Workers))
      (stages : List (Stage a rx fs crypto resumes)) (stage : Stage a rx fs crypto resumes)
      (s : Serverless a rx fs)
      → get_elem? stages i ≡ some stage
      → run_stages a rx fs crypto resumes ((i, workers) ∷ turns) stages s ≡ (
          take_stage a rx fs crypto resumes workers stage s >>= λ (stage', s').
          run_stages a rx fs crypto resumes turns (set stages i stage') s')
  unfolding run_stages
  run_stages-some i workers turns stages stage s e = rw (e, run_stages)

  abbrev Follows : List (ℕ × Workers) → Type 0
  Follows turns =
      (stages : List (Stage a rx fs crypto resumes)) (s : Serverless a rx fs)
      → (run_stages a rx fs crypto resumes turns stages s >>= handlers_of)
        ≡ run_handlers a rx fs turns (map handler_of stages) s

  step-Follows :
      (i : ℕ) (turns : List (ℕ × Workers)) (stages : List (Stage a rx fs crypto resumes))
      (o : Outcome (Handler a rx fs × Serverless a rx fs))
      → Follows turns
      → (((o >>= λ (h, s). returns (handling h, s)) >>= λ (stage, s).
            run_stages a rx fs crypto resumes turns (set stages i stage) s)
          >>= handlers_of)
        ≡ (o >>= λ (h, s). run_handlers a rx fs turns (set (map handler_of stages) i h) s)
  step-Follows i turns stages (returns (h, s)) rest =
      rest (set stages i (handling h)) s
      ∙ ap (λ hs. run_handlers a rx fs turns hs s) (map-set handler_of stages i (handling h))
  step-Follows i turns stages panics rest = refl
  step-Follows i turns stages undefined rest = refl
  step-Follows i turns stages hangs rest = refl

  turn-Follows :
      (i : ℕ) (workers : Workers) (turns : List (ℕ × Workers))
      (stages : List (Stage a rx fs crypto resumes)) (stage : Stage a rx fs crypto resumes)
      (s : Serverless a rx fs)
      → Follows turns
      → ((take_stage a rx fs crypto resumes workers stage s >>= λ (stage', s').
            run_stages a rx fs crypto resumes turns (set stages i stage') s')
          >>= handlers_of)
        ≡ (take_turn a rx fs workers (handler_of stage) s >>= λ (h, s').
            run_handlers a rx fs turns (set (map handler_of stages) i h) s')
  unfolding take_stage
  turn-Follows i workers turns stages (handling h) s rest =
      step-Follows i turns stages (take_turn a rx fs workers h s) rest
  turn-Follows i workers turns stages (ended response) s rest =
      rw (take_turn-rendered a rx fs workers all_ok s) (
        rest (set stages i (ended response)) s
        ∙ ap (λ hs. run_handlers a rx fs turns hs s) (map-set handler_of stages i (ended response)))

  -- The handlers of the requests take their turns as if there were nothing before them.
  pub run_stages-Follows : (turns : List (ℕ × Workers)) → Follows turns
  unfolding run_stages run_handlers
  run_stages-Follows [] stages s = refl
  run_stages-Follows ((i, workers) ∷ turns) stages s = elim (Option-cases (get_elem? stages i)) [
    | inl e ↦
        rw
          (
            run_stages-none i workers turns stages s e,
            get_elem?-map-none handler_of stages i e,
            run_handlers,
          )
          (run_stages-Follows turns stages s)
    | inr (stage, e) ↦
        rw
          (
            run_stages-some i workers turns stages stage s e,
            get_elem?-map handler_of stages i stage e,
            run_handlers,
          )
          (turn-Follows i workers turns stages stage s (run_stages-Follows turns))
  ]

  take_stage-ended :
      (workers : Workers) (stage stage' : Stage a rx fs crypto resumes)
      (s after : Serverless a rx fs)
      → take_stage a rx fs crypto resumes workers stage s ≡ returns (stage', after)
      → ended_of stage' ≡ ended_of stage
  unfolding take_stage
  take_stage-ended workers (handling h) stage' s after e =
      let (made, _, e') = >>=-eq-returns (take_turn a rx fs workers h s) _ e in
      ap (λ p. ended_of p.0) (returns-injective (sym e'))
  take_stage-ended workers (ended response) stage' s after e =
      ap (λ p. ended_of p.0) (returns-injective (sym e))

  -- No turn changes a response that no handler made, or takes a request from its handler.
  pub run_stages-ended :
      (turns : List (ℕ × Workers)) (stages stages' : List (Stage a rx fs crypto resumes))
      (s after : Serverless a rx fs)
      → run_stages a rx fs crypto resumes turns stages s ≡ returns (stages', after)
      → map ended_of stages' ≡ map ended_of stages
  unfolding run_stages
  run_stages-ended [] stages stages' s after e =
      ap (λ p. map ended_of p.0) (returns-injective (sym e))
  run_stages-ended ((i, workers) ∷ turns) stages stages' s after e =
      elim (Option-cases (get_elem? stages i)) [
        | inl q ↦
            run_stages-ended turns stages stages' s after
              (sym (run_stages-none i workers turns stages s q) ∙ e)
        | inr (stage, q) ↦
            let ((stage', s'), taken, e') =
              >>=-eq-returns (take_stage a rx fs crypto resumes workers stage s) _
                (sym (run_stages-some i workers turns stages stage s q) ∙ e) in
            run_stages-ended turns (set stages i stage') stages' s' after e'
            ∙ map-set_same ended_of stages i stage stage' q
                (take_stage-ended workers stage stage' s s' taken)
      ]
