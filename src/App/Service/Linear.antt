-- ===== src/App/Service/Linear.antt =====
-- Requests that src/runtime/serverless/app.rs serves at once, as one session of the abstract service.
use mathlib.Core.List.{map, Perm}
use serverlessd.Prelude.{
  ℕ, ◌-◌, ◌*◌, ◌≡◌, refl, sym, ap, ◌∙◌, subst, true, List, [], ◌∷◌, ◌++◌, Option, none, some,
  get_elem?, set, returns, returns-injective, arith, All, All-set, All-get_elem?, inl, inr,
  Option-cases,
}
use serverlessd.Pod.{Allocator}
use serverlessd.Pod.Client.{PodHandle}
use serverlessd.CodeStore.{RegexCrate, FileSystem}
use serverlessd.CodeStore.Names.{WorkerNameRegex, WorkerFiles}
use serverlessd.Serverless.{Workers, Serverless}
use serverlessd.Serverless.Scheduling.{total_load}
use serverlessd.Serverless.Invariant.{IsSound}
use serverlessd.Serverless.Forgetting.{quiet}
use serverlessd.Serverless.Twins.{Twins, Twins-refl, forget}
use serverlessd.App.{Rendered, Call}
use serverlessd.App.Interleaving.{Handler, started, run_handlers}
use serverlessd.App.Interleaving.Turns.{waiting_call}
use serverlessd.App.Interleaving.Order.{numbered, first_turns, in_order, Renders}
use serverlessd.App.Interleaving.Serial.{run_handlers-Serialised, waiting-started}
use serverlessd.App.Service.{view, Session, IsTame}
use serverlessd.App.Service.Refinement.{answer_calls-Session}

abbrev pub calls_of : List (ℕ × Call) → List Call
calls_of = map (λ c. c.1)

abbrev pub IsTameIf : Option Call → Type 0
IsTameIf none = Unit
IsTameIf (some call) = IsTame call

first_turns-IsTame :
    (turns : List (ℕ × Workers)) (cs : List (Option Call))
    → All IsTameIf cs
    → All IsTame (calls_of (first_turns turns cs))
unfolding first_turns
first_turns-IsTame [] cs tame = tt
first_turns-IsTame ((i, workers) ∷ turns) cs tame = elim (Option-cases (get_elem? cs i)) [
  | inl e ↦ rw (e, first_turns) (first_turns-IsTame turns cs tame)
  | inr (none, e) ↦ rw (e, first_turns) (first_turns-IsTame turns cs tame)
  | inr (some call, e) ↦
      rw (e, first_turns)
        (
          All-get_elem? IsTameIf cs i (some call) tame e,
          first_turns-IsTame turns (set cs i none) (All-set IsTameIf cs i none tame tt),
        )
]

some-IsTameIf : (calls : List Call) → All IsTame calls → All IsTameIf (map some calls)
some-IsTameIf [] tame = tt
some-IsTameIf (call ∷ calls) tame = (tame.0, some-IsTameIf calls tame.1)

in_order-calls_of :
    (workers : Workers) (order : List (ℕ × Call))
    → map (λ c. c.0) (in_order workers order) ≡ calls_of order
in_order-calls_of workers [] = refl
in_order-calls_of workers ((i, call) ∷ order) = ap (◌∷◌ call) (in_order-calls_of workers order)

total_load-quiet : (hs : List PodHandle) → total_load (map quiet hs) ≡ total_load hs
unfolding total_load
total_load-quiet [] = refl
total_load-quiet (h ∷ hs) = omega (arith, total_load-quiet hs)

module _ (a : Allocator) (rx : RegexCrate) (fs : FileSystem) (names : WorkerNameRegex rx)
    (files : WorkerFiles fs) where
  -- Twins look alike.
  view-forget : (s : Serverless a rx fs) → view a rx fs (forget a rx fs s) ≡ view a rx fs s
  view-forget s =
      ap (λ n. record (view a rx fs s) { free = s.n_threads * a.with_capacity s.n_workers - n })
        (total_load-quiet s.pods)

  view-Twins :
      {s t : Serverless a rx fs} → Twins a rx fs names files s t → view a rx fs s ≡ view a rx fs t
  view-Twins {s} {t} tw = sym (view-forget s) ∙ ap (view a rx fs) tw.same ∙ view-forget t

  -- From handlers wherever they stand: the calls that wait are a session of the service.
  pub record Ordered (turns : List (ℕ × Workers)) (hs : List (Handler a rx fs))
      (s : Serverless a rx fs) (waiting : List (Option Call)) : Type 0 where
    pub handlers : List (Handler a rx fs)
    pub after : Serverless a rx fs
    pub pages : List (Rendered a rx fs)
    pub result : run_handlers a rx fs turns hs s ≡ returns (handlers, after)
    pub session :
        Session a rx fs
          (view a rx fs s)
          (calls_of (first_turns turns waiting))
          pages
          (view a rx fs after)
    pub renders : Renders (first_turns turns waiting) pages handlers
    pub all :
        Perm
          (first_turns turns waiting ++ numbered 0 (map waiting_call handlers))
          (numbered 0 waiting)

  handlers-Ordered :
      (turns : List (ℕ × Workers)) (hs : List (Handler a rx fs)) (s : Serverless a rx fs)
      → IsSound a rx fs names files s
      → All IsTameIf (map waiting_call hs)
      → Ordered turns hs s (map waiting_call hs)
  handlers-Ordered turns hs s h tame =
      let w : Workers = λ pod wrk. true in
      let order = first_turns turns (map waiting_call hs) in
      let r =
        run_handlers-Serialised a rx fs names files w turns hs s s
          (Twins-refl a rx fs names files s h) in
      let same = in_order-calls_of w order in
      let (pages, after, e, sound, session) =
        answer_calls-Session a rx fs names files (in_order w order) s h
          (subst (All IsTame) (sym same) (first_turns-IsTame turns (map waiting_call hs) tame)) in
      let one = returns-injective (sym e ∙ r.result') in
      let ended = ap (λ p. view a rx fs p.1) one ∙ sym (view-Twins r.twins) in
      record {
        handlers = r.handlers;
        after = r.after;
        pages = r.pages;
        result = r.result;
        session =
            subst (λ v. Session a rx fs (view a rx fs s) (calls_of order) r.pages v) ended
              (subst
                (λ ps. Session a rx fs (view a rx fs s) (calls_of order) ps (view a rx fs after))
                (ap (λ p. p.0) one)
                (subst (λ cs. Session a rx fs (view a rx fs s) cs pages (view a rx fs after)) same
                  session));
        renders = r.renders;
        all = r.all;
      }

  pub run_handlers-Ordered :
      (turns : List (ℕ × Workers)) (hs : List (Handler a rx fs)) (s : Serverless a rx fs)
      {waiting : List (Option Call)}
      → IsSound a rx fs names files s
      → map waiting_call hs ≡ waiting
      → All IsTameIf waiting
      → Ordered turns hs s waiting
  run_handlers-Ordered turns hs s h same tame =
      subst (Ordered turns hs s) same
        (handlers-Ordered turns hs s h (subst (All IsTameIf) (sym same) tame))

  -- The handlers' pages are those of a session of the service, each call in it at its place.
  record Linearised (turns : List (ℕ × Workers)) (calls : List Call) (s : Serverless a rx fs)
      : Type 0 where
    pub handlers : List (Handler a rx fs)
    pub after : Serverless a rx fs
    pub pages : List (Rendered a rx fs)
    pub result : run_handlers a rx fs turns (map started calls) s ≡ returns (handlers, after)
    pub session :
        Session a rx fs
          (view a rx fs s)
          (calls_of (first_turns turns (map some calls)))
          pages
          (view a rx fs after)
    pub renders : Renders (first_turns turns (map some calls)) pages handlers
    pub all :
        Perm
          (first_turns turns (map some calls) ++ numbered 0 (map waiting_call handlers))
          (numbered 0 (map some calls))

  -- From a sound runtime, however the turns of HTTP requests that are served at once fall, the calls
  -- that had a turn are a session of the service, in the order of their first turns: one after the
  -- other, each with the page that its handler has rendered or is going to, and from what can be seen
  -- of the runtime before to what can be seen after. Each call stands in that order once, or still
  -- waits for its first turn; a removal is of a name without a slash.
  run_handlers-Linearised :
      (turns : List (ℕ × Workers)) (calls : List Call) (s : Serverless a rx fs)
      → IsSound a rx fs names files s
      → All IsTame calls
      → Linearised turns calls s
  run_handlers-Linearised turns calls s h tame =
      let o =
        run_handlers-Ordered turns (map started calls) s h (waiting-started a rx fs calls)
          (some-IsTameIf calls tame) in
      record {
        handlers = o.handlers;
        after = o.after;
        pages = o.pages;
        result = o.result;
        session = o.session;
        renders = o.renders;
        all = o.all;
      }
