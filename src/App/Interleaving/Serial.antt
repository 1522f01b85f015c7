-- ===== src/App/Interleaving/Serial.antt =====
-- Requests that src/runtime/serverless/app.rs serves at once, against the same requests one after
-- the other.
use mathlib.Core.List.{map, Perm}
use mathlib.Core.List.Perm
use mathlib.Core.Path.{subst₂}
use serverlessd.Prelude.{
  ℕ, ◌≡◌, refl, sym, ap, ◌∙◌, List, [], ◌∷◌, ◌++◌, none, some, get_elem?, set, Outcome, returns,
  subst, Option-cases, inl, inr, arith,
}
use serverlessd.Pod.{Allocator}
use serverlessd.CodeStore.{RegexCrate, FileSystem}
use serverlessd.CodeStore.Names.{WorkerNameRegex, WorkerFiles}
use serverlessd.Serverless.{Workers, Serverless}
use serverlessd.Serverless.Invariant.{IsSound}
use serverlessd.Serverless.Twins.{Twins, Twins-refl}
use serverlessd.App.{Rendered, Call, answer_calls}
use serverlessd.App.Interleaving.{Handler, started, placed, rendered, run_handlers}
use serverlessd.App.Interleaving.Turns.{waiting_call, take_turn-Begun, take_turn-Continued}
use serverlessd.App.Interleaving.Order.{
  numbered, numbered-set, numbered-same, first_turns, in_order, page_at, Renders, get_elem?-waiting,
  get_elem?-waiting_none, waiting-set, waiting-set_same, first_turns-none, first_turns-later,
  first_turns-new, page_at-set_self, page_at-set,
}

pub waiting-started :
    (a : Allocator) (rx : RegexCrate) (fs : FileSystem) (calls : List Call)
    → map (waiting_call {a = a} {rx = rx} {fs = fs}) (map started calls) ≡ map some calls
waiting-started a rx fs [] = refl
waiting-started a rx fs (call ∷ calls) = ap (◌∷◌ (some call)) (waiting-started a rx fs calls)

module _ (a : Allocator) (rx : RegexCrate) (fs : FileSystem) (names : WorkerNameRegex rx)
    (files : WorkerFiles fs) (w : Workers) where
  -- What a run of the handlers has to do with the calls of the order, one after the other on a twin.
  pub record Serialised (order : List (ℕ × Call))
      (run : Outcome (List (Handler a rx fs) × Serverless a rx fs)) (hs : List (Handler a rx fs))
      (t : Serverless a rx fs) : Type 0 where
    pub handlers : List (Handler a rx fs)
    pub after : Serverless a rx fs
    pub pages : List (Rendered a rx fs)
    pub after' : Serverless a rx fs
    pub result : run ≡ returns (handlers, after)
    pub result' : answer_calls a rx fs (in_order w order) t ≡ returns (pages, after')
    pub renders : Renders order pages handlers
    pub kept :
        (i : ℕ) (page : Rendered a rx fs)
        → page_at hs i ≡ some page
        → page_at handlers i ≡ some page
    pub all :
        Perm (order ++ numbered 0 (map waiting_call handlers)) (numbered 0 (map waiting_call hs))
    pub twins : Twins a rx fs names files after after'

  -- The turns that are left, from any state of the handlers.
  abbrev pub Rest : List (ℕ × Workers) → Type 0
  Rest turns =
      (hs : List (Handler a rx fs)) (s t : Serverless a rx fs)
      → Twins a rx fs names files s t
      → Serialised (first_turns turns (map waiting_call hs)) (run_handlers a rx fs turns hs s) hs t

  later-Serialised :
      (i : ℕ) (workers : Workers) (turns : List (ℕ × Workers)) (h : Handler a rx fs)
      (hs : List (Handler a rx fs)) (s t : Serverless a rx fs)
      → Rest turns
      → Twins a rx fs names files s t
      → get_elem? hs i ≡ some h
      → waiting_call h ≡ none
      → Serialised
          (first_turns ((i, workers) ∷ turns) (map waiting_call hs))
          (run_handlers a rx fs ((i, workers) ∷ turns) hs s)
          hs
          t
  unfolding run_handlers
  later-Serialised i workers turns h hs s t rest tw e turned =
      let c = take_turn-Continued a rx fs names files workers h s t turned tw in
      let r = rest (set hs i c.handler) c.after t c.twins in
      let same = waiting-set_same hs i h c.handler e (c.turned ∙ sym turned) in
      let order =
        first_turns-later i workers turns (map waiting_call hs)
          (get_elem?-waiting hs i h e ∙ ap some turned) in
      subst (λ o. Serialised o (run_handlers a rx fs ((i, workers) ∷ turns) hs s) hs t)
        (ap (first_turns turns) same ∙ sym order)
        (record {
          handlers = r.handlers;
          after = r.after;
          pages = r.pages;
          after' = r.after';
          result = rw (e, run_handlers) (rw c.result r.result);
          result' = r.result';
          renders = r.renders;
          kept = λ j page p.
              r.kept j page (page_at-set hs i j h c.handler page e (λ q. c.page_same ∙ q) p);
          all = Perm.trans r.all (numbered-same 0 same);
          twins = r.twins;
        })

  first-Serialised :
      (i : ℕ) (workers : Workers) (turns : List (ℕ × Workers)) (call : Call)
      (hs : List (Handler a rx fs)) (s t : Serverless a rx fs)
      → Rest turns
      → Twins a rx fs names files s t
      → get_elem? hs i ≡ some (started call)
      → Serialised
          (first_turns ((i, workers) ∷ turns) (map waiting_call hs))
          (run_handlers a rx fs ((i, workers) ∷ turns) hs s)
          hs
          t
  unfolding run_handlers answer_calls
  first-Serialised i workers turns call hs s t rest tw e =
      let b = take_turn-Begun a rx fs names files workers w call s t tw in
      let r = rest (set hs i b.handler) b.after b.after' b.twins in
      let waits = get_elem?-waiting hs i (started call) e in
      let same = waiting-set hs i b.handler b.turned in
      let order = first_turns-new i workers turns (map waiting_call hs) call waits in
      subst (λ o. Serialised o (run_handlers a rx fs ((i, workers) ∷ turns) hs s) hs t)
        (ap (λ cs. (i, call) ∷ first_turns turns cs) same ∙ sym order)
        (record {
          handlers = r.handlers;
          after = r.after;
          pages = b.page ∷ r.pages;
          after' = r.after';
          result = rw (e, run_handlers) (rw b.result r.result);
          result' = rw b.result' (rw r.result');
          renders = (
            r.kept i b.page (page_at-set_self hs i (started call) b.handler e ∙ b.page_same),
            r.renders,
          );
          kept = λ j page p.
              r.kept j page
                (page_at-set hs i j (started call) b.handler page e (λ q. absurd (cc)) p);
          all =
              Perm.trans (Perm.cons (i, call) (Perm.trans r.all (numbered-same 0 same)))
                (numbered-set 0 i i (map waiting_call hs) call waits (omega arith));
          twins = r.twins;
        })

  none-Serialised :
      (i : ℕ) (workers : Workers) (turns : List (ℕ × Workers)) (hs : List (Handler a rx fs))
      (s t : Serverless a rx fs)
      → Rest turns
      → Twins a rx fs names files s t
      → get_elem? hs i ≡ none
      → Serialised
          (first_turns ((i, workers) ∷ turns) (map waiting_call hs))
          (run_handlers a rx fs ((i, workers) ∷ turns) hs s)
          hs
          t
  unfolding run_handlers
  none-Serialised i workers turns hs s t rest tw e =
      subst₂ (λ o m. Serialised o m hs t)
        (sym
          (first_turns-none i workers turns (map waiting_call hs) (get_elem?-waiting_none hs i e)))
        (rw (e, run_handlers)) (rest hs s t tw)

  turn-Serialised :
      (i : ℕ) (workers : Workers) (turns : List (ℕ × Workers)) (h : Handler a rx fs)
      (hs : List (Handler a rx fs)) (s t : Serverless a rx fs)
      → Rest turns
      → Twins a rx fs names files s t
      → get_elem? hs i ≡ some h
      → Serialised
          (first_turns ((i, workers) ∷ turns) (map waiting_call hs))
          (run_handlers a rx fs ((i, workers) ∷ turns) hs s)
          hs
          t
  turn-Serialised i workers turns (started call) hs s t rest tw e =
      first-Serialised i workers turns call hs s t rest tw e
  turn-Serialised i workers turns (placed pod wrk reply answer) hs s t rest tw e =
      later-Serialised i workers turns (placed pod wrk reply answer) hs s t rest tw e refl
  turn-Serialised i workers turns (rendered page) hs s t rest tw e =
      later-Serialised i workers turns (rendered page) hs s t rest tw e refl

  pub run_handlers-Serialised : (turns : List (ℕ × Workers)) → Rest turns
  unfolding run_handlers first_turns answer_calls
  run_handlers-Serialised [] hs s t tw = record {
    handlers = hs;
    after = s;
    pages = [];
    after' = t;
    result = refl;
    result' = refl;
    renders = tt;
    kept = λ i page p. p;
    all = Perm.rfl;
    twins = tw;
  }
  run_handlers-Serialised ((i, workers) ∷ turns) hs s t tw = elim (Option-cases (get_elem? hs i)) [
    | inl e ↦ none-Serialised i workers turns hs s t (run_handlers-Serialised turns) tw e
    | inr (h, e) ↦ turn-Serialised i workers turns h hs s t (run_handlers-Serialised turns) tw e
  ]

  -- From a sound runtime, however the turns of HTTP requests that are served at once fall, each
  -- turn goes through without a panic, a hang or undefined behaviour. Each call that had a turn has
  -- rendered, or between its two triggers is going to render, the page that it gets where the calls
  -- are served one after the other in the order of their first turns; each call stands in that
  -- order once, or still waits for its first turn. The runtimes end up alike but for what the pods
  -- have sent to workers.
  pub run_handlers-serial :
      (turns : List (ℕ × Workers)) (calls : List Call) (s : Serverless a rx fs)
      → IsSound a rx fs names files s
      → Serialised
          (first_turns turns (map some calls))
          (run_handlers a rx fs turns (map started calls) s)
          (map started calls)
          s
  run_handlers-serial turns calls s h =
      subst
        (λ cs.
          Serialised (first_turns turns cs) (run_handlers a rx fs turns (map started calls) s)
            (map started calls) s)
        (waiting-started a rx fs calls)
        (run_handlers-Serialised turns (map started calls) s s (Twins-refl a rx fs names files s h))
