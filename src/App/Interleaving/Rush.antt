-- ===== src/App/Interleaving/Rush.antt =====
-- Requests that src/runtime/serverless/app.rs serves at once: that they end, and how many of them
-- get a worker.
use mathlib.Core.List.{map}
use mathlib.Core.Option.{some-injective}
use mathlib.Core.Path.{subst₂}
use serverlessd.Prelude.{
  ℕ, zero, suc, total, total-set, ◌+◌, ◌-◌, ◌*◌, ◌≤◌, ◌<◌, ◌≡◌, refl, ap, List, [], ◌∷◌, none, some,
  length, get_elem?, set, ◌==◌, if◌then◌else◌, returns, inl, inr, Option-cases, Bool-cases, ==_iff,
  subst, sym, ◌∙◌, length-set, arith, get_elem?-map, lt_of_get_elem?,
}
use serverlessd.Pod.{Allocator}
use serverlessd.CodeStore.{RegexCrate, FileSystem, Store}
use serverlessd.CodeStore.Names.{WorkerNameRegex, WorkerFiles}
use serverlessd.CodeStore.Laws.{IsCached}
use serverlessd.Serverless.{Workers, Serverless, new, start_pods}
use serverlessd.Serverless.Scheduling.{total_load}
use serverlessd.Serverless.Invariant.{IsSound, sound_bound, start_pods-IsSound}
use serverlessd.App.{Rendered, Call, awaiting}
use serverlessd.App.Exhaustion.{IsSilent}
use serverlessd.App.Growth.{Grows, unchanged-Grows, join-Grows}
use serverlessd.App.Interleaving.{Handler, started, placed, rendered, run_handlers}
use serverlessd.App.Interleaving.Progress.{left, held, MayWait, take_turn-Stepped}

-- How often it is a handler's turn.
abbrev pub turns_of : ℕ → List (ℕ × Workers) → ℕ
turns_of i [] = 0
turns_of i ((j, workers) ∷ turns) = if i == j then suc (turns_of i turns) else turns_of i turns

module _ {a : Allocator} {rx : RegexCrate} {fs : FileSystem} where
  -- The calls that a worker was made for.
  abbrev pub held_by : List (Handler a rx fs) → ℕ
  held_by = total held

  abbrev left_at : List (Handler a rx fs) → ℕ → ℕ
  left_at [] i = 0
  left_at (h ∷ hs) zero = left h
  left_at (h ∷ hs) (suc i) = left_at hs i

  left_at-set :
      (hs : List (Handler a rx fs)) (i j : ℕ) (h h' : Handler a rx fs)
      → get_elem? hs i ≡ some h
      → left h' ≤ left h - 1
      → (left_at (set hs i h') j ≤ left_at hs j)
        × (j ≡ i → left_at (set hs i h') j ≤ left_at hs j - 1)
  left_at-set [] i j h h' e l = absurd (cc)
  left_at-set (x ∷ hs) zero zero h h' e l =
      let first = ap left (some-injective x h e) in (omega arith, λ q. omega arith)
  left_at-set (x ∷ hs) zero (suc j) h h' e l = (omega arith, λ q. omega arith)
  left_at-set (x ∷ hs) (suc i) zero h h' e l = (omega arith, λ q. omega arith)
  left_at-set (x ∷ hs) (suc i) (suc j) h h' e l =
      let (below, own) = left_at-set hs i j h h' e l in (below, λ q. own (omega arith))

  abbrev MayWaitAt : List (Handler a rx fs) → ℕ → Type 0
  MayWaitAt [] i = ⊥
  MayWaitAt (h ∷ hs) zero = MayWait h
  MayWaitAt (h ∷ hs) (suc i) = MayWaitAt hs i

  MayWaitAt-set :
      (hs : List (Handler a rx fs)) (i j : ℕ) (h h' : Handler a rx fs)
      → get_elem? hs i ≡ some h
      → (MayWait h' → MayWait h)
      → MayWaitAt (set hs i h') j
      → MayWaitAt hs j
  MayWaitAt-set [] i j h h' e back w = w
  MayWaitAt-set (x ∷ hs) zero zero h h' e back w =
      subst MayWait (sym (some-injective x h e)) (back w)
  MayWaitAt-set (x ∷ hs) zero (suc j) h h' e back w = w
  MayWaitAt-set (x ∷ hs) (suc i) zero h h' e back w = w
  MayWaitAt-set (x ∷ hs) (suc i) (suc j) h h' e back w = MayWaitAt-set hs i j h h' e back w

  MayWaitAt-get_elem? :
      (hs : List (Handler a rx fs)) (i : ℕ) (h : Handler a rx fs)
      → get_elem? hs i ≡ some h
      → MayWaitAt hs i ≡ MayWait h
  MayWaitAt-get_elem? [] i h e = absurd (cc)
  MayWaitAt-get_elem? (x ∷ hs) zero h e = ap MayWait (some-injective x h e)
  MayWaitAt-get_elem? (x ∷ hs) (suc i) h e = MayWaitAt-get_elem? hs i h e

  left_at-none : (hs : List (Handler a rx fs)) (i : ℕ) → get_elem? hs i ≡ none → left_at hs i ≡ 0
  left_at-none [] i e = refl
  left_at-none (x ∷ hs) zero e = absurd (cc)
  left_at-none (x ∷ hs) (suc i) e = left_at-none hs i e

  left_at-own :
      (hs : List (Handler a rx fs)) (i j : ℕ) → get_elem? hs i ≡ none → j ≡ i → left_at hs j ≡ 0
  left_at-own hs i j e q = left_at-none hs j (subst (λ k. get_elem? hs k ≡ none) (sym q) e)

  left-rendered :
      (h : Handler a rx fs) → left h ≡ 0 → (page : Rendered a rx fs) × (h ≡ rendered page)
  left-rendered (started call) e = absurd (omega arith)
  left-rendered (placed pod wrk reply answer) e = absurd (omega arith)
  left-rendered (rendered page) e = (page, refl)

  left-le : (h : Handler a rx fs) → left h ≤ 2
  left-le (started call) = omega arith
  left-le (placed pod wrk reply answer) = omega arith
  left-le (rendered page) = omega arith

  left_at-le : (hs : List (Handler a rx fs)) (i : ℕ) → left_at hs i ≤ 2
  left_at-le [] i = omega arith
  left_at-le (h ∷ hs) zero = left-le h
  left_at-le (h ∷ hs) (suc i) = left_at-le hs i

  -- A handler with no turn left has its page.
  left_at-rendered :
      (hs : List (Handler a rx fs)) (i : ℕ)
      → i < length hs
      → left_at hs i ≡ 0
      → (page : Rendered a rx fs) × (get_elem? hs i ≡ some (rendered page))
  left_at-rendered [] i l e = absurd (omega arith)
  left_at-rendered (x ∷ hs) zero l e = let (page, q) = left-rendered x e in (page, ap some q)
  left_at-rendered (x ∷ hs) (suc i) l e = left_at-rendered hs i (omega arith) e

module _ (a : Allocator) (rx : RegexCrate) (fs : FileSystem) where
  held_by-started :
      (calls : List Call) → held_by {a = a} {rx = rx} {fs = fs} (map started calls) ≡ 0
  held_by-started [] = refl
  held_by-started (call ∷ calls) = omega (arith, held_by-started calls)

module _ (a : Allocator) (rx : RegexCrate) (fs : FileSystem) (names : WorkerNameRegex rx)
    (files : WorkerFiles fs) where
  -- All turns go through: each leaves its handler one turn less, and the calls that hold a worker
  -- are no more than the workers that were made.
  pub record Rushed (turns : List (ℕ × Workers)) (hs : List (Handler a rx fs))
      (s : Serverless a rx fs) : Type 0 where
    pub handlers : List (Handler a rx fs)
    pub after : Serverless a rx fs
    pub more : ℕ
    pub result : run_handlers a rx fs turns hs s ≡ returns (handlers, after)
    pub grows : Grows a rx fs names files more s after
    pub same : length handlers ≡ length hs
    pub holds : held_by handlers ≤ more + held_by hs
    pub waits : (i : ℕ) → MayWaitAt handlers i → MayWaitAt hs i
    pub less : (i : ℕ) → left_at handlers i ≤ left_at hs i - turns_of i turns

  pub run_handlers-Rushed :
      (turns : List (ℕ × Workers)) (hs : List (Handler a rx fs)) (s : Serverless a rx fs)
      → IsSound a rx fs names files s
      → Rushed turns hs s
  unfolding run_handlers
  run_handlers-Rushed [] hs s sound = record {
    handlers = hs;
    after = s;
    more = 0;
    result = refl;
    grows = unchanged-Grows a rx fs names files s sound;
    same = refl;
    holds = omega arith;
    waits = λ i w. w;
    less = λ i. omega arith;
  }
  run_handlers-Rushed ((i, workers) ∷ turns) hs s sound = elim (Option-cases (get_elem? hs i)) [
    | inl e ↦
        let r = run_handlers-Rushed turns hs s sound in
        record {
          handlers = r.handlers;
          after = r.after;
          more = r.more;
          result = rw (e, run_handlers) r.result;
          grows = r.grows;
          same = r.same;
          holds = r.holds;
          waits = r.waits;
          less = λ j.
              let others = r.less j in
              elim (Bool-cases (j == i)) [
                | inl q ↦ let own = left_at-own hs i j e ((==_iff j i).0 q) in rw q (omega arith)
                | inr q ↦ rw q others
              ];
        }
    | inr (h, e) ↦
        let one = take_turn-Stepped a rx fs names files workers h s sound in
        let r = run_handlers-Rushed turns (set hs i one.handler) one.after one.grows.sound in
        record {
          handlers = r.handlers;
          after = r.after;
          more = one.more + r.more;
          result = rw (e, run_handlers) (rw one.result r.result);
          grows =
              join-Grows a rx fs names files one.more r.more s one.after r.after one.grows r.grows;
          same = r.same ∙ length-set hs i one.handler;
          holds =
              let first = one.holds in
              let others = r.holds in omega (arith, total-set held hs i h one.handler e);
          waits = λ j w. MayWaitAt-set hs i j h one.handler e one.waits (r.waits j w);
          less = λ j.
              let others = r.less j in
              let (below, own) = left_at-set hs i j h one.handler e one.less in
              elim (Bool-cases (j == i)) [
                | inl q ↦ let mine = own ((==_iff j i).0 q) in rw q (omega arith)
                | inr q ↦ rw q (omega arith)
              ];
        }
  ]

  -- Two turns are enough for any handler.
  pub Rushed-rendered :
      {turns : List (ℕ × Workers)} {hs : List (Handler a rx fs)} {s : Serverless a rx fs}
      (r : Rushed turns hs s) (i : ℕ)
      → i < length hs
      → 2 ≤ turns_of i turns
      → (page : Rendered a rx fs) × (get_elem? r.handlers i ≡ some (rendered page))
  Rushed-rendered {turns} {hs} r i l two =
      let less = r.less i in
      let first = left_at-le hs i in
      left_at-rendered r.handlers i (let same = r.same in omega arith) (omega arith)

  -- From a fresh start with n threads of m workers each, the runtime serves HTTP requests that come
  -- at once without a panic, a hang or undefined behaviour however their turns fall. After the turns
  -- each call that had at least two of them has rendered its page, or waits for a reply of a worker
  -- that never replies; and however many calls there are
  -- for worker pages, those that wait for their worker or have its answer are at most as many as n
  -- tables of the capacity that `Vec::with_capacity(m)` gives have places.
  pub run_handlers-exhaust :
      (n m : ℕ) (store : Store rx fs) (turns : List (ℕ × Workers)) (calls : List Call)
      → IsCached rx fs names files store
      → (handlers : List (Handler a rx fs)) × (after : Serverless a rx fs) × (run_handlers a rx fs
            turns
            (map started calls)
            (start_pods a rx fs (new a rx fs n m store))
          ≡ returns (handlers, after))
        × (held_by handlers ≤ n * a.with_capacity m)
        × ((i : ℕ) (call : Call)
            → get_elem? calls i ≡ some call
            → 2 ≤ turns_of i turns
            → (page : Rendered a rx fs) × (get_elem? handlers i ≡ some (rendered page))
              × (page ≡ awaiting → IsSilent call))
  unfolding new start_pods
  run_handlers-exhaust n m store turns calls c =
      let s = start_pods a rx fs (new a rx fs n m store) in
      let r =
        run_handlers-Rushed turns (map started calls) s
          (start_pods-IsSound a rx fs names files n m store c) in
      let fits = sound_bound a rx fs names files r.after r.grows.sound in
      let bound =
        subst₂ (λ t w. total_load r.after.pods ≤ t * a.with_capacity w) r.grows.same_threads
          r.grows.same_workers fits in
      let grown = r.grows.grown in
      let holds = r.holds in
      (
        r.handlers,
        r.after,
        r.result,
        omega (arith, held_by-started a rx fs calls),
        λ i call at two.
            let there = get_elem?-map started calls i call at in
            let (page, e) = Rushed-rendered r i (lt_of_get_elem? (map started calls) i there) two in
            (
              page,
              e,
              λ q.
                  subst (λ t. t) (MayWaitAt-get_elem? (map started calls) i (started call) there)
                    (r.waits i (
                      subst (λ t. t) (sym (MayWaitAt-get_elem? r.handlers i (rendered page) e))
                        (subst (λ p. MayWait (rendered p)) (sym q) tt))),
            ),
      )
