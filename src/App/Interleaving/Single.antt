-- ===== src/App/Interleaving/Single.antt =====
-- However the turns of src/runtime/serverless/app.rs fall, no worker is asked twice.
use mathlib.Core.List.{map}
use mathlib.Core.Option.{some-injective}
use serverlessd.Prelude.{
  ℕ, suc, ◌≤◌, ◌≡◌, refl, sym, ap, ◌∙◌, List, [], ◌∷◌, some, get_elem?, set, zero, returns, inl,
  inr, Option-cases, arith, total, replicate,
}
use serverlessd.Pod.{Allocator}
use serverlessd.Pod.Client
use serverlessd.Pod.Client.{PodHandle}
use serverlessd.Pod.Client.Ready.{sent-start}
use serverlessd.CodeStore.{RegexCrate, FileSystem, Store}
use serverlessd.CodeStore.Names.{WorkerNameRegex, WorkerFiles}
use serverlessd.CodeStore.Laws.{IsCached}
use serverlessd.Serverless.{Workers, Serverless, new, start_pods}
use serverlessd.Serverless.Invariant.{IsSound, start_pods-IsSound}
use serverlessd.App.{Call}
use serverlessd.App.Interleaving.{Handler, started, run_handlers}
use serverlessd.App.Interleaving.Once.{asked, asks, AsksOnce}
use serverlessd.App.Interleaving.Asking.{take_turn-Turned}

module _ (a : Allocator) (rx : RegexCrate) (fs : FileSystem) (names : WorkerNameRegex rx)
    (files : WorkerFiles fs) where
  record Asked (turns : List (ℕ × Workers)) (hs : List (Handler a rx fs)) (s : Serverless a rx fs)
      : Type 0 where
    handlers : List (Handler a rx fs)
    after : Serverless a rx fs
    result : run_handlers a rx fs turns hs s ≡ returns (handlers, after)
    once : AsksOnce handlers after.pods

  run_handlers-Asked :
      (turns : List (ℕ × Workers)) (hs : List (Handler a rx fs)) (s : Serverless a rx fs)
      → IsSound a rx fs names files s
      → AsksOnce hs s.pods
      → Asked turns hs s
  unfolding run_handlers
  run_handlers-Asked [] hs s h once = record {
    handlers = hs;
    after = s;
    result = refl;
    once = once;
  }
  run_handlers-Asked ((i, workers) ∷ turns) hs s h once = elim (Option-cases (get_elem? hs i)) [
    | inl e ↦
        let r = run_handlers-Asked turns hs s h once in
        record {
          handlers = r.handlers;
          after = r.after;
          result = rw (e, run_handlers) r.result;
          once = r.once;
        }
    | inr (k, e) ↦
        let one = take_turn-Turned a rx fs names files workers k i hs s h e once in
        let r = run_handlers-Asked turns (set hs i one.handler) one.after one.sound one.once in
        record {
          handlers = r.handlers;
          after = r.after;
          result = rw (e, run_handlers) (rw one.result r.result);
          once = r.once;
        }
  ]

  asks-started :
      (pod wrk : ℕ) (calls : List Call)
      → total (asks {a = a} {rx = rx} {fs = fs} pod wrk) (map started calls) ≡ 0
  asks-started pod wrk [] = refl
  asks-started pod wrk (call ∷ calls) = omega (arith, asks-started pod wrk calls)

  get_elem?-replicate :
      (n pod : ℕ) (h p : PodHandle) → get_elem? (replicate n h) pod ≡ some p → h ≡ p
  get_elem?-replicate zero pod h p e = absurd (cc)
  get_elem?-replicate (suc n) zero h p e = some-injective h p e
  get_elem?-replicate (suc n) (suc pod) h p e = get_elem?-replicate n pod h p e

  -- From a fresh start, however the turns of HTTP requests that are served at once fall, no worker
  -- is ever sent more than one request: each page has a worker of its own.
  pub run_handlers-asks_once :
      (n m : ℕ) (store : Store rx fs) (turns : List (ℕ × Workers)) (calls : List Call)
      → IsCached rx fs names files store
      → (handlers : List (Handler a rx fs)) × (after : Serverless a rx fs) × (run_handlers a rx fs
            turns
            (map started calls)
            (start_pods a rx fs (new a rx fs n m store))
          ≡ returns (handlers, after))
        × ((pod wrk : ℕ) (p : PodHandle)
            → get_elem? after.pods pod ≡ some p
            → asked wrk p.pod.sent ≤ 1)
  unfolding new start_pods
  run_handlers-asks_once n m store turns calls c =
      let s = start_pods a rx fs (new a rx fs n m store) in
      let r =
        run_handlers-Asked turns (map started calls) s
          (start_pods-IsSound a rx fs names files n m store c)
          (record {
            each = λ pod wrk p at.
                let none_yet = asks-started pod wrk calls in
                let fresh = get_elem?-replicate n pod (Client.start a m) p at in
                let unsent =
                  ap (λ q. asked wrk q.pod.sent) (sym fresh) ∙ ap (asked wrk) (sent-start a m) in
                omega arith;
          }) in
      (
        r.handlers,
        r.after,
        r.result,
        λ pod wrk p at. let bound = r.once.each pod wrk p at in ground arith,
      )
