-- ===== src/App/Growth.antt =====
-- What each call of src/runtime/serverless/handle.rs does to the number of workers.
use mathlib.Core.Option.{some-injective}
use serverlessd.Prelude.{
  ℕ, zero, suc, ◌+◌, ◌≡◌, refl, ap, ◌∙◌, List, [], ◌∷◌, Option, none, some, get_elem?, set,
  length-set, All-set, All-get_elem?, returns, inl, inr, Option-cases, arith,
}
use serverlessd.Prelude.Text.{Str}
use serverlessd.Pod.{Allocator, ReplyTo, http}
use serverlessd.Pod.Client.{PodHandle}
use serverlessd.Pod.Client.Ready
use serverlessd.Pod.Client.Ready.{
  IsReady, load, trigger-IsReady, forwarded_to, forwarded_to-IsReady, load-forwarded_to,
}
use serverlessd.CodeStore.{RegexCrate, FileSystem, get_worker_code}
use serverlessd.CodeStore.Names.{WorkerNameRegex, WorkerFiles}
use serverlessd.CodeStore.Laws.{
  get_worker_code-IsCached, remove_worker_code-IsCached, upload_worker_code-IsCached,
}
use serverlessd.Serverless.{
  Workers, create_worker_request, upload_worker_request, remove_worker_request, send_http_request,
  request_trigger, Serverless, serve, pass_to_pod, create_worker_from, worker_created, unanswered,
  upload_error, result_err,
}
use serverlessd.Serverless.Scheduling.{total_load}
use serverlessd.Serverless.Capacity.{create_worker-Placed}
use serverlessd.Serverless.Invariant.{IsSound}
use serverlessd.App.{CodeStoreError, Bytes}

total_load-set_same :
    (hs : List PodHandle) (i : ℕ) (h k : PodHandle)
    → get_elem? hs i ≡ some h
    → load k ≡ load h
    → total_load (set hs i k) ≡ total_load hs
unfolding total_load
total_load-set_same [] i h k e l = absurd (cc)
total_load-set_same (x ∷ hs) zero h k e l = omega (arith, ap load (some-injective x h e))
total_load-set_same (x ∷ hs) (suc i) h k e l = omega (arith, total_load-set_same hs i h k e l)

-- A new worker counts for one.
abbrev pub gained : Option (ℕ × ℕ) → ℕ
gained none = 0
gained (some place) = 1

module _ (a : Allocator) (rx : RegexCrate) (fs : FileSystem) (names : WorkerNameRegex rx)
    (files : WorkerFiles fs) where
  -- A step after which the runtime is sound under the same configuration, with so many workers.
  pub record Grows (more : ℕ) (s after : Serverless a rx fs) : Type 0 where
    pub sound : IsSound a rx fs names files after
    pub same_threads : after.n_threads ≡ s.n_threads
    pub same_workers : after.n_workers ≡ s.n_workers
    pub grown : total_load after.pods ≡ more + total_load s.pods

  pub unchanged-Grows : (s : Serverless a rx fs) → IsSound a rx fs names files s → Grows 0 s s
  unchanged-Grows s h = record {
    sound = h;
    same_threads = refl;
    same_workers = refl;
    grown = omega arith;
  }

  create_worker_from-Grows :
      (workers : Workers) (source : Option Str) (s : Serverless a rx fs)
      → IsSound a rx fs names files s
      → (o : Option (ℕ × ℕ)) × (after : Serverless a rx fs) × (create_worker_from a rx fs workers
            source s
          ≡ returns (worker_created o, after))
        × Grows (gained o) s after
  unfolding create_worker_from
  create_worker_from-Grows workers none s h = (none, s, refl, unchanged-Grows s h)
  create_worker_from-Grows workers (some source) s h =
      elim (create_worker-Placed a s.n_workers workers (record { source = source }) s.pods
        h.ready) [
          | inl (full, e) ↦ (none, s, rw e, unchanged-Grows s h)
          | inr p ↦ (
            some (p.pod_id, load p.pod),
            record s {
              pods =
                  set s.pods p.pod_id (
                    Ready.grown a s.n_workers (workers p.pod_id) (record { source = source })
                      p.pod);
            },
            rw p.result,
            record {
              sound = record {
                ready = p.ready;
                threads = length-set s.pods p.pod_id _ ∙ h.threads;
                cached = h.cached;
              };
              same_threads = refl;
              same_workers = refl;
              grown = let one = p.one_more in omega arith;
            },
          )
        ]

  -- A creation, which reads the source first.
  pub create-Grows :
      (workers : Workers) (name : Str) (s : Serverless a rx fs)
      → IsSound a rx fs names files s
      → (o : Option (ℕ × ℕ)) × (after : Serverless a rx fs) × (serve a rx fs workers
            (request_trigger (create_worker_request name))
            s
          ≡ returns (worker_created o, after))
        × Grows (gained o) s after
  unfolding serve request_trigger
  create-Grows workers name s h =
      let got = get_worker_code rx fs name s.code_store in
      let (o, after, e, g) =
        create_worker_from-Grows workers got.0 (record s { code_store = got.1 })
          (record {
            ready = h.ready;
            threads = h.threads;
            cached = get_worker_code-IsCached rx fs names files name s.code_store h.cached;
          }) in
      (
        o,
        after,
        e,
        record {
          sound = g.sound;
          same_threads = g.same_threads;
          same_workers = g.same_workers;
          grown = g.grown;
        },
      )

  -- A request that is passed on to a worker.
  pub send-Grows :
      (workers : Workers) (pod wrk : ℕ) (reply : ReplyTo) (s : Serverless a rx fs)
      → IsSound a rx fs names files s
      → (after : Serverless a rx fs) × (serve a rx fs workers
            (request_trigger (send_http_request pod wrk reply))
            s
          ≡ returns (unanswered, after))
        × Grows 0 s after
  unfolding serve request_trigger pass_to_pod
  send-Grows workers pod wrk reply s h = elim (Option-cases (get_elem? s.pods pod)) [
    | inl e ↦ (s, rw (e, pass_to_pod), unchanged-Grows s h)
    | inr (p, e) ↦
        let ready = All-get_elem? (IsReady a s.n_workers) s.pods pod p h.ready e in
        let p' = forwarded_to a s.n_workers (workers pod) wrk (http reply) p in
        (
          record s { pods = set s.pods pod p' },
          rw (e, pass_to_pod)
              (rw (trigger-IsReady a s.n_workers (workers pod) wrk (http reply) p ready)),
          record {
            sound = record {
              ready =
                  All-set (IsReady a s.n_workers) s.pods pod p' h.ready
                    (forwarded_to-IsReady a s.n_workers (workers pod) wrk (http reply) p ready);
              threads = length-set s.pods pod p' ∙ h.threads;
              cached = h.cached;
            };
            same_threads = refl;
            same_workers = refl;
            grown =
                let same_load = load-forwarded_to a s.n_workers (workers pod) wrk (http reply) p in
                omega (arith, total_load-set_same s.pods pod p p' e same_load);
          },
        )
  ]

  -- Uploads and removals leave the pods alone.
  pub upload-Grows :
      (workers : Workers) (name : Str) (code : Bytes) (s : Serverless a rx fs)
      → IsSound a rx fs names files s
      → (r : Option (CodeStoreError rx fs)) × (after : Serverless a rx fs) × (serve a rx fs workers
            (request_trigger (upload_worker_request name code))
            s
          ≡ returns (upload_error r, after))
        × Grows 0 s after
  unfolding serve request_trigger
  upload-Grows workers name code s h =
      let (r, store, e, c) =
        upload_worker_code-IsCached rx fs names files name code s.code_store h.cached in
      (
        result_err a rx fs r,
        record s { code_store = store },
        rw e,
        record {
          sound = record { ready = h.ready; threads = h.threads; cached = c };
          same_threads = refl;
          same_workers = refl;
          grown = omega arith;
        },
      )

  pub remove-Grows :
      (workers : Workers) (name : Str) (s : Serverless a rx fs)
      → IsSound a rx fs names files s
      → (after : Serverless a rx fs) × (serve a rx fs workers
            (request_trigger (remove_worker_request name))
            s
          ≡ returns (unanswered, after))
        × Grows 0 s after
  unfolding serve request_trigger
  remove-Grows workers name s h = (
    _,
    refl,
    record {
      sound = record {
        ready = h.ready;
        threads = h.threads;
        cached = remove_worker_code-IsCached rx fs names files name s.code_store h.cached;
      };
      same_threads = refl;
      same_workers = refl;
      grown = omega arith;
    },
  )

  pub join-Grows :
      (n m : ℕ) (s s' s'' : Serverless a rx fs)
      → Grows n s s'
      → Grows m s' s''
      → Grows (n + m) s s''
  join-Grows n m s s' s'' g g' = record {
    sound = g'.sound;
    same_threads = g'.same_threads ∙ g.same_threads;
    same_workers = g'.same_workers ∙ g.same_workers;
    grown = let first = g.grown in let second = g'.grown in omega arith;
  }
