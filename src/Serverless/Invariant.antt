-- ===== src/Serverless/Invariant.antt =====
-- What holds of the runtime of src/runtime/serverless between two events of its task.
use mathlib.Core.Path.{subst, subst₂}
use serverlessd.Prelude.{
  ℕ, zero, suc, ◌*◌, ◌≤◌, ◌≡◌, refl, ap, ◌∙◌, List, [], ◌∷◌, Option, none, some, length, get_elem?,
  set, replicate, length-set, length-replicate, All, All-set, All-get_elem?, returns, inl, inr,
  Option-cases,
}
use serverlessd.Prelude.Text.{Str}
use serverlessd.Pod.{Allocator, WorkerTask, WorkerTrigger, to_worker, http}
use serverlessd.Pod.Client
use serverlessd.Pod.Client.{PodHandle}
use serverlessd.Pod.Client.Ready.{
  IsReady, start-IsReady, trigger-IsReady, forwarded_to, forwarded_to-IsReady,
}
use serverlessd.CodeStore.{RegexCrate, FileSystem, Store, get_worker_code}
use serverlessd.CodeStore.Names.{WorkerNameRegex, WorkerFiles}
use serverlessd.CodeStore.Laws.{
  IsCached, get_worker_code-IsCached, remove_worker_code-IsCached, upload_worker_code-IsCached,
}
use serverlessd.Serverless.{
  Workers, Request, create_worker_request, upload_worker_request, remove_worker_request,
  send_http_request, request_trigger, ServerlessTrigger, ServerlessReply, Serverless, Event, Exit,
  triggered, waiting, new, serve, run, serverless_task, start_pods, pass_to_pod, create_worker,
  create_worker_from, worker_created, unanswered, result_err, upload_error,
}
use serverlessd.Serverless.Scheduling.{total_load}
use serverlessd.Serverless.Capacity.{total_load_le, create_worker-Placed}

pass_to_pod-IsReady :
    (a : Allocator) (n : ℕ) (workers : Workers) (id wid : ℕ) (t : WorkerTrigger)
    (hs : List PodHandle)
    → All (IsReady a n) hs
    → (hs' : List PodHandle) × (pass_to_pod a workers id (to_worker wid t) hs ≡ returns hs')
      × All (IsReady a n) hs'
      × (length hs' ≡ length hs)
unfolding pass_to_pod
pass_to_pod-IsReady a n workers id wid t hs r = elim (Option-cases (get_elem? hs id)) [
  | inl e ↦ (hs, rw (e, pass_to_pod), r, refl)
  | inr (h, e) ↦
      let ready = All-get_elem? (IsReady a n) hs id h r e in
      let h' = forwarded_to a n (workers id) wid t h in
      (
        set hs id h',
        rw (e, pass_to_pod) (rw (trigger-IsReady a n (workers id) wid t h ready)),
        All-set (IsReady a n) hs id h' r (forwarded_to-IsReady a n (workers id) wid t h ready),
        length-set hs id h',
      )
]

create_worker-IsReady :
    (a : Allocator) (n : ℕ) (workers : Workers) (task : WorkerTask) (hs : List PodHandle)
    → All (IsReady a n) hs
    → (o : Option (ℕ × ℕ)) × (hs' : List PodHandle) × (create_worker a workers task hs
        ≡ returns (o, hs'))
      × All (IsReady a n) hs'
      × (length hs' ≡ length hs)
create_worker-IsReady a n workers task hs r = elim (create_worker-Placed a n workers task hs r) [
  | inl (full, e) ↦ (none, hs, e, r, refl)
  | inr p ↦ (_, _, p.result, p.ready, length-set hs p.pod_id _)
]

module _ (a : Allocator) (rx : RegexCrate) (fs : FileSystem) (names : WorkerNameRegex rx)
    (files : WorkerFiles fs) where
  pub record IsSound (s : Serverless a rx fs) : Type 0 where
    pub ready : All (IsReady a s.n_workers) s.pods
    pub threads : length s.pods ≡ s.n_threads
    pub cached : IsCached rx fs names files s.code_store

  -- The trigger was served, the runtime is sound again, and its configuration has not changed.
  pub record Served (workers : Workers) (t : ServerlessTrigger) (s : Serverless a rx fs)
      : Type 0 where
    pub reply : ServerlessReply a rx fs
    pub after : Serverless a rx fs
    pub result : serve a rx fs workers t s ≡ returns (reply, after)
    pub sound : IsSound after
    pub same_threads : after.n_threads ≡ s.n_threads
    pub same_workers : after.n_workers ≡ s.n_workers

  create_worker_from-Served :
      (workers : Workers) (source : Option Str) (s : Serverless a rx fs)
      → IsSound s
      → (reply : ServerlessReply a rx fs) × (after : Serverless a rx fs) × (create_worker_from a rx
            fs workers source s
          ≡ returns (reply, after))
        × IsSound after
        × (after.n_threads ≡ s.n_threads)
        × (after.n_workers ≡ s.n_workers)
  unfolding create_worker_from
  create_worker_from-Served workers none s h = (_, s, refl, h, refl, refl)
  create_worker_from-Served workers (some source) s h =
      let (o, hs, e, r, l) =
        create_worker-IsReady a s.n_workers workers (record { source = source }) s.pods h.ready in
      (
        worker_created o,
        record s { pods = hs },
        rw e,
        record { ready = r; threads = l ∙ h.threads; cached = h.cached },
        refl,
        refl,
      )

  -- Whatever a client asks, a sound runtime serves it without a panic, a hang or a broken
  -- `unsafe` contract, and stays sound.
  pub serve-Served :
      (workers : Workers) (q : Request) (s : Serverless a rx fs)
      → IsSound s
      → Served workers (request_trigger q) s
  unfolding serve request_trigger
  serve-Served workers (create_worker_request name) s h =
      let got = get_worker_code rx fs name s.code_store in
      let (reply, after, e, sound, threads, per_pod) =
        create_worker_from-Served workers got.0 (record s { code_store = got.1 })
          (record {
            ready = h.ready;
            threads = h.threads;
            cached = get_worker_code-IsCached rx fs names files name s.code_store h.cached;
          }) in
      record {
        reply = reply;
        after = after;
        result = e;
        sound = sound;
        same_threads = threads;
        same_workers = per_pod;
      }
  serve-Served workers (upload_worker_request name code) s h =
      let (r, store, e, c) =
        upload_worker_code-IsCached rx fs names files name code s.code_store h.cached in
      record {
        reply = upload_error (result_err a rx fs r);
        after = record s { code_store = store };
        result = rw e;
        sound = record { ready = h.ready; threads = h.threads; cached = c };
        same_threads = refl;
        same_workers = refl;
      }
  serve-Served workers (remove_worker_request name) s h = record {
    reply = unanswered;
    after = _;
    result = refl;
    sound = record {
      ready = h.ready;
      threads = h.threads;
      cached = remove_worker_code-IsCached rx fs names files name s.code_store h.cached;
    };
    same_threads = refl;
    same_workers = refl;
  }
  serve-Served workers (send_http_request pod wrk reply) s h =
      let (hs, e, r, l) =
        pass_to_pod-IsReady a s.n_workers workers pod wrk (http reply) s.pods h.ready in
      record {
        reply = unanswered;
        after = record s { pods = hs };
        result = rw e;
        sound = record { ready = r; threads = l ∙ h.threads; cached = h.cached };
        same_threads = refl;
        same_workers = refl;
      }

  -- A client's calls, as events of the task.
  abbrev pub requests : List (Request × Workers) → List (Event a rx fs × Workers)
  requests [] = []
  requests ((q, workers) ∷ rest) = (triggered (request_trigger q), workers) ∷ requests rest

  -- The loop served every call and waits for the next.
  pub record Serving (rs : List (Request × Workers)) (s : Serverless a rx fs) : Type 0 where
    pub exit : Exit a rx fs
    pub result : run a rx fs (requests rs) s ≡ returns exit
    pub status : exit.status ≡ waiting
    pub answered : length exit.replies ≡ length rs
    pub sound : IsSound exit.final
    pub same_threads : exit.final.n_threads ≡ s.n_threads
    pub same_workers : exit.final.n_workers ≡ s.n_workers

  pub run-Serving :
      (rs : List (Request × Workers)) (s : Serverless a rx fs) → IsSound s → Serving rs s
  unfolding run
  run-Serving [] s h = record {
    exit = record { status = waiting; replies = []; final = s };
    result = refl;
    status = refl;
    answered = refl;
    sound = h;
    same_threads = refl;
    same_workers = refl;
  }
  run-Serving ((q, workers) ∷ rs) s h =
      let first = serve-Served workers q s h in
      let rest = run-Serving rs first.after first.sound in
      record {
        exit = record rest.exit { replies = first.reply ∷ rest.exit.replies };
        result = rw first.result (rw rest.result);
        status = rest.status;
        answered = ap suc rest.answered;
        sound = rest.sound;
        same_threads = rest.same_threads ∙ first.same_threads;
        same_workers = rest.same_workers ∙ first.same_workers;
      }

  replicate-All : (n m : ℕ) → All (IsReady a m) (replicate n (Client.start a m))
  replicate-All zero m = tt
  replicate-All (suc n) m = (start-IsReady a m, replicate-All n m)

  pub start_pods-IsSound :
      (n m : ℕ) (store : Store rx fs)
      → IsCached rx fs names files store
      → IsSound (start_pods a rx fs (new a rx fs n m store))
  unfolding start_pods new
  start_pods-IsSound n m store c = record {
    ready = replicate-All n m;
    threads = length-replicate n (Client.start a m);
    cached = c;
  }

  pub sound_bound :
      (s : Serverless a rx fs)
      → IsSound s
      → total_load s.pods ≤ s.n_threads * a.with_capacity s.n_workers
  sound_bound s h =
      subst (λ t. total_load s.pods ≤ t * a.with_capacity s.n_workers) h.threads
        (total_load_le a s.n_workers s.pods h.ready)

  -- From a fresh start with n threads of m workers each, any calls of the clients are all served,
  -- the task goes on waiting, and the pods never hold more workers than n tables of the capacity
  -- that `Vec::with_capacity(m)` gives.
  pub serverless_task_serves :
      (n m : ℕ) (store : Store rx fs) (rs : List (Request × Workers))
      → IsCached rx fs names files store
      → (exit : Exit a rx fs) × (serverless_task a rx fs (requests rs) (new a rx fs n m store)
          ≡ returns exit)
        × (exit.status ≡ waiting)
        × (length exit.replies ≡ length rs)
        × (length exit.final.pods ≡ n)
        × (total_load exit.final.pods ≤ n * a.with_capacity m)
  unfolding serverless_task new
  serverless_task_serves n m store rs c =
      let s = start_pods a rx fs (new a rx fs n m store) in
      let serving = run-Serving rs s (start_pods-IsSound n m store c) in
      let bound =
        subst₂ (λ t w. total_load serving.exit.final.pods ≤ t * a.with_capacity w)
          serving.same_threads serving.same_workers
          (sound_bound serving.exit.final serving.sound) in
      (
        serving.exit,
        serving.result,
        serving.status,
        serving.answered,
        serving.sound.threads ∙ serving.same_threads,
        bound,
      )
