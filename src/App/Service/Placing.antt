-- ===== src/App/Service/Placing.antt =====
-- The place of a worker page (src/runtime/serverless/app.rs): whether there is one, and why not.
use mathlib.Core.Path.{ap₂}
use serverlessd.Prelude.{
  [], ◌∷◌, ◌++◌, get_elem?, set, ℕ, ◌+◌, ◌*◌, ◌≡◌, refl, sym, ap, ◌∙◌, subst, Option, none, some,
  returns, returns-injective, arith, inl, inr, Option-cases,
}
use serverlessd.Prelude.Text.{Str, codes}
use serverlessd.Pod.{Allocator, ReplyTo}
use serverlessd.Pod.Client.{PodHandle}
use serverlessd.Pod.Table.{with_worker}
use serverlessd.CodeStore.{RegexCrate, FileSystem, get_worker_code}
use serverlessd.CodeStore.Names.{WorkerNameRegex, WorkerFiles}
use serverlessd.Serverless.{
  Workers, Serverless, create_worker_request, request_trigger, serve, create_worker_from,
  worker_created,
}
use serverlessd.Serverless.Capacity.{create_worker-Placed, total_load_full}
use serverlessd.Serverless.Invariant.{IsSound, sound_bound}
use serverlessd.Pod.Client.Ready.{load}
use serverlessd.App.{WorkerReply, dropped, replied, silent, get_worker_page, executed, errored}
use serverlessd.App.Growth.{Grows}
use serverlessd.App.Service.{
  view, SameSources, Serves, answered, unanswered, awaited, unknown, full,
}

module _ (a : Allocator) (rx : RegexCrate) (fs : FileSystem) (names : WorkerNameRegex rx)
    (files : WorkerFiles fs) where
  -- The places that a step takes.
  free-Grows :
      (more : ℕ) (s after : Serverless a rx fs)
      → Grows a rx fs names files more s after
      → (view a rx fs s).free ≡ more + (view a rx fs after).free
  free-Grows more s after g =
      let bound = sound_bound a rx fs names files after g.sound in
      let same : after.n_threads * a.with_capacity after.n_workers
          ≡ s.n_threads * a.with_capacity s.n_workers =
        ap₂ (λ t w. t * a.with_capacity w) g.same_threads g.same_workers in
      let grown = g.grown in omega arith

  -- The worker of a page: whether there is one, and why not. A new worker is the next of its pod, and
  -- nothing has been sent in its place.
  pub data Placing (name : Str) (s after : Serverless a rx fs) : Option (ℕ × ℕ) → Type 0 where
    no_source :
        (view a rx fs s).source name ≡ none → after.pods ≡ s.pods → Placing name s after none
    no_room :
        {source : Str}
        → (view a rx fs s).source name ≡ some source
        → (view a rx fs s).free ≡ 0
        → after.pods ≡ s.pods
        → Placing name s after none
    found :
        {source : Str} {pod wrk : ℕ} {p : PodHandle} (p' : PodHandle)
        → (view a rx fs s).source name ≡ some source
        → get_elem? s.pods pod ≡ some p
        → wrk ≡ load p
        → after.pods ≡ set s.pods pod p'
        → p'.pod.tasks ≡ p.pod.tasks ++ record { source = source } ∷ []
        → p'.pod.sent ≡ p.pod.sent
        → Placing name s after (some (pod, wrk))

  pub serve-Placing :
      (workers : Workers) (name : Str) (s after : Serverless a rx fs) (o : Option (ℕ × ℕ))
      → IsSound a rx fs names files s
      → serve a rx fs workers (request_trigger (create_worker_request name)) s
        ≡ returns (worker_created o, after)
      → Placing name s after o
  unfolding serve request_trigger create_worker_from with_worker
  serve-Placing workers name s after o h e =
      let got = get_worker_code rx fs name s.code_store in
      let read = record s { code_store = got.1 } in
      elim (Option-cases got.0) [
        | inl q ↦
            let given =
              returns-injective (sym (ap (λ o. create_worker_from a rx fs workers o read) q) ∙ e) in
            let gone : none ≡ o = cc in
            let same = sym (ap (λ x. x.1.pods) given) in
            subst (Placing name s after) gone (no_source q same)
        | inr (source, q) ↦
            let asked = sym (ap (λ o. create_worker_from a rx fs workers o read) q) ∙ e in
            elim (create_worker-Placed a s.n_workers workers (record { source = source }) s.pods
              h.ready) [
                | inl (all, c) ↦
                    let given = returns-injective (rw c at asked) in
                    let gone : none ≡ o = cc in
                    let load = total_load_full a s.n_workers s.pods h.ready all in
                    let threads = ap (λ t. t * a.with_capacity s.n_workers) h.threads in
                    let same = sym (ap (λ x. x.1.pods) given) in
                    subst (Placing name s after) gone (no_room q (omega arith) same)
                | inr p ↦
                    let given = returns-injective (rw p.result at asked) in
                    let there : some (p.pod_id, load p.pod) ≡ o = cc in
                    let grown = sym (ap (λ x. x.1.pods) given) in
                    subst (Placing name s after) there (found _ q p.at refl grown refl refl)
              ]
      ]

  pub unplaced-Serves :
      (name : Str) (reply : ReplyTo) (answer : WorkerReply) (s after : Serverless a rx fs)
      → Placing name s after none
      → Grows a rx fs names files 0 s after
      → SameSources (view a rx fs s) (view a rx fs after)
      → Serves a rx fs
          (view a rx fs s)
          (view a rx fs after)
          (get_worker_page name reply answer)
          (errored (codes "failed to create worker"))
  unplaced-Serves name reply answer s after (no_source q _) g same =
      unknown refl q (omega (arith, free-Grows 0 s after g)) same
  unplaced-Serves name reply answer s after (no_room q none_free _) g same =
      full refl q none_free (omega (arith, free-Grows 0 s after g)) same

  pub placed-Serves :
      (name : Str) (reply : ReplyTo) (answer : WorkerReply) (pod wrk : ℕ)
      (s s' after : Serverless a rx fs)
      → Placing name s s' (some (pod, wrk))
      → Grows a rx fs names files 1 s after
      → SameSources (view a rx fs s) (view a rx fs after)
      → Serves a rx fs
          (view a rx fs s)
          (view a rx fs after)
          (get_worker_page name reply answer)
          (executed a rx fs answer)
  unfolding executed
  placed-Serves name reply dropped pod wrk s s' after (found _ q _ _ _ _ _) g same =
      unanswered refl q (omega (arith, free-Grows 1 s after g)) same
  placed-Serves name reply (replied result) pod wrk s s' after (found _ q _ _ _ _ _) g same =
      answered q (omega (arith, free-Grows 1 s after g)) same
  placed-Serves name reply silent pod wrk s s' after (found _ q _ _ _ _ _) g same =
      awaited q (omega (arith, free-Grows 1 s after g)) same
