-- ===== src/Commands/One.antt =====
-- What the command One of src/main.rs gets from a runtime with one place.
use mathlib.Core.Option.{some-injective}
use mathlib.Core.Path.{subst₂}
use serverlessd.Prelude.{
  ℕ, zero, suc, ◌*◌, ◌+◌, ◌≤◌, ◌≡◌, refl, sym, ap, ◌∙◌, inl, inr, true, List, [], ◌∷◌, Option, none,
  some, returns, Outcome, Result, ok, err, subst, arith, get_elem?, set,
}
use serverlessd.Prelude.Text.{Str}
use serverlessd.Pod.{Allocator, WorkerTask, get_worker}
use serverlessd.Pod.Client
use serverlessd.Pod.Client.{PodHandle}
use serverlessd.Pod.Client.Ready
use serverlessd.Pod.Client.Ready.{load, load-start, start_free, start-IsReady}
use serverlessd.CodeStore.{
  RegexCrate, FileSystem, Bytes, Store, CodeStoreError, upload_worker_code, get_worker_code,
}
use serverlessd.CodeStore.Names.{WorkerNameRegex, WorkerFiles, is_worker_name}
use serverlessd.CodeStore.Laws.{IsCached, get-upload_worker_code}
use serverlessd.Serverless.{
  Workers, Serverless, new, start_pods, serve, create_worker_from, request_trigger, result_err,
  worker_created, create_worker, upload_worker_request, upload_error,
}
use serverlessd.Serverless.Scheduling.{total_load}
use serverlessd.Serverless.Capacity.{create_worker-Placed}
use serverlessd.Serverless.Invariant.{IsSound, start_pods-IsSound, sound_bound}
use serverlessd.App.{Call, Rendered, answer_calls, created, uploaded}
use serverlessd.App.Growth.{Grows, gained, upload-Grows, create-Grows, join-Grows}
use serverlessd.App.Exhaustion.{worker_pages, answer_calls-AllAnswered}
use serverlessd.Commands.{
  Started, failed_to_upload, running, start_one, create_index, placed, index,
}

module _ (a : Allocator) (rx : RegexCrate) (fs : FileSystem) (names : WorkerNameRegex rx)
    (files : WorkerFiles fs) where
  -- A runtime for one worker that was just started.
  abbrev pub one_place : Store rx fs → Serverless a rx fs
  one_place store = start_pods a rx fs (new a rx fs 1 1 store)

  -- One running pod, with one worker, of this source, in its first place.
  abbrev pub IsSpawned : Str → List PodHandle → Type 0
  IsSpawned text pods =
      (h : PodHandle) × (pods ≡ h ∷ [])
      × (h.running ≡ true)
      × (h.pod.tasks ≡ record { source = text } ∷ [])
      × (get_worker 0 h.pod ≡ some 0)

  placed_in_first :
      (workers : Workers) (text : Str) (pod_id : ℕ) (pod : PodHandle)
      → get_elem? (Client.start a 1 ∷ []) pod_id ≡ some pod
      → (placed a rx fs (some (pod_id, load pod)) ≡ running 0 0)
        × IsSpawned text (
            set
              (Client.start a 1 ∷ [])
              pod_id
              (Ready.grown a 1 (workers pod_id) (record { source = text }) pod))
  unfolding placed
  placed_in_first workers text zero pod e =
      let task : WorkerTask = record { source = text } in
      let (tasks, slot) = Ready.with_first a 1 task in
      subst
        (λ h.
          (running 0 (load h) ≡ running 0 0)
          × IsSpawned text (Ready.grown a 1 (workers 0) task h ∷ []))
        (some-injective _ _ e) (ap (running 0) (load-start a 1), (_, refl, refl, tasks, slot))
  placed_in_first workers text (suc i) pod e = absurd (cc)

  create_from-running :
      (workers : Workers) (text : Str) (s : Serverless a rx fs)
      → s.pods ≡ Client.start a 1 ∷ []
      → (o : Option (ℕ × ℕ)) × (s' : Serverless a rx fs) × (create_worker_from a rx fs workers
            (some text)
            s
          ≡ returns (worker_created o, s'))
        × (placed a rx fs o ≡ running 0 0)
        × IsSpawned text s'.pods
  unfolding create_worker_from
  create_from-running workers text s e =
      let task : WorkerTask = record { source = text } in
      elim (create_worker-Placed a 1 workers task (Client.start a 1 ∷ []) (start-IsReady a 1, tt)) [
        | inl (full, _) ↦
            let free = start_free a 1 (omega arith) in let not_free = full.0 in absurd (cc)
        | inr p ↦
            let (here, spawned) = placed_in_first workers text p.pod_id p.pod p.at in
            (
              some (p.pod_id, load p.pod),
              record s {
                pods =
                    set (Client.start a 1 ∷ []) p.pod_id
                      (Ready.grown a 1 (workers p.pod_id) task p.pod);
              },
              rw (ap (create_worker a workers task) e ∙ p.result),
              here,
              spawned,
            )
      ]

  create_index-running :
      (workers : Workers) (text : Str) (s : Serverless a rx fs)
      → s.pods ≡ Client.start a 1 ∷ []
      → (get_worker_code rx fs index s.code_store).0 ≡ some text
      → (s' : Serverless a rx fs) × (create_index a rx fs workers none s
          ≡ returns (running 0 0, s'))
        × IsSpawned text s'.pods
  unfolding create_index serve request_trigger created
  create_index-running workers text s e got =
      let store = (get_worker_code rx fs index s.code_store).1 in
      let (o, s', e', here, spawned) =
        create_from-running workers text (record s { code_store = store }) e in
      (s', rw (got, e', here), spawned)

  -- What `start_one` comes to: the upload fails, and no worker is made, or the worker runs.
  pub data Launches (source : Bytes) (text : Str) (s s' : Serverless a rx fs)
      : Started → Type 0 where
    not_uploaded :
        (problem : CodeStoreError rx fs)
        → upload_worker_code rx fs index source s.code_store ≡ returns (err problem, s'.code_store)
        → s'.pods ≡ s.pods
        → Launches source text s s' failed_to_upload
    runs : IsSpawned text s'.pods → Launches source text s s' (running 0 0)

  -- Where the upload was carried out, the worker runs.
  stored_source :
      (workers : Workers) (source : Bytes) (text : Str) (s : Serverless a rx fs)
      → s.pods ≡ Client.start a 1 ∷ []
      → fs.from_utf8 source ≡ some text
      → (r : Result (Unit {0}) (CodeStoreError rx fs)) (store : Store rx fs)
      → upload_worker_code rx fs index source s.code_store ≡ returns (r, store)
      → (r ≡ ok tt → (get_worker_code rx fs index store).0 ≡ fs.from_utf8 source)
      → (st : Started) × (s' : Serverless a rx fs) × (start_one a rx fs workers source s
          ≡ returns (st, s'))
        × Launches source text s s' st
  unfolding start_one serve request_trigger create_index uploaded result_err
  stored_source workers source text s e utf8 (err problem) store up read =
      (failed_to_upload, record s { code_store = store }, rw up, not_uploaded problem up refl)
  stored_source workers source text s e utf8 (ok _) store up read =
      let (s', e', spawned) =
        create_index-running workers text (record s { code_store = store }) e (read refl ∙ utf8) in
      (running 0 0, s', rw up e', runs spawned)

  pub start_one_stored :
      (workers : Workers) (source : Bytes) (text : Str) (store store' : Store rx fs)
      → fs.from_utf8 source ≡ some text
      → upload_worker_code rx fs index source (one_place store).code_store ≡ returns (ok tt, store')
      → (get_worker_code rx fs index store').0 ≡ some text
      → (s' : Serverless a rx fs) × (start_one a rx fs workers source (one_place store)
          ≡ returns (running 0 0, s'))
  unfolding start_one serve request_trigger create_index uploaded result_err start_pods new
  start_one_stored workers source text store store' utf8 up read =
      let s : Serverless a rx fs = record (one_place store) { code_store = store' } in
      let (s', e, _) = create_index-running workers text s refl read in (s', rw up e)

  -- On a runtime for one worker that was just started, and for a source that is UTF-8, `start_one`
  -- returns. Either the upload of the source fails, and no pod has changed, or it says that the worker
  -- runs in the first place of the first pod, and there the one pod has been given one worker, whose
  -- source is the text of the upload.
  pub start_one-running :
      (workers : Workers) (source : Bytes) (text : Str) (store : Store rx fs)
      → IsCached rx fs names files store
      → fs.from_utf8 source ≡ some text
      → (st : Started) × (s' : Serverless a rx fs) × (start_one a rx fs workers source
            (one_place store)
          ≡ returns (st, s'))
        × Launches source text (one_place store) s' st
  unfolding start_pods new
  start_one-running workers source text store c utf8 =
      let (r, after, e, _, read, _) =
        get-upload_worker_code rx fs names files index source (one_place store).code_store c
          (unfold is_worker_name in refl) in
      stored_source workers source text (one_place store) refl utf8 r after e read

  -- The runtime after `start_one`, which has one more worker if one is said to run.
  record Launched (workers : Workers) (source : Bytes) (s : Serverless a rx fs) : Type 0 where
    st : Started
    after : Serverless a rx fs
    more : ℕ
    result : start_one a rx fs workers source s ≡ returns (st, after)
    grows : Grows a rx fs names files more s after
    counted : (pod wrk : ℕ) → st ≡ running pod wrk → more ≡ 1

  placed-gained :
      (o : Option (ℕ × ℕ)) (pod wrk : ℕ) → placed a rx fs o ≡ running pod wrk → gained o ≡ 1
  unfolding placed
  placed-gained none pod wrk e = cc
  placed-gained (some place) pod wrk e = refl

  launch_uploaded :
      (workers : Workers) (source : Bytes) (s s₁ : Serverless a rx fs)
      (r : Option (CodeStoreError rx fs))
      → serve a rx fs workers (request_trigger (upload_worker_request index source)) s
        ≡ returns (upload_error r, s₁)
      → Grows a rx fs names files 0 s s₁
      → Launched workers source s
  unfolding start_one create_index uploaded created
  launch_uploaded workers source s s₁ (some problem) e g = record {
    st = failed_to_upload;
    after = s₁;
    more = 0;
    result = rw e;
    grows = g;
    counted = λ pod wrk h. cc;
  }
  launch_uploaded workers source s s₁ none e g =
      let (o, s₂, e', g') = create-Grows a rx fs names files workers index s₁ g.sound in
      record {
        st = placed a rx fs o;
        after = s₂;
        more = 0 + gained o;
        result = rw (e, e');
        grows = join-Grows a rx fs names files 0 (gained o) s s₁ s₂ g g';
        counted = λ pod wrk h. omega (arith, placed-gained o pod wrk h);
      }

  start_one-Launched :
      (workers : Workers) (source : Bytes) (s : Serverless a rx fs)
      → IsSound a rx fs names files s
      → Launched workers source s
  start_one-Launched workers source s h =
      let (r, s₁, e, g) = upload-Grows a rx fs names files workers index source s h in
      launch_uploaded workers source s s₁ r e g

  -- Where the allocator reserves one place when asked for one, the worker that `start_one` creates
  -- takes it: from then on, no call of the HTTP application gets a page from a worker, or waits for one.
  pub start_one-starves :
      (workers : Workers) (source : Bytes) (store : Store rx fs) (pod wrk : ℕ)
      (s : Serverless a rx fs) (calls : List (Call × Workers))
      → IsCached rx fs names files store
      → a.with_capacity 1 ≡ 1
      → start_one a rx fs workers source (one_place store) ≡ returns (running pod wrk, s)
      → (pages : List (Rendered a rx fs)) × (after : Serverless a rx fs) × (answer_calls a rx fs
            calls s
          ≡ returns (pages, after))
        × (worker_pages pages ≡ 0)
  unfolding start_pods new
  start_one-starves workers source store pod wrk s calls c exact e =
      let fresh = one_place store in
      let launched =
        start_one-Launched workers source fresh
          (start_pods-IsSound a rx fs names files 1 1 store c) in
      let same : ◌≡◌ {A = Outcome (Started × Serverless a rx fs)}
          (returns (launched.st, launched.after)) (returns (running pod wrk, s)) =
        sym launched.result ∙ e in
      let counted = launched.counted pod wrk (cc) in
      let here : launched.after ≡ s = cc in
      let d =
        answer_calls-AllAnswered a rx fs names files calls launched.after launched.grows.sound in
      let fits = sound_bound a rx fs names files d.after d.grows.sound in
      let bound =
        subst₂ (λ t w. total_load d.after.pods ≤ t * a.with_capacity w)
          (d.grows.same_threads ∙ launched.grows.same_threads)
          (d.grows.same_workers ∙ launched.grows.same_workers) fits in
      let first = launched.grows.grown in
      let then_more = d.grows.grown in
      let made = d.pages in
      (
        d.all,
        d.after,
        subst (λ t. answer_calls a rx fs calls t ≡ returns (d.all, d.after)) here d.result,
        omega arith,
      )
