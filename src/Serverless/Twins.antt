-- ===== src/Serverless/Twins.antt =====
-- Two runtimes of src/runtime/serverless that differ at most in what their pods have sent to their
-- workers.
use mathlib.Core.List.{map}
use serverlessd.Prelude.{
  ◌>>=◌, ℕ, ◌≡◌, refl, sym, ap, ◌∙◌, List, Option, none, some, Outcome, returns, panics, undefined,
  hangs, All, Result, returns-injective, subst,
}
use serverlessd.Prelude.Text.{Str}
use serverlessd.Pod.{Allocator, ReplyTo, http}
use serverlessd.Pod.Client.{PodHandle}
use serverlessd.Pod.Client.Ready.{IsReady}
use serverlessd.CodeStore.{
  RegexCrate, FileSystem, Store, CodeStoreError, get_worker_code, upload_worker_code,
}
use serverlessd.CodeStore.Names.{WorkerNameRegex, WorkerFiles}
use serverlessd.Serverless.{
  Workers, create_worker_request, upload_worker_request, remove_worker_request, send_http_request,
  request_trigger, Request, Serverless, ServerlessReply, serve, create_worker_from, worker_created,
  create_worker, upload_error, result_err, unanswered,
}
use serverlessd.Serverless.Invariant.{IsSound, serve-Served}
use serverlessd.Serverless.Forgetting.{quiet, on_second, create_worker-quiet, pass_to_pod-quiet}

module _ (a : Allocator) (rx : RegexCrate) (fs : FileSystem) where
  -- The runtime with what its pods have sent left out.
  abbrev pub forget : Serverless a rx fs → Serverless a rx fs
  forget s = record s { pods = map quiet s.pods }

  -- The requests that concern no worker that runs.
  abbrev pub IsFirst : Request → Type 0
  IsFirst (send_http_request pod wrk reply) = ⊥
  IsFirst _ = Unit {0}

  after_create :
      (s : Serverless a rx fs) (m : Outcome (Option (ℕ × ℕ) × List PodHandle))
      → (on_second (map quiet) m >>= λ (o, pods).
          returns (worker_created o, record s { pods = pods }))
        ≡ on_second {A = ServerlessReply a rx fs} forget
            (m >>= λ (o, pods). returns (worker_created o, record s { pods = pods }))
  after_create s (returns m) = refl
  after_create s panics = refl
  after_create s undefined = refl
  after_create s hangs = refl

  after_upload :
      (s : Serverless a rx fs)
      (m : Outcome (Result (Unit {0}) (CodeStoreError rx fs) × Store rx fs))
      → (m >>= λ (r, store).
          returns (upload_error (result_err a rx fs r), record (forget s) { code_store = store }))
        ≡ on_second {A = ServerlessReply a rx fs} forget (
            m >>= λ (r, store).
            returns (upload_error (result_err a rx fs r), record s { code_store = store }))
  after_upload s (returns m) = refl
  after_upload s panics = refl
  after_upload s undefined = refl
  after_upload s hangs = refl

  create_worker_from-forget :
      (workers workers' : Workers) (source : Option Str) (s : Serverless a rx fs)
      → All (IsReady a s.n_workers) s.pods
      → create_worker_from a rx fs workers' source (forget s)
        ≡ on_second forget (create_worker_from a rx fs workers source s)
  unfolding create_worker_from
  create_worker_from-forget workers workers' none s h = refl
  create_worker_from-forget workers workers' (some source) s h =
      rw (create_worker-quiet a workers workers' (record { source = source }) s.n_workers s.pods h)
        (after_create s (create_worker a workers (record { source = source }) s.pods))

  serve-forget :
      (workers workers' : Workers) (q : Request) (s : Serverless a rx fs)
      → All (IsReady a s.n_workers) s.pods
      → IsFirst q
      → serve a rx fs workers' (request_trigger q) (forget s)
        ≡ on_second forget (serve a rx fs workers (request_trigger q) s)
  unfolding serve request_trigger
  serve-forget workers workers' (create_worker_request name) s h f =
      let (source, store) = get_worker_code rx fs name s.code_store in
      create_worker_from-forget workers workers' source (record s { code_store = store }) h
  serve-forget workers workers' (upload_worker_request name code) s h f =
      after_upload s (upload_worker_code rx fs name code s.code_store)
  serve-forget workers workers' (remove_worker_request name) s h f = refl
  serve-forget workers workers' (send_http_request pod wrk reply) s h f = absurd f

module _ (a : Allocator) (rx : RegexCrate) (fs : FileSystem) (names : WorkerNameRegex rx)
    (files : WorkerFiles fs) where
  pub record Twins (s t : Serverless a rx fs) : Type 0 where
    pub sound : IsSound a rx fs names files s
    pub sound' : IsSound a rx fs names files t
    pub same : forget a rx fs s ≡ forget a rx fs t

  pub Twins-refl : (s : Serverless a rx fs) → IsSound a rx fs names files s → Twins s s
  Twins-refl s h = record { sound = h; sound' = h; same = refl }

  pub Twins-sym : {s t : Serverless a rx fs} → Twins s t → Twins t s
  Twins-sym tw = record { sound = tw.sound'; sound' = tw.sound; same = sym tw.same }

  -- Twins give one reply to a request of a handler's first turn, whoever listens, and stay twins.
  pub record Alike (workers workers' : Workers) (q : Request) (s t : Serverless a rx fs)
      : Type 0 where
    pub reply : ServerlessReply a rx fs
    pub after : Serverless a rx fs
    pub after' : Serverless a rx fs
    pub result : serve a rx fs workers (request_trigger q) s ≡ returns (reply, after)
    pub result' : serve a rx fs workers' (request_trigger q) t ≡ returns (reply, after')
    pub twins : Twins after after'

  pub serve-Alike :
      (workers workers' : Workers) (q : Request) (s t : Serverless a rx fs)
      → Twins s t
      → IsFirst a rx fs q
      → Alike workers workers' q s t
  serve-Alike workers workers' q s t tw f =
      let one = serve-Served a rx fs names files workers q s tw.sound in
      let two = serve-Served a rx fs names files workers' q t tw.sound' in
      let both = returns-injective (
        sym (ap (on_second (forget a rx fs)) one.result)
        ∙ sym (serve-forget a rx fs workers workers q s tw.sound.ready f)
        ∙ ap (serve a rx fs workers (request_trigger q)) tw.same
        ∙ serve-forget a rx fs workers' workers q t tw.sound'.ready f
        ∙ ap (on_second (forget a rx fs)) two.result) in
      record {
        reply = one.reply;
        after = one.after;
        after' = two.after;
        result = one.result;
        result' = two.result ∙ ap (λ r. returns (r, two.after)) (sym (ap (λ x. x.0) both));
        twins = record { sound = one.sound; sound' = two.sound; same = ap (λ x. x.1) both };
      }

  -- A trigger for a worker makes a twin.
  pub send-Twins :
      (workers : Workers) (pod wrk : ℕ) (reply : ReplyTo) (s t : Serverless a rx fs)
      → Twins s t
      → (after : Serverless a rx fs) × (serve a rx fs workers
            (request_trigger (send_http_request pod wrk reply))
            s
          ≡ returns (unanswered, after))
        × Twins after t
  unfolding serve request_trigger
  send-Twins workers pod wrk reply s t tw =
      let (hs, e, same) = pass_to_pod-quiet a workers pod wrk (http reply) s.pods in
      let sent : Serverless a rx fs = record s { pods = hs } in
      let served =
        serve-Served a rx fs names files workers (send_http_request pod wrk reply) s tw.sound in
      let after : returns (served.reply, served.after) ≡ returns (unanswered, sent) =
        sym served.result
        ∙ ap (λ m. m >>= λ pods. returns (unanswered, record s { pods = pods })) e in
      (
        sent,
        rw e,
        record {
          sound =
              subst (IsSound a rx fs names files) (ap (λ x. x.1) (returns-injective after))
                served.sound;
          sound' = tw.sound';
          same = ap (λ pods. record s { pods = pods }) same ∙ tw.same;
        },
      )
