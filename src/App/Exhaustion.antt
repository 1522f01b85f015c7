-- ===== src/App/Exhaustion.antt =====
-- How many worker pages src/runtime/serverless/app.rs can ever serve.
use mathlib.Core.Path.{subst₂}
use serverlessd.Prelude.{
  map, ℕ, suc, ◌+◌, ◌*◌, ◌≤◌, ◌≡◌, refl, List, [], ◌∷◌, Option, none, some, returns, arith,
}
use serverlessd.Prelude.Text.{Str, codes}
use serverlessd.Pod.{Allocator, ReplyTo}
use serverlessd.CodeStore.{RegexCrate, FileSystem, Store}
use serverlessd.CodeStore.Names.{WorkerNameRegex, WorkerFiles}
use serverlessd.CodeStore.Laws.{IsCached}
use serverlessd.Serverless.{
  Workers, create_worker_request, request_trigger, Serverless, new, serve, start_pods,
  worker_created,
}
use serverlessd.Serverless.Scheduling.{total_load}
use serverlessd.Serverless.Invariant.{sound_bound, start_pods-IsSound, IsSound}
use serverlessd.App.Growth.{
  Grows, gained, create-Grows, send-Grows, upload-Grows, remove-Grows, join-Grows, unchanged-Grows,
}
use serverlessd.App.{
  WorkerReply, replied, dropped, silent, awaiting, CodeStoreError, Rendered, text, errored,
  errored_with, all_ok, Call, get_worker_page, post_upload, post_remove, answer_call, answer_calls,
  worker, send_http, created, uploaded, executed, upload_result, api_upload_worker,
  api_remove_worker,
}

-- The pages that a worker made, or that are waited for.
abbrev pub worker_pages :
    {a : Allocator} {rx : RegexCrate} {fs : FileSystem} → List (Rendered a rx fs) → ℕ
worker_pages [] = 0
worker_pages (text result ∷ pages) = suc (worker_pages pages)
worker_pages (errored message ∷ pages) = worker_pages pages
worker_pages (errored_with e ∷ pages) = worker_pages pages
worker_pages (all_ok ∷ pages) = worker_pages pages
worker_pages (awaiting ∷ pages) = suc (worker_pages pages)

-- The worker that is asked never replies.
abbrev pub IsSilent : Call → Type 0
IsSilent (get_worker_page name reply silent) = Unit
IsSilent call = ⊥

-- Each call has a page, but for those whose worker never replies.
abbrev pub HavePages :
    {a : Allocator} {rx : RegexCrate} {fs : FileSystem}
    → List Call
    → List (Rendered a rx fs)
    → Type 0
HavePages [] [] = Unit {0}
HavePages [] (page ∷ pages) = ⊥
HavePages (call ∷ calls) [] = ⊥
HavePages (call ∷ calls) (page ∷ pages) = (page ≡ awaiting → IsSilent call) × HavePages calls pages

module _ (a : Allocator) (rx : RegexCrate) (fs : FileSystem) (names : WorkerNameRegex rx)
    (files : WorkerFiles fs) where
  -- A call is served, with a page of a worker only if one was made for it.
  pub record Answered (workers : Workers) (call : Call) (s : Serverless a rx fs) : Type 0 where
    pub page : Rendered a rx fs
    pub after : Serverless a rx fs
    pub more : ℕ
    pub result : answer_call a rx fs workers call s ≡ returns (page, after)
    pub grows : Grows a rx fs names files more s after
    pub pages : worker_pages (page ∷ []) ≤ more
    pub has_page : page ≡ awaiting → IsSilent call

  executed_has_page :
      (name : Str) (reply : ReplyTo) (answer : WorkerReply)
      → executed a rx fs answer ≡ awaiting
      → IsSilent (get_worker_page name reply answer)
  unfolding executed
  executed_has_page name reply dropped e = absurd (cc)
  executed_has_page name reply (replied result) e = absurd (cc)
  executed_has_page name reply silent e = tt

  upload_has_page :
      (r : Option (CodeStoreError rx fs)) (call : Call)
      → upload_result a rx fs r ≡ awaiting
      → IsSilent call
  unfolding upload_result
  upload_has_page none call e = absurd (cc)
  upload_has_page (some problem) call e = absurd (cc)

  executed_pages : (answer : WorkerReply) → worker_pages (executed a rx fs answer ∷ []) ≤ 1
  unfolding executed
  executed_pages dropped = omega arith
  executed_pages (replied result) = omega arith
  executed_pages silent = omega arith

  upload_pages :
      (r : Option (CodeStoreError rx fs)) → worker_pages (upload_result a rx fs r ∷ []) ≤ 0
  unfolding upload_result
  upload_pages none = omega arith
  upload_pages (some e) = omega arith

  worker-Answered :
      (workers : Workers) (name : Str) (reply : ReplyTo) (answer : WorkerReply)
      (s : Serverless a rx fs)
      → IsSound a rx fs names files s
      → (o : Option (ℕ × ℕ)) (s' : Serverless a rx fs)
      → serve a rx fs workers (request_trigger (create_worker_request name)) s
        ≡ returns (worker_created o, s')
      → Grows a rx fs names files (gained o) s s'
      → Answered workers (get_worker_page name reply answer) s
  unfolding answer_call worker send_http created
  worker-Answered workers name reply answer s h none s' e g = record {
    page = errored (codes "failed to create worker");
    after = s';
    more = 0;
    result = rw e;
    grows = g;
    pages = omega arith;
    has_page = λ e. absurd (cc);
  }
  worker-Answered workers name reply answer s h (some (pod, wrk)) s' e g =
      let (s'', e', g') = send-Grows a rx fs names files workers pod wrk reply s' g.sound in
      record {
        page = executed a rx fs answer;
        after = s'';
        more = 1 + 0;
        result = rw (e, e');
        grows = join-Grows a rx fs names files 1 0 s s' s'' g g';
        pages = executed_pages answer;
        has_page = executed_has_page name reply answer;
      }

  pub answer_call-Answered :
      (workers : Workers) (call : Call) (s : Serverless a rx fs)
      → IsSound a rx fs names files s
      → Answered workers call s
  unfolding answer_call api_upload_worker api_remove_worker uploaded
  answer_call-Answered workers (get_worker_page name reply answer) s h =
      let (o, s', e, g) = create-Grows a rx fs names files workers name s h in
      worker-Answered workers name reply answer s h o s' e g
  answer_call-Answered workers (post_upload name none) s h = record {
    page = errored (codes "failed to parse body");
    after = s;
    more = 0;
    result = refl;
    grows = unchanged-Grows a rx fs names files s h;
    pages = omega arith;
    has_page = λ e. absurd (cc);
  }
  answer_call-Answered workers (post_upload name (some body)) s h =
      let (r, s', e, g) = upload-Grows a rx fs names files workers name body s h in
      record {
        page = upload_result a rx fs r;
        after = s';
        more = 0;
        result = rw e;
        grows = g;
        pages = upload_pages r;
        has_page = upload_has_page r (post_upload name (some body));
      }
  answer_call-Answered workers (post_remove name) s h =
      let (s', e, g) = remove-Grows a rx fs names files workers name s h in
      record {
        page = all_ok;
        after = s';
        more = 0;
        result = rw e;
        grows = g;
        pages = omega arith;
        has_page = λ q. absurd (cc);
      }

  -- All calls are served.
  pub record AllAnswered (calls : List (Call × Workers)) (s : Serverless a rx fs) : Type 0 where
    pub all : List (Rendered a rx fs)
    pub after : Serverless a rx fs
    pub more : ℕ
    pub result : answer_calls a rx fs calls s ≡ returns (all, after)
    pub each : HavePages (map (λ c. c.0) calls) all
    pub grows : Grows a rx fs names files more s after
    pub pages : worker_pages all ≤ more

  worker_pages-cons :
      (page : Rendered a rx fs) (pages : List (Rendered a rx fs))
      → worker_pages (page ∷ pages) ≡ worker_pages (page ∷ []) + worker_pages pages
  worker_pages-cons (text result) pages = omega arith
  worker_pages-cons (errored message) pages = omega arith
  worker_pages-cons (errored_with e) pages = omega arith
  worker_pages-cons all_ok pages = omega arith
  worker_pages-cons awaiting pages = omega arith

  pub answer_calls-AllAnswered :
      (calls : List (Call × Workers)) (s : Serverless a rx fs)
      → IsSound a rx fs names files s
      → AllAnswered calls s
  unfolding answer_calls
  answer_calls-AllAnswered [] s h = record {
    all = [];
    after = s;
    more = 0;
    result = refl;
    each = tt;
    grows = unchanged-Grows a rx fs names files s h;
    pages = omega arith;
  }
  answer_calls-AllAnswered ((call, workers) ∷ calls) s h =
      let first = answer_call-Answered workers call s h in
      let rest = answer_calls-AllAnswered calls first.after first.grows.sound in
      let one = first.pages in
      let others = rest.pages in
      record {
        all = first.page ∷ rest.all;
        after = rest.after;
        more = first.more + rest.more;
        result = rw (first.result, rest.result);
        each = (first.has_page, rest.each);
        grows =
            join-Grows a rx fs names files first.more rest.more s first.after rest.after first.grows
              rest.grows;
        pages = omega (arith, worker_pages-cons first.page rest.all);
      }

  -- From a fresh start with n threads of m workers each, the runtime serves any sequence of calls
  -- without a panic, a hang or undefined behaviour; each call has its page, but for a page of a worker
  -- that never replies, whose handler then waits; and however many worker pages are asked for, those
  -- that workers make or are waited for are at most as many as n tables of the capacity that
  -- `Vec::with_capacity(m)` gives have places.
  pub answer_calls-exhaust :
      (n m : ℕ) (store : Store rx fs) (calls : List (Call × Workers))
      → IsCached rx fs names files store
      → (pages : List (Rendered a rx fs)) × (after : Serverless a rx fs) × (answer_calls a rx fs
            calls
            (start_pods a rx fs (new a rx fs n m store))
          ≡ returns (pages, after))
        × HavePages (map (λ c. c.0) calls) pages
        × (worker_pages pages ≤ n * a.with_capacity m)
  unfolding new start_pods
  answer_calls-exhaust n m store calls c =
      let s = start_pods a rx fs (new a rx fs n m store) in
      let d =
        answer_calls-AllAnswered calls s (start_pods-IsSound a rx fs names files n m store c) in
      let fits = sound_bound a rx fs names files d.after d.grows.sound in
      let bound =
        subst₂ (λ t w. total_load d.after.pods ≤ t * a.with_capacity w) d.grows.same_threads
          d.grows.same_workers fits in
      let grown = d.grows.grown in
      let made = d.pages in (d.all, d.after, d.result, d.each, omega arith)
