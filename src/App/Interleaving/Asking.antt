-- ===== src/App/Interleaving/Asking.antt =====
-- One turn of a handler of src/runtime/serverless/app.rs, and whom it asks.
use native.Mathlib.Numerals.{add-one}
use serverlessd.Prelude.{
  ℕ, suc, ◌<◌, ◌≡◌, refl, sym, ap, ◌∙◌, subst, List, [], ◌∷◌, Option, none, some, length,
  length-append, get_elem?, set, ==_self, returns, inl, inr, Option-cases, arith,
  get_elem?-le-total, returns-injective,
}
use serverlessd.Prelude.Text.{Str}
use serverlessd.Pod.{Allocator, ReplyTo, http, to_worker}
use serverlessd.Pod.Client.{PodHandle}
use serverlessd.Pod.Client.Ready.{load}
use serverlessd.CodeStore.{RegexCrate, FileSystem}
use serverlessd.CodeStore.Names.{WorkerNameRegex, WorkerFiles}
use serverlessd.CodeStore.Laws.{upload_worker_code-IsCached, remove_worker_code-IsCached}
use serverlessd.Serverless.{
  Workers, Serverless, serve, request_trigger, pass_to_pod, unanswered, send_http_request,
  upload_error, result_err,
}
use serverlessd.Serverless.Invariant.{IsSound}
use serverlessd.Serverless.Routing.{pass_to_pod-http}
use serverlessd.App.{
  WorkerReply, get_worker_page, post_upload, post_remove, all_ok, created, uploaded, executed,
  upload_result,
}
use serverlessd.App.Growth.{create-Grows, send-Grows}
use serverlessd.App.Service.Placing.{Placing, serve-Placing, no_source, no_room, found}
use serverlessd.App.Interleaving.{Handler, started, placed, rendered, take_turn, placed_in}
use serverlessd.App.Interleaving.Once.{
  asks, asks_own, AsksOnce, AsksOnce-quiet, AsksOnce-found, AsksOnce-sent,
}

module _ (a : Allocator) (rx : RegexCrate) (fs : FileSystem) (names : WorkerNameRegex rx)
    (files : WorkerFiles fs) where
  unplaced_pods :
      (name : Str) (s after : Serverless a rx fs)
      → Placing a rx fs names files name s after none
      → after.pods ≡ s.pods
  unplaced_pods name s after (no_source q same) = same
  unplaced_pods name s after (no_room q full same) = same

  -- A turn goes through and keeps the account.
  pub record Turned (workers : Workers) (h : Handler a rx fs) (i : ℕ) (hs : List (Handler a rx fs))
      (s : Serverless a rx fs) : Type 0 where
    pub handler : Handler a rx fs
    pub after : Serverless a rx fs
    pub result : take_turn a rx fs workers h s ≡ returns (handler, after)
    pub sound : IsSound a rx fs names files after
    pub once : AsksOnce (set hs i handler) after.pods

  page-Turned :
      (workers : Workers) (name : Str) (reply : ReplyTo) (answer : WorkerReply) (i : ℕ)
      (hs : List (Handler a rx fs)) (s s' : Serverless a rx fs) (o : Option (ℕ × ℕ))
      → get_elem? hs i ≡ some (started (get_worker_page name reply answer))
      → take_turn a rx fs workers (started (get_worker_page name reply answer)) s
        ≡ returns (placed_in a rx fs reply answer o, s')
      → Placing a rx fs names files name s s' o
      → IsSound a rx fs names files s'
      → AsksOnce hs s.pods
      → Turned workers (started (get_worker_page name reply answer)) i hs s
  unfolding placed_in
  page-Turned workers name reply answer i hs s s' none e t p sound once =
      let same : s'.pods ≡ s.pods = unplaced_pods name s s' p in
      record {
        handler = _;
        after = s';
        result = t;
        sound = sound;
        once =
            AsksOnce-quiet hs s'.pods i (started (get_worker_page name reply answer)) _ e
              (λ pod wrk. refl) (subst (AsksOnce hs) (sym same) once);
      }
  page-Turned workers name reply answer i hs s s' (some (pod, wrk)) e t
        (found {p = p} p' q at next grown tasks sent) sound once =
      let more : load p' ≡ suc (load p) =
        ap length tasks ∙ length-append p.pod.tasks (_ ∷ []) ∙ add-one (load p) in
      let kept =
        AsksOnce-found a rx fs hs s.pods i (started (get_worker_page name reply answer)) pod p p'
          reply answer e at more sent once in
      record {
        handler = placed pod wrk reply answer;
        after = s';
        result = t;
        sound = sound;
        once =
            subst (λ w. AsksOnce (set hs i (placed pod w reply answer)) s'.pods) (sym next)
              (subst (AsksOnce (set hs i (placed pod (load p) reply answer))) (sym grown) kept);
      }

  -- The pods that a served request leaves behind.
  pub served_pods :
      (workers : Workers) (pod wrk : ℕ) (reply : ReplyTo) (s after : Serverless a rx fs)
      (pods : List PodHandle)
      → serve a rx fs workers (request_trigger (send_http_request pod wrk reply)) s
        ≡ returns (unanswered, after)
      → pass_to_pod a workers pod (to_worker wrk (http reply)) s.pods ≡ returns pods
      → pods ≡ after.pods
  unfolding serve request_trigger
  served_pods workers pod wrk reply s after pods e passed =
      ap (λ x. x.1.pods) (returns-injective (rw passed at e))

  -- A handler's worker is there.
  placed_load :
      (hs : List (Handler a rx fs)) (pods : List PodHandle) (i pod wrk : ℕ) (reply : ReplyTo)
      (answer : WorkerReply) (p : PodHandle)
      → get_elem? hs i ≡ some (placed pod wrk reply answer)
      → get_elem? pods pod ≡ some p
      → AsksOnce hs pods
      → wrk < load p
  placed_load hs pods i pod wrk reply answer p e at once =
      let bound = once.each pod wrk p at in
      let one = get_elem?-le-total (asks pod wrk) hs i (placed pod wrk reply answer) e in
      let mine = asks_own a rx fs pod wrk wrk reply answer in ground (arith, ==_self wrk)

  pub take_turn-Turned :
      (workers : Workers) (h : Handler a rx fs) (i : ℕ) (hs : List (Handler a rx fs))
      (s : Serverless a rx fs)
      → IsSound a rx fs names files s
      → get_elem? hs i ≡ some h
      → AsksOnce hs s.pods
      → Turned workers h i hs s
  unfolding take_turn created serve request_trigger pass_to_pod
  take_turn-Turned workers (started (get_worker_page name reply answer)) i hs s h e once =
      let (o, s', served, g) = create-Grows a rx fs names files workers name s h in
      page-Turned workers name reply answer i hs s s' o e (rw served)
        (serve-Placing a rx fs names files workers name s s' o h served) g.sound once
  take_turn-Turned workers (started (post_upload name none)) i hs s h e once = record {
    handler = _;
    after = s;
    result = refl;
    sound = h;
    once = AsksOnce-quiet hs s.pods i _ _ e (λ pod wrk. refl) once;
  }
  take_turn-Turned workers (started (post_upload name (some body))) i hs s h e once =
      let (r, store, stored, c) =
        upload_worker_code-IsCached rx fs names files name body s.code_store h.cached in
      record {
        handler =
            rendered
              (upload_result a rx fs (uploaded a rx fs (upload_error (result_err a rx fs r))));
        after = record s { code_store = store };
        result = rw stored;
        sound = record { ready = h.ready; threads = h.threads; cached = c };
        once = AsksOnce-quiet hs s.pods i _ _ e (λ pod wrk. refl) once;
      }
  take_turn-Turned workers (started (post_remove name)) i hs s h e once = record {
    handler = rendered all_ok;
    after = _;
    result = refl;
    sound = record {
      ready = h.ready;
      threads = h.threads;
      cached = remove_worker_code-IsCached rx fs names files name s.code_store h.cached;
    };
    once = AsksOnce-quiet hs s.pods i _ _ e (λ pod wrk. refl) once;
  }
  take_turn-Turned workers (rendered page) i hs s h e once = record {
    handler = rendered page;
    after = s;
    result = refl;
    sound = h;
    once = AsksOnce-quiet hs s.pods i _ _ e (λ pod wrk. refl) once;
  }
  take_turn-Turned workers (placed pod wrk reply answer) i hs s h e once =
      let (after, served, g) = send-Grows a rx fs names files workers pod wrk reply s h in
      let page = executed a rx fs answer in
      record {
        handler = rendered page;
        after = after;
        result = rw served;
        sound = g.sound;
        once = elim (Option-cases (get_elem? s.pods pod)) [
          | inl gone ↦
              let same =
                served_pods workers pod wrk reply s after s.pods served (rw (gone, pass_to_pod)) in
              subst (AsksOnce (set hs i (rendered page))) same
                (AsksOnce-quiet hs s.pods i _ (rendered page) e (λ j w. refl) once)
          | inr (p, at) ↦
              let there = placed_load hs s.pods i pod wrk reply answer p e at once in
              let (pods, passed, (p', at', tasks, sent), others) =
                pass_to_pod-http a s.n_workers workers pod wrk reply s.pods p h.ready at there in
              subst (AsksOnce (set hs i (rendered page)))
                (served_pods workers pod wrk reply s after pods served passed)
                (AsksOnce-sent a rx fs hs s.pods pods i pod wrk p p' reply answer page
                  (workers pod wrk) (http reply) e at at' others (ap length tasks) sent once)
        ];
      }
