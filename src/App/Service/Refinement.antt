-- ===== src/App/Service/Refinement.antt =====
-- The handlers of src/runtime/serverless/app.rs keep the promises of the abstract service.
use mathlib.Core.List.{map}
use serverlessd.Prelude.{
  ℕ, ◌≡◌, refl, ap, ◌∙◌, List, [], ◌∷◌, Option, none, some, returns, All, inl, inr, Bool-cases, ok,
  err, Result,
}
use serverlessd.Prelude.Text.{Str, codes}
use serverlessd.Pod.{Allocator, ReplyTo}
use serverlessd.CodeStore.{
  RegexCrate, FileSystem, Bytes, CodeStoreError, invalid_name, io_error, get_worker_code,
  upload_worker_code, remove_worker_code, Store,
}
use serverlessd.CodeStore.Names.{WorkerNameRegex, WorkerFiles, IsPlain, is_worker_name}
use serverlessd.CodeStore.Laws.{
  get-upload_worker_code, get-remove_worker_code, upload_worker_code-write,
  upload_worker_code_invalid, IsCached, remove_worker_code-IsCached,
}
use serverlessd.Serverless.{
  Workers, Serverless, create_worker_request, request_trigger, serve, worker_created, result_err,
}
use serverlessd.Serverless.Invariant.{IsSound}
use serverlessd.App.{
  WorkerReply, Rendered, Call, get_worker_page, post_upload, post_remove, answer_call, answer_calls,
  executed, worker, send_http, created, errored, errored_with, all_ok, api_upload_worker,
  api_remove_worker, upload_result,
}
use serverlessd.App.Growth.{Grows, gained, create-Grows, send-Grows, join-Grows}
use serverlessd.App.Sources.{IsCallForOther, source-answer_call}
use serverlessd.App.Service.{
  view, Serves, unread, refused, unwritten, uploaded, removed, unremoved, Session, over, next,
  IsTame,
}
use serverlessd.App.Service.Placing.{Placing, serve-Placing, unplaced-Serves, placed-Serves}

module _ (a : Allocator) (rx : RegexCrate) (fs : FileSystem) (names : WorkerNameRegex rx)
    (files : WorkerFiles fs) where
  -- A call is answered as the service promises.
  pub record Refines (workers : Workers) (call : Call) (s : Serverless a rx fs) : Type 0 where
    pub page : Rendered a rx fs
    pub after : Serverless a rx fs
    pub result : answer_call a rx fs workers call s ≡ returns (page, after)
    pub sound : IsSound a rx fs names files after
    pub serves : Serves a rx fs (view a rx fs s) (view a rx fs after) call page

  -- A call leaves the sources of other names alone.
  kept :
      (workers : Workers) (call : Call) (s after : Serverless a rx fs) (page : Rendered a rx fs)
      → IsSound a rx fs names files s
      → answer_call a rx fs workers call s ≡ returns (page, after)
      → (other : Str) → IsPlain other
      → IsCallForOther other call
      → (view a rx fs after).source other ≡ (view a rx fs s).source other
  kept workers call s after page h e other p for_other =
      source-answer_call a rx fs names files workers other call s after page h.cached p for_other e

  page-Refines :
      (workers : Workers) (name : Str) (reply : ReplyTo) (answer : WorkerReply)
      (s s' : Serverless a rx fs) (o : Option (ℕ × ℕ))
      → IsSound a rx fs names files s
      → serve a rx fs workers (request_trigger (create_worker_request name)) s
        ≡ returns (worker_created o, s')
      → Placing a rx fs names files name s s' o
      → Grows a rx fs names files (gained o) s s'
      → Refines workers (get_worker_page name reply answer) s
  unfolding answer_call worker send_http created
  page-Refines workers name reply answer s s' none h e p g =
      let call = get_worker_page name reply answer in
      let page = errored (codes "failed to create worker") in
      let result : answer_call a rx fs workers call s ≡ returns (page, s') = rw e in
      record {
        page = page;
        after = s';
        result = result;
        sound = g.sound;
        serves =
            unplaced-Serves a rx fs names files name reply answer s s' p g
              (λ other plain. kept workers call s s' page h result other plain tt);
      }
  page-Refines workers name reply answer s s' (some (pod, wrk)) h e p g =
      let call = get_worker_page name reply answer in
      let (s'', e', g') = send-Grows a rx fs names files workers pod wrk reply s' g.sound in
      let page = executed a rx fs answer in
      let result : answer_call a rx fs workers call s ≡ returns (page, s'') = rw (e, e') in
      record {
        page = page;
        after = s'';
        result = result;
        sound = g'.sound;
        serves =
            placed-Serves a rx fs names files name reply answer pod wrk s s' s'' p
              (join-Grows a rx fs names files 1 0 s s' s'' g g')
              (λ other plain. kept workers call s s'' page h result other plain tt);
      }

  abbrev with_store : Store rx fs → Serverless a rx fs → Serverless a rx fs
  with_store store s = record s { code_store = store }

  with_store-IsSound :
      (store : Store rx fs) (s : Serverless a rx fs)
      → IsSound a rx fs names files s
      → IsCached rx fs names files store
      → IsSound a rx fs names files (with_store store s)
  with_store-IsSound store s h c = record { ready = h.ready; threads = h.threads; cached = c }

  upload_lem :
      (workers : Workers) (name : Str) (body : Bytes) (r : Result (Unit {0}) (CodeStoreError rx fs))
      (store : Store rx fs) (s : Serverless a rx fs)
      → upload_worker_code rx fs name body s.code_store ≡ returns (r, store)
      → answer_call a rx fs workers (post_upload name (some body)) s
        ≡ returns (upload_result a rx fs (result_err a rx fs r), with_store store s)
  unfolding answer_call api_upload_worker serve request_trigger
  upload_lem workers name body r store s e = rw e

  upload-Refines :
      (workers : Workers) (name : Str) (body : Bytes) (s : Serverless a rx fs)
      → IsSound a rx fs names files s
      → Refines workers (post_upload name (some body)) s
  unfolding get_worker_code upload_result result_err
  upload-Refines workers name body s h = elim (Bool-cases (is_worker_name name)) [
    | inr bad ↦
        let store = record s.code_store { validate_regex = some names.regex } in
        let e = upload_worker_code_invalid rx fs names files name body s.code_store h.cached bad in
        record {
          page = errored_with (invalid_name name);
          after = with_store store s;
          result = upload_lem workers name body (err (invalid_name name)) store s e;
          sound = with_store-IsSound store s h (inr refl);
          serves = refused bad refl (λ other plain. refl);
        }
    | inl good ↦
        let (r, store, e, cached, stored, others) =
          get-upload_worker_code rx fs names files name body s.code_store h.cached good in
        let sound = with_store-IsSound store s h cached in
        elim (upload_worker_code-write rx fs names files name body s.code_store store r h.cached
          good e) [
            | inl (w, done) ↦ record {
              page = all_ok;
              after = with_store store s;
              result =
                  upload_lem workers name body (ok tt) store s
                    (e ∙ ap (λ r. returns (r, store)) done);
              sound = sound;
              serves = uploaded good w refl (stored done) others;
            }
            | inr (x, w, failed) ↦ record {
              page = errored_with (io_error x);
              after = with_store store s;
              result =
                  upload_lem workers name body (err (io_error x)) store s
                    (e ∙ ap (λ r. returns (r, store)) failed);
              sound = sound;
              serves = unwritten good w refl others;
            }
          ]
  ]

  remove-Serves :
      (name : Str) (s : Serverless a rx fs) (r : Result (Unit {0}) fs.IoError)
      → IsPlain name
      → (view a rx fs s).remove_result name ≡ r
      → Serves a rx fs
          (view a rx fs s)
          (view a rx fs (with_store (remove_worker_code rx fs name s.code_store) s))
          (post_remove name)
          all_ok
  remove-Serves name s (ok u) plain e =
      let (gone, others) = get-remove_worker_code rx fs names files name s.code_store plain in
      removed e refl (gone e) others
  remove-Serves name s (err x) plain e =
      let (gone, others) = get-remove_worker_code rx fs names files name s.code_store plain in
      unremoved e refl others

  pub answer_call-Refines :
      (workers : Workers) (call : Call) (s : Serverless a rx fs)
      → IsSound a rx fs names files s
      → IsTame call
      → Refines workers call s
  unfolding answer_call api_upload_worker api_remove_worker serve request_trigger
  answer_call-Refines workers (get_worker_page name reply answer) s h tame =
      let (o, s', e, g) = create-Grows a rx fs names files workers name s h in
      page-Refines workers name reply answer s s' o h e
        (serve-Placing a rx fs names files workers name s s' o h e) g
  answer_call-Refines workers (post_upload name none) s h tame = record {
    page = errored (codes "failed to parse body");
    after = s;
    result = refl;
    sound = h;
    serves = unread refl refl (λ other plain. refl);
  }
  answer_call-Refines workers (post_upload name (some body)) s h tame =
      upload-Refines workers name body s h
  answer_call-Refines workers (post_remove name) s h tame =
      let store = remove_worker_code rx fs name s.code_store in
      record {
        page = all_ok;
        after = with_store store s;
        result = refl;
        sound =
            with_store-IsSound store s h
              (remove_worker_code-IsCached rx fs names files name s.code_store h.cached);
        serves = remove-Serves name s _ tame refl;
      }

  -- From a sound runtime the handlers answer any calls, one after the other, as a service does that
  -- has nothing but sources under names and a number of free places; a removal is of a name without a
  -- slash.
  pub answer_calls-Session :
      (calls : List (Call × Workers)) (s : Serverless a rx fs)
      → IsSound a rx fs names files s
      → All IsTame (map (λ c. c.0) calls)
      → (pages : List (Rendered a rx fs)) × (after : Serverless a rx fs) × (answer_calls a rx fs
            calls s
          ≡ returns (pages, after))
        × IsSound a rx fs names files after
        × Session a rx fs (view a rx fs s) (map (λ c. c.0) calls) pages (view a rx fs after)
  unfolding answer_calls
  answer_calls-Session [] s h tame = ([], s, refl, h, over)
  answer_calls-Session ((call, workers) ∷ calls) s h (first, tame) =
      let one = answer_call-Refines workers call s h first in
      let (pages, after, e, sound, rest) = answer_calls-Session calls one.after one.sound tame in
      (one.page ∷ pages, after, rw (one.result, e), sound, next one.serves rest)
