-- ===== src/App/Sources.antt =====
-- What a call of src/runtime/serverless/app.rs does to the sources of the other workers.
use serverlessd.Prelude.{
  ℕ, ◌≡◌, ◌≢◌, ap, ◌∙◌, sym, Option, none, some, Bool-cases, inl, inr, returns, Result, Outcome,
  >>=-eq-returns,
}
use serverlessd.Prelude.Text.{Str}
use serverlessd.Pod.{Allocator, ReplyTo, PodTrigger, to_worker, http}
use serverlessd.CodeStore.{
  RegexCrate, FileSystem, Bytes, CodeStoreError, Store, get_worker_code, upload_worker_code,
}
use serverlessd.CodeStore.Names.{WorkerNameRegex, WorkerFiles, IsPlain, is_worker_name}
use serverlessd.CodeStore.Laws.{
  IsCached, get_worker_code_lem, get-get_worker_code, get-upload_worker_code,
  get-remove_worker_code, upload_worker_code_invalid,
}
use serverlessd.Serverless.{
  Workers, create_worker_request, upload_worker_request, remove_worker_request, send_http_request,
  request_trigger, Serverless, ServerlessReply, ServerlessTrigger, create_worker_of, upload_code,
  remove_code, to_pod, serve, create_worker, create_worker_from, pass_to_pod,
}
use serverlessd.App.{
  WorkerReply, Rendered, Call, get_worker_page, post_upload, post_remove, answer_call, worker,
  send_http, created, api_upload_worker, api_remove_worker,
}

-- The trigger is for another worker's source, if it is for a source at all.
abbrev IsForOther : Str → ServerlessTrigger → Type 0
IsForOther name (create_worker_of other) = Unit
IsForOther name (upload_code other code) = other ≢ name
IsForOther name (remove_code other) = IsPlain other × (other ≢ name)
IsForOther name (to_pod id t) = Unit

-- The call is for another worker's source, if it is for a source at all.
abbrev pub IsCallForOther : Str → Call → Type 0
IsCallForOther name (get_worker_page other reply answer) = Unit
IsCallForOther name (post_upload other body) = other ≢ name
IsCallForOther name (post_remove other) = IsPlain other × (other ≢ name)

module _ (a : Allocator) (rx : RegexCrate) (fs : FileSystem) (names : WorkerNameRegex rx)
    (files : WorkerFiles fs) where
  abbrev source : Str → Store rx fs → Option Str
  source name store = (get_worker_code rx fs name store).0

  abbrev store_of :
      Store rx fs → Outcome (Result (Unit {0}) (CodeStoreError rx fs) × Store rx fs) → Store rx fs
  store_of s (returns (r, s')) = s'
  store_of s _ = s

  source_of_disk :
      (name : Str) (s : Store rx fs) (cell : Option rx.Regex)
      → IsPlain name
      → source name (record s { validate_regex = cell }) ≡ source name s
  source_of_disk name s cell p =
      get_worker_code_lem rx fs names files name (record s { validate_regex = cell }) p
      ∙ sym (get_worker_code_lem rx fs names files name s p)

  source-upload_worker_code :
      (other name : Str) (code : Bytes) (s s' : Store rx fs)
      (r : Result (Unit {0}) (CodeStoreError rx fs))
      → IsCached rx fs names files s
      → IsPlain name
      → other ≢ name
      → upload_worker_code rx fs other code s ≡ returns (r, s')
      → source name s' ≡ source name s
  source-upload_worker_code other name code s s' r c p ne e =
      elim (Bool-cases (is_worker_name other)) [
        | inl h ↦
            let (r', t, e', c', done, others) =
              get-upload_worker_code rx fs names files other code s c h in
            ap (λ o. source name (store_of s o)) (sym e ∙ e') ∙ others name p ne
        | inr h ↦
            ap (λ o. source name (store_of s o))
              (sym e ∙ upload_worker_code_invalid rx fs names files other code s c h)
            ∙ source_of_disk name s (some names.regex) p
      ]

  abbrev code_of :
      {R : Type 0} → Serverless a rx fs → Outcome (R × Serverless a rx fs) → Store rx fs
  code_of s (returns (r, after)) = after.code_store
  code_of s _ = s.code_store

  create_worker_from-code_store :
      (workers : Workers) (o : Option Str) (s after : Serverless a rx fs)
      (r : ServerlessReply a rx fs)
      → create_worker_from a rx fs workers o s ≡ returns (r, after)
      → after.code_store ≡ s.code_store
  unfolding create_worker_from
  create_worker_from-code_store workers none s after r e = ap (code_of s) (sym e)
  create_worker_from-code_store workers (some text) s after r e =
      let (made, _, e') =
        >>=-eq-returns (create_worker a workers (record { source = text }) s.pods) _ e in
      ap (code_of s) (sym e')

  source-to_pod :
      (workers : Workers) (name : Str) (id : ℕ) (t : PodTrigger) (s after : Serverless a rx fs)
      (r : ServerlessReply a rx fs)
      → serve a rx fs workers (to_pod id t) s ≡ returns (r, after)
      → source name after.code_store ≡ source name s.code_store
  unfolding serve
  source-to_pod workers name id t s after r e =
      let (made, _, e') = >>=-eq-returns (pass_to_pod a workers id t s.pods) _ e in
      ap (λ o. source name (code_of s o)) (sym e')

  source-serve :
      (workers : Workers) (name : Str) (t : ServerlessTrigger) (s after : Serverless a rx fs)
      (r : ServerlessReply a rx fs)
      → IsCached rx fs names files s.code_store
      → IsPlain name
      → IsForOther name t
      → serve a rx fs workers t s ≡ returns (r, after)
      → source name after.code_store ≡ source name s.code_store
  unfolding serve
  source-serve workers name (create_worker_of other) s after r c p ne e =
      ap (source name) (create_worker_from-code_store workers _ _ after r e)
      ∙ get-get_worker_code rx fs names files other name s.code_store p
  source-serve workers name (upload_code other code) s after r c p ne e =
      let (made, up, e') = >>=-eq-returns (upload_worker_code rx fs other code s.code_store) _ e in
      ap (λ o. source name (code_of s o)) (sym e')
      ∙ source-upload_worker_code other name code s.code_store made.1 made.0 c p ne up
  source-serve workers name (remove_code other) s after r c p (plain, ne) e =
      ap (λ o. source name (code_of s o)) (sym e)
      ∙ (get-remove_worker_code rx fs names files other s.code_store plain).1 name p ne
  source-serve workers name (to_pod id t) s after r c p ne e =
      source-to_pod workers name id t s after r e

  source-send_http :
      (workers : Workers) (name : Str) (reply : ReplyTo) (answer : WorkerReply)
      (place : Option (ℕ × ℕ)) (s after : Serverless a rx fs) (page : Rendered a rx fs)
      → send_http a rx fs workers reply answer place s ≡ returns (page, after)
      → source name after.code_store ≡ source name s.code_store
  unfolding send_http request_trigger
  source-send_http workers name reply answer none s after page e =
      ap (λ o. source name (code_of s o)) (sym e)
  source-send_http workers name reply answer (some (pod, wrk)) s after page e =
      let ((r, s'), served, e') =
        >>=-eq-returns (serve a rx fs workers (request_trigger (send_http_request pod wrk reply)) s)
          _ e in
      ap (λ o. source name (code_of s o)) (sym e')
      ∙ source-to_pod workers name pod (to_worker wrk (http reply)) s s' r served

  pub source-answer_call :
      (workers : Workers) (name : Str) (call : Call) (s after : Serverless a rx fs)
      (page : Rendered a rx fs)
      → IsCached rx fs names files s.code_store
      → IsPlain name
      → IsCallForOther name call
      → answer_call a rx fs workers call s ≡ returns (page, after)
      → source name after.code_store ≡ source name s.code_store
  unfolding answer_call worker request_trigger api_upload_worker api_remove_worker
  source-answer_call workers name (get_worker_page other reply answer) s after page c p ne e =
      let ((r, s'), served, e') =
        >>=-eq-returns (serve a rx fs workers (request_trigger (create_worker_request other)) s) _
          e in
      source-send_http workers name reply answer (created a rx fs r) s' after page e'
      ∙ source-serve workers name (create_worker_of other) s s' r c p tt served
  source-answer_call workers name (post_upload other none) s after page c p ne e =
      ap (λ o. source name (code_of s o)) (sym e)
  source-answer_call workers name (post_upload other (some body)) s after page c p ne e =
      let ((r, s'), served, e') =
        >>=-eq-returns
          (serve a rx fs workers (request_trigger (upload_worker_request other body)) s) _ e in
      ap (λ o. source name (code_of s o)) (sym e')
      ∙ source-serve workers name (upload_code other body) s s' r c p ne served
  source-answer_call workers name (post_remove other) s after page c p ne e =
      let ((r, s'), served, e') =
        >>=-eq-returns (serve a rx fs workers (request_trigger (remove_worker_request other)) s) _
          e in
      ap (λ o. source name (code_of s o)) (sym e')
      ∙ source-serve workers name (remove_code other) s s' r c p ne served
