-- ===== src/Worker/Lifetime.antt =====
-- What becomes of each request that is sent to a worker (src/runtime/worker/task.rs).
use mathlib.Core.List.{append-nil, Perm}
use mathlib.Core.List.Perm
use serverlessd.Prelude.{
  ℕ, zero, suc, ◌≢◌, All, hangs, ◌≡◌, refl, sym, ap, ◌∙◌, subst, Bool, true, List, [], ◌∷◌, ◌++◌,
  length, returns, Result, ok, err,
}
use serverlessd.Pod.{ReplyTo}
use serverlessd.Repliers.{new_state}
use serverlessd.Repliers.Tracking.{IsTracked, new_state-IsTracked}
use serverlessd.Repliers.Answers.{answered, pending, drop_state-answered}
use serverlessd.Worker.{
  Called, Event, http_request, halt_request, happens, Happening, serve_http, happen_all, waited,
  close_handle, Loop, queued, serve_events, close_channel, create_cancel_safe_task, cleaned,
  create_task, start_loop, after_start, close_state,
}
use serverlessd.Worker.Starting.{Engine, WorkerError, initialize}
use serverlessd.Worker.Accounting.{
  boxes, IsCausal, IsCausalStep, open_tasks, result_of, happen-Accounted, happen_all-Accounted,
  unchanged-Accounted, Accounted, taken, serve_http-Served, chain-Accounted,
  close_channel-Accounted, cleaned-Accounted,
}

-- Where the loop ends, with what may happen after it.
abbrev Ended : Bool → List Event → List Happening → Loop → Type 0
Ended has_fetch es meanwhile l =
    (result : Result (Unit {0}) WorkerError) × (l' : Loop) × (serve_events has_fetch es l
      ≡ returns (result, l'))
    × Accounted l l' (queued es)
    × All (IsCausalStep (length l'.state.cells)) meanwhile

abbrev IsCausalAfter :
    Bool → List Event → List Happening → Result (Unit {0}) WorkerError → ℕ → Type 0
IsCausalAfter has_fetch es meanwhile result n = elim result [
  | ok _ ↦ IsCausal has_fetch n es meanwhile
  | err _ ↦ All (IsCausalStep n) meanwhile
]

-- A request that has been served, and what the rest of the events come to if the loop goes on.
serve_request :
    (has_fetch : Bool) (reply : ReplyTo) (called : Called) (es : List Event)
    (meanwhile : List Happening) (l l₁ l₂ : Loop) (result : Result (Unit {0}) WorkerError)
    → cleaned l ≡ returns l₁
    → Accounted l l₁ []
    → serve_http has_fetch reply called l₁ ≡ returns (result, l₂)
    → Accounted l₁ l₂ (reply ∷ [])
    → IsCausalAfter has_fetch es meanwhile result (length l₂.state.cells)
    → (IsTracked l₂.state
        → IsCausal has_fetch (length l₂.state.cells) es meanwhile
        → Ended has_fetch es meanwhile l₂)
    → Ended has_fetch (http_request reply called ∷ es) meanwhile l
unfolding serve_events
serve_request has_fetch reply called es meanwhile l l₁ l₂ (ok _) e₁ a₁ e₂ a₂ c rest =
    let a = chain-Accounted l l₁ l₂ [] (reply ∷ []) a₁ a₂ in
    let (result, l', e, a', c') = rest a.tracked c in
    (result, l', rw (e₁, e₂) e, chain-Accounted l l₂ l' (reply ∷ []) (queued es) a a', c')
serve_request has_fetch reply called es meanwhile l l₁ l₂ (err problem) e₁ a₁ e₂ a₂ c rest =
    let a = chain-Accounted l l₁ l₂ [] (reply ∷ []) a₁ a₂ in
    (
      err problem,
      close_channel es l₂,
      rw (e₁, e₂),
      chain-Accounted l l₂ (close_channel es l₂) (reply ∷ []) (queued es) a
          (close_channel-Accounted es l₂ a.tracked),
      c,
    )

-- However the loop ends, the senders of all triggers are in the account.
serve_events-Accounted :
    (has_fetch : Bool) (es : List Event) (meanwhile : List Happening) (l : Loop)
    → IsTracked l.state
    → IsCausal has_fetch (length l.state.cells) es meanwhile
    → Ended has_fetch es meanwhile l
unfolding serve_events
serve_events-Accounted has_fetch [] meanwhile l t c = (ok tt, l, refl, unchanged-Accounted l t, c)
serve_events-Accounted has_fetch (happens h ∷ es) meanwhile l t c =
    let (l₁, e, a, n, _) = happen-Accounted h l t c.0 in
    let (result, l', e', a', c') =
      serve_events-Accounted has_fetch es meanwhile l₁ a.tracked
        (subst (λ k. IsCausal has_fetch k es meanwhile) (sym n) c.1) in
    (result, l', rw e e', chain-Accounted l l₁ l' [] (queued es) a a', c')
serve_events-Accounted has_fetch (halt_request ∷ es) meanwhile l t c =
    let (l₁, e, a, n) = cleaned-Accounted l t in
    (
      ok tt,
      close_channel es l₁,
      rw e,
      chain-Accounted l l₁ (close_channel es l₁) [] (queued es) a
          (close_channel-Accounted es l₁ a.tracked),
      subst (λ k. All (IsCausalStep k) meanwhile) (sym n) c,
    )
serve_events-Accounted has_fetch (http_request reply called ∷ es) meanwhile l t c =
    let (l₁, e₁, a₁, n₁) = cleaned-Accounted l t in
    let (l₂, e₂, a₂, n₂) = serve_http-Served has_fetch reply called l₁ a₁.tracked in
    serve_request has_fetch reply called es meanwhile l l₁ l₂ (result_of has_fetch called) e₁ a₁ e₂
      a₂
      (subst (IsCausalAfter has_fetch es meanwhile (result_of has_fetch called))
        (sym (n₂ ∙ ap (boxes has_fetch called) n₁)) c)
      (λ t₂ c₂. serve_events-Accounted has_fetch es meanwhile l₂ t₂ c₂)

-- Closing the state answers whoever is still in a box.
close_state-answered :
    (meanwhile : List Happening) (result : Result (Unit {0}) WorkerError) (l w : Loop)
    → IsTracked w.state
    → happen_all meanwhile l ≡ returns w
    → w.tasks ≡ 0
    → (l' : Loop) × (close_state meanwhile (result, l) ≡ returns (result, l'))
      × Perm (answered l'.state ++ l'.dropped) (taken w)
unfolding close_state waited
close_state-answered meanwhile result l w t e none_open =
    let (s, e', none_left, all) = drop_state-answered w.state t in
    (
      record w { state = s },
      rw (e, none_open, e'),
      subst (λ xs. Perm (xs ++ w.dropped) (taken w))
          (ap (◌++◌ (answered s)) none_left ∙ append-nil (answered s))
          (Perm.append_right w.dropped all),
    )

waited-hangs : (n : ℕ) (l : Loop) → n ≢ 0 → waited n l ≡ hangs
unfolding waited
waited-hangs zero l left = absurd (left refl)
waited-hangs (suc n) l left = refl

close_state-hangs :
    (meanwhile : List Happening) (result : Result (Unit {0}) WorkerError) (l w : Loop)
    → happen_all meanwhile l ≡ returns w
    → w.tasks ≢ 0
    → close_state meanwhile (result, l) ≡ hangs
unfolding close_state
close_state-hangs meanwhile result l w e left = rw (e, waited-hangs w.tasks w left)

-- Of a worker whose start failed no promise has a box.
abbrev pub IsCausalFrom : Result Bool WorkerError → List Event → List Happening → Type 0
IsCausalFrom (ok has_fetch) es meanwhile = IsCausal has_fetch 0 es meanwhile
IsCausalFrom (err problem) es meanwhile = All (IsCausalStep 0) meanwhile

-- The loop of a worker that has started.
after_start-Accounted :
    (spawned : ℕ) (es : List Event) (meanwhile : List Happening)
    (started : Result Bool WorkerError × ℕ)
    → IsCausalFrom started.0 es meanwhile
    → (result : Result (Unit {0}) WorkerError) × (l : Loop) × (after_start spawned es started
        ≡ returns (result, l))
      × Accounted (start_loop started.1 spawned) l (queued es)
      × All (IsCausalStep (length l.state.cells)) meanwhile
unfolding after_start start_loop new_state
after_start-Accounted spawned es meanwhile (err problem, n) c =
    let l = start_loop n spawned in
    (err problem, close_channel es l, refl, close_channel-Accounted es l new_state-IsTracked, c)
after_start-Accounted spawned es meanwhile (ok has_fetch, n) c =
    serve_events-Accounted has_fetch es meanwhile (start_loop n spawned) new_state-IsTracked c

-- A worker that the monitor takes, up to where it waits for its tasks, and its end.
pub record Lived (engine : Engine) (spawned : ℕ) (es : List Event) (meanwhile : List Happening)
    : Type 0 where
  pub result : Result (Unit {0}) WorkerError
  pub served : Loop
  pub waiting : Loop
  pub task : create_task engine.monitored engine spawned es ≡ returns (result, served)
  pub waits : happen_all meanwhile served ≡ returns waiting
  pub all :
      Perm ((answered waiting.state ++ pending waiting.state.cells) ++ waiting.dropped) (queued es)
  pub ends :
      open_tasks meanwhile served.tasks ≡ 0
      → (l : Loop) × (create_cancel_safe_task engine spawned es meanwhile ≡ returns (result, l))
        × Perm (answered l.state ++ l.dropped) (queued es)
  pub never_ends :
      open_tasks meanwhile served.tasks ≢ 0
      → create_cancel_safe_task engine spawned es meanwhile ≡ hangs

-- A worker that the monitor takes, and whose start neither panics nor breaks the contract of
-- `Promised::new`, comes to the end of its loop, and each request that was ever sent to it has been
-- answered, or is pending in a box of the state, or had its sender dropped, exactly once: whether its
-- start, a call or the building of a function fails, and whichever of its promises resolve, in the
-- loop or while the state waits for the tasks of `fetch`. Once no task is open the worker ends with a
-- result, and each request has been answered, or had its sender dropped, exactly once; if a task never
-- ends, the worker does not. A promise is assumed to resolve only through a box that was made before.
pub create_cancel_safe_task-answered :
    (engine : Engine) (spawned : ℕ) (es : List Event) (meanwhile : List Happening)
    (started : Result Bool WorkerError × ℕ)
    → engine.monitored ≡ true
    → initialize engine 0 ≡ returns started
    → IsCausalFrom started.0 es meanwhile
    → Lived engine spawned es meanwhile
unfolding create_cancel_safe_task create_task close_handle start_loop new_state
create_cancel_safe_task-answered engine spawned es meanwhile started monitored e c =
    let (result, l, e', a, c') = after_start-Accounted spawned es meanwhile started c in
    let (w, waits, aw, left) = happen_all-Accounted meanwhile l a.tracked c' in
    let all : Perm (taken w) (queued es) = Perm.trans aw.all (rw append-nil a.all) in
    let task = ap (λ m. create_task m engine spawned es) monitored ∙ rw e e' in
    let whole : create_cancel_safe_task engine spawned es meanwhile
        ≡ close_state meanwhile (result, l) =
      rw (task, monitored) in
    record {
      result = result;
      served = l;
      waiting = w;
      task = task;
      waits = waits;
      all = all;
      ends = λ none_open.
          let (l', closed, answers) =
            close_state-answered meanwhile result l w aw.tracked waits (left ∙ none_open) in
          (l', whole ∙ closed, Perm.trans answers all);
      never_ends = λ some_open.
          whole
          ∙ close_state-hangs meanwhile result l w waits
              (λ none_open. some_open (sym left ∙ none_open));
    }
