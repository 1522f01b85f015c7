-- ===== src/Worker/Accounting.antt =====
-- No sender is lost in a worker's life (src/runtime/worker/task.rs and state.rs).
use mathlib.Core.List.{append-nil, append_assoc, Perm, perm_append_singleton}
use native.Mathlib.Numerals.{add-one}
use mathlib.Core.List.Perm
use serverlessd.Prelude.{
  ℕ, suc, ◌-◌, All, ◌<◌, ◌≡◌, refl, sym, ap, ◌∙◌, subst, Bool, true, false, List, [], ◌∷◌, ◌++◌,
  some, length, returns, Result, ok, err, length-append,
}
use serverlessd.Pod.{ReplyTo}
use serverlessd.Repliers.{resolve, Pointer, WorkerState}
use serverlessd.Repliers.Tracking.{cleanup-CleanedUp, IsTracked, register-Registered}
use serverlessd.Repliers.Answers.{
  senders, resolve-Resolved, resolve-IsTracked, senders-CleanedUp, senders-Registered,
}
use serverlessd.Worker.{
  Str, Called, threw, plain_value, promise, Event, http_request, halt_request, happens, Happening,
  promise_resolved, task_spawned, task_ended, happen, happen_all, Loop, queued, serve_http,
  close_channel, cleaned, register_reply,
}
use serverlessd.Worker.Starting.{WorkerError, runtime_error, timeout}

-- The boxes there are after a request, where n were before.
abbrev pub boxes : Bool → Called → ℕ → ℕ
boxes true (promise built) n = suc n
boxes true threw n = n
boxes true plain_value n = n
boxes false called n = n

-- What serving a request comes to.
abbrev pub result_of : Bool → Called → Result (Unit {0}) WorkerError
result_of false called = ok tt
result_of true threw = err timeout
result_of true plain_value = ok tt
result_of true (promise (ok _)) = ok tt
result_of true (promise (err details)) = err (runtime_error details)

-- A promise resolves only through one of the n boxes that were made before.
abbrev pub IsCausalStep : ℕ → Happening → Type 0
IsCausalStep n (promise_resolved p text) = p < n
IsCausalStep n task_spawned = Unit {0}
IsCausalStep n task_ended = Unit {0}

-- So it is in the loop, and in what happens after it; the last list is what happens at the end.
abbrev pub IsCausal : Bool → ℕ → List Event → List Happening → Type 0
IsCausal has_fetch n [] meanwhile = All (IsCausalStep n) meanwhile
IsCausal has_fetch n (http_request reply called ∷ es) meanwhile =
    elim (result_of has_fetch called) [
      | ok _ ↦ IsCausal has_fetch (boxes has_fetch called n) es meanwhile
      | err _ ↦ All (IsCausalStep (boxes has_fetch called n)) meanwhile
    ]
IsCausal has_fetch n (halt_request ∷ es) meanwhile = All (IsCausalStep n) meanwhile
IsCausal has_fetch n (happens h ∷ es) meanwhile =
    IsCausalStep n h × IsCausal has_fetch n es meanwhile

-- The tasks that have not ended.
abbrev pub open_tasks : List Happening → ℕ → ℕ
open_tasks [] n = n
open_tasks (promise_resolved p text ∷ hs) n = open_tasks hs n
open_tasks (task_spawned ∷ hs) n = open_tasks hs (suc n)
open_tasks (task_ended ∷ hs) n = open_tasks hs (n - 1)

-- Every sender the worker ever took from its channel.
abbrev pub taken : Loop → List ReplyTo
taken l = senders l.state ++ l.dropped

-- The state is as it should be, and holds just these senders beside those of the state before.
pub record Accounted (l l' : Loop) (more : List ReplyTo) : Type 0 where
  pub tracked : IsTracked l'.state
  pub all : Perm (taken l') (taken l ++ more)

abbrev pub Served : Bool → ReplyTo → Called → Loop → Type 0
Served has_fetch reply called l =
    (l' : Loop) × (serve_http has_fetch reply called l ≡ returns (result_of has_fetch called, l'))
    × Accounted l l' (reply ∷ [])
    × (length l'.state.cells ≡ boxes has_fetch called (length l.state.cells))

-- A sender put into a box, or dropped: the order of the account is not the order of the requests.
boxed : (xs ys : List ReplyTo) (r : ReplyTo) → Perm ((xs ++ r ∷ []) ++ ys) ((xs ++ ys) ++ r ∷ [])
boxed xs ys r =
    rw append_assoc (rw append_assoc (Perm.append_left xs (Perm.symm (perm_append_singleton r ys))))

serve_http-promise :
    (reply : ReplyTo) (l : Loop)
    → IsTracked l.state
    → (l' : Loop) × (register_reply reply l ≡ returns l')
      × Accounted l l' (reply ∷ [])
      × (length l'.state.cells ≡ suc (length l.state.cells))
unfolding register_reply
serve_http-promise reply l t =
    let d = register-Registered reply l.state t in
    (
      record l { state = d.after },
      rw d.result,
      record {
        tracked = d.tracked;
        all = rw (senders-Registered reply l.state d) (boxed (senders l.state) l.dropped reply);
      },
      ap length d.cells
          ∙ length-append l.state.cells (some reply ∷ [])
          ∙ add-one (length l.state.cells),
    )

-- Dropping a sender.
drop_sender-Accounted :
    (reply : ReplyTo) (l l' : Loop)
    → IsTracked l.state
    → l'.state ≡ l.state
    → l'.dropped ≡ l.dropped ++ reply ∷ []
    → Accounted l l' (reply ∷ [])
drop_sender-Accounted reply l l' t same e = record {
  tracked = subst IsTracked (sym same) t;
  all = rw (same, e, append_assoc (senders l.state) l.dropped (reply ∷ [])) (Perm.refl _);
}

pub serve_http-Served :
    (has_fetch : Bool) (reply : ReplyTo) (called : Called) (l : Loop)
    → IsTracked l.state
    → Served has_fetch reply called l
unfolding serve_http
serve_http-Served false reply called l t =
    (_, refl, drop_sender-Accounted reply l _ t refl refl, refl)
serve_http-Served true reply threw l t =
    (_, refl, drop_sender-Accounted reply l _ t refl refl, refl)
serve_http-Served true reply plain_value l t =
    (_, refl, drop_sender-Accounted reply l _ t refl refl, refl)
serve_http-Served true reply (promise (ok _)) l t =
    let (l', e, a, n) = serve_http-promise reply (record l { ticks = suc (suc l.ticks) }) t in
    (l', rw e, record { tracked = a.tracked; all = a.all }, n)
serve_http-Served true reply (promise (err details)) l t =
    let (l', e, a, n) = serve_http-promise reply (record l { ticks = suc (suc l.ticks) }) t in
    (l', rw e, record { tracked = a.tracked; all = a.all }, n)

pub chain-Accounted :
    (l l' l'' : Loop) (more more' : List ReplyTo)
    → Accounted l l' more
    → Accounted l' l'' more'
    → Accounted l l'' (more ++ more')
chain-Accounted l l' l'' more more' a b = record {
  tracked = b.tracked;
  all =
      subst (Perm (taken l'')) (append_assoc (taken l) more more')
        (Perm.trans b.all (Perm.append_right more' a.all));
}

pub unchanged-Accounted : (l : Loop) → IsTracked l.state → Accounted l l []
unchanged-Accounted l t = record { tracked = t; all = rw append-nil (Perm.refl _) }

pub close_channel-Accounted :
    (es : List Event) (l : Loop) → IsTracked l.state → Accounted l (close_channel es l) (queued es)
close_channel-Accounted es l t = record {
  tracked = t;
  all = rw (append_assoc (senders l.state) l.dropped (queued es)) (Perm.refl _);
}

-- The clean-up at the start of a round changes no sender.
pub cleaned-Accounted :
    (l : Loop)
    → IsTracked l.state
    → (l' : Loop) × (cleaned l ≡ returns l')
      × Accounted l l' []
      × (length l'.state.cells ≡ length l.state.cells)
unfolding cleaned
cleaned-Accounted l t =
    let d = cleanup-CleanedUp l.state t in
    (
      record l { state = d.after },
      rw d.result,
      record {
        tracked = d.tracked;
        all = rw (append-nil, senders-CleanedUp l.state d) (Perm.refl _);
      },
      ap length d.cells,
    )

-- A promise that resolves moves its sender from its box to the answers.
pub resolved-Accounted :
    (p : Pointer) (text : Str) (l : Loop)
    → IsTracked l.state
    → p < length l.state.cells
    → (s : WorkerState) × (resolve p text l.state ≡ returns s)
      × Accounted l (record l { state = s; ticks = suc l.ticks }) []
      × (length s.cells ≡ length l.state.cells)
resolved-Accounted p text l t lt =
    let d = resolve-Resolved p text l.state lt in
    (
      d.after,
      d.result,
      record {
        tracked = resolve-IsTracked p text l.state d t;
        all = rw append-nil (Perm.append_right l.dropped d.conserved);
      },
      d.same_length,
    )

-- What happens beside the loop moves senders from their boxes to the answers at most.
pub happen-Accounted :
    (h : Happening) (l : Loop)
    → IsTracked l.state
    → IsCausalStep (length l.state.cells) h
    → (l' : Loop) × (happen h l ≡ returns l')
      × Accounted l l' []
      × (length l'.state.cells ≡ length l.state.cells)
      × (l'.tasks ≡ open_tasks (h ∷ []) l.tasks)
unfolding happen
happen-Accounted (promise_resolved p text) l t c =
    let (s, e, a, n) = resolved-Accounted p text l t c in
    (record l { state = s; ticks = suc l.ticks }, rw e, a, n, refl)
happen-Accounted task_spawned l t c =
    let l' = record l { tasks = suc l.tasks } in
    (l', refl, record { tracked = t; all = (unchanged-Accounted l t).all }, refl, refl)
happen-Accounted task_ended l t c =
    let l' = record l { tasks = l.tasks - 1 } in
    (l', refl, record { tracked = t; all = (unchanged-Accounted l t).all }, refl, refl)

open_tasks-cons :
    (h : Happening) (hs : List Happening) (n : ℕ)
    → open_tasks hs (open_tasks (h ∷ []) n) ≡ open_tasks (h ∷ hs) n
open_tasks-cons (promise_resolved p text) hs n = refl
open_tasks-cons task_spawned hs n = refl
open_tasks-cons task_ended hs n = refl

pub happen_all-Accounted :
    (hs : List Happening) (l : Loop)
    → IsTracked l.state
    → All (IsCausalStep (length l.state.cells)) hs
    → (l' : Loop) × (happen_all hs l ≡ returns l')
      × Accounted l l' []
      × (l'.tasks ≡ open_tasks hs l.tasks)
unfolding happen_all
happen_all-Accounted [] l t c = (l, refl, unchanged-Accounted l t, refl)
happen_all-Accounted (h ∷ hs) l t (first, c) =
    let (l₁, e, a, n, tasks) = happen-Accounted h l t first in
    let (l', e', a', tasks') =
      happen_all-Accounted hs l₁ a.tracked (subst (λ k. All (IsCausalStep k) hs) (sym n) c) in
    (
      l',
      rw e e',
      chain-Accounted l l₁ l' [] [] a a',
      tasks' ∙ ap (open_tasks hs) tasks ∙ open_tasks-cons h hs l.tasks,
    )
