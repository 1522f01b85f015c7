-- ===== src/Pod/Halting.antt =====
-- The `Halt` branch of `pod_task` (src/runtime/pod/task.rs).
use mathlib.Core.List.{append-nil, append_assoc}
use serverlessd.Prelude.{
  ◌∙◌, ap, ℕ, zero, suc, ◌≡◌, refl, Bool, List, [], ◌∷◌, ◌++◌, Option, some, none, arith, length,
  returns, ◌>>=◌, if◌then◌else◌,
}
use serverlessd.Pod.{
  Allocator, Pod, WorkerHandle, WorkerTrigger, halt_worker, halt_pod, halted, close_workers, send,
  handle,
}
use serverlessd.Pod.Table.{IsDense, slots}

-- One `Halt` for each of the first n workers that still listens, in slot order.
abbrev pub halts : (WorkerHandle → Bool) → ℕ → List (WorkerHandle × WorkerTrigger)
halts is_open zero = []
halts is_open (suc n) = halts is_open n ++ (if is_open n then (n, halt_worker) ∷ [] else [])

close_workers-append :
    (is_open : WorkerHandle → Bool) (xs ys : List (Option WorkerHandle)) (p : Pod)
    → close_workers is_open (xs ++ ys) p ≡ (close_workers is_open xs p >>= close_workers is_open ys)
unfolding close_workers
close_workers-append is_open [] ys p = refl
close_workers-append is_open (none ∷ xs) ys p = refl
close_workers-append is_open (some w ∷ xs) ys p =
    close_workers-append is_open xs ys (send is_open w halt_worker p)

pub send_lem :
    (is_open : WorkerHandle → Bool) (w : WorkerHandle) (t : WorkerTrigger) (p : Pod)
    → send is_open w t p ≡ record p { sent = p.sent ++ (if is_open w then (w, t) ∷ [] else []) }
unfolding send
send_lem is_open w t p = ground (arith, append-nil p.sent)

close_workers-slots :
    (is_open : WorkerHandle → Bool) (n : ℕ) (p : Pod)
    → close_workers is_open (slots n) p ≡ returns (record p { sent = p.sent ++ halts is_open n })
unfolding close_workers
close_workers-slots is_open zero p = ground (arith, append-nil p.sent)
close_workers-slots is_open (suc n) p =
    rw
      (
        close_workers-append is_open (slots n) (some n ∷ []) p,
        close_workers-slots is_open n p,
        send_lem is_open n halt_worker,
      )
      (rw append_assoc)

-- A dense pod answers a halt: each worker that still listens gets exactly one `Halt`, in slot
-- order and after all that was sent before, and the table is emptied.
pub handle-halt :
    (a : Allocator) (is_open : WorkerHandle → Bool) (p : Pod)
    → IsDense p
    → handle a is_open halt_pod p
      ≡ returns (
        halted,
        record p {
          sent = p.sent ++ halts is_open (length p.tasks);
          workers = record p.workers { items = [] };
        },
      )
unfolding handle
handle-halt a is_open p d =
    let closed =
      ap (λ xs. close_workers is_open xs p) d.filled
      ∙ close_workers-slots is_open (length p.tasks) p in
    rw closed
