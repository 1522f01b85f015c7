-- ===== src/Pod/Counter.antt =====
-- src/runtime/pod against what its clients see: a counter of workers under a capacity.
use serverlessd.Prelude.{
  ℕ, suc, Bool, Option, none, some, ◌≡◌, refl, ap, List, [], ◌∷◌, arith, length, ltb, returns,
  ◌>>=◌, if◌then◌else◌,
}
use serverlessd.Pod.{
  Allocator, Pod, PodReply, Round, check_vacancies, create_worker_in, to_worker, halt_pod, vacancy,
  created, forwarded, halted, handle, pod_task, has_vacancy, push, forward, send, get_worker,
  WorkerTask, WorkerHandle, WorkerTrigger,
}
use serverlessd.Pod.Table.{
  IsDense, with_worker, length-with_worker, create_worker_lem, with_worker-IsDense, length-IsDense,
}
use serverlessd.Pod.Halting.{handle-halt}

-- The replies of a counter that holds n workers and has room for `capacity`.
abbrev pub counter_replies : Allocator → List Round → ℕ → ℕ → List PodReply
counter_replies a [] n capacity = []
counter_replies a ((check_vacancies, is_open) ∷ rounds) n capacity =
    vacancy (ltb n capacity) ∷ counter_replies a rounds n capacity
counter_replies a ((create_worker_in task, is_open) ∷ rounds) n capacity =
    created n ∷ counter_replies a rounds (suc n) (if ltb n capacity then capacity else a.grow n)
counter_replies a ((to_worker id trigger, is_open) ∷ rounds) n capacity =
    forwarded ∷ counter_replies a rounds n capacity
counter_replies a ((halt_pod, is_open) ∷ rounds) n capacity = halted ∷ []

pub has_vacancy-IsDense :
    (p : Pod) → IsDense p → has_vacancy p ≡ ltb (length p.tasks) p.workers.capacity
unfolding has_vacancy
has_vacancy-IsDense p d = ground (arith, length-IsDense p d)

capacity-with_worker :
    (a : Allocator) (task : WorkerTask) (p : Pod)
    → IsDense p
    → (with_worker a task p).workers.capacity ≡ (
        if ltb (length p.tasks) p.workers.capacity
        then p.workers.capacity
        else a.grow (length p.tasks))
unfolding with_worker push
capacity-with_worker a task p d = rw (length-IsDense p d)

-- A trigger for a worker changes nothing but what was sent.
pub forward-IsDense :
    (is_open : WorkerHandle → Bool) (o : Option WorkerHandle) (t : WorkerTrigger) (p : Pod)
    → IsDense p
    → IsDense (forward is_open o t p)
unfolding forward send
forward-IsDense is_open none t p d = d
forward-IsDense is_open (some w) t p d = ground arith

pub forward_same :
    (is_open : WorkerHandle → Bool) (o : Option WorkerHandle) (t : WorkerTrigger) (p : Pod)
    → ((forward is_open o t p).tasks ≡ p.tasks)
      × ((forward is_open o t p).workers.capacity ≡ p.workers.capacity)
unfolding forward send
forward_same is_open none t p = (refl, refl)
forward_same is_open (some w) t p = ground arith

-- From a dense pod, no list of rounds panics, blocks or breaks an `unsafe` contract, and the
-- replies are those of the counter.
pub pod_task-counter_replies :
    (a : Allocator) (rounds : List Round) (p : Pod)
    → IsDense p
    → (q : Pod) × (pod_task a rounds p
        ≡ returns (counter_replies a rounds (length p.tasks) p.workers.capacity, q))
unfolding pod_task handle
pod_task-counter_replies a [] p d = (p, refl)
pod_task-counter_replies a ((check_vacancies, is_open) ∷ rounds) p d =
    let (q, e) = pod_task-counter_replies a rounds p d in (q, rw (e, has_vacancy-IsDense p d))
pod_task-counter_replies a ((create_worker_in task, is_open) ∷ rounds) p d =
    let (q, e) =
      pod_task-counter_replies a rounds (with_worker a task p) (with_worker-IsDense a task p d) in
    (
      q,
      rw (
        create_worker_lem a task p d,
        e,
        length-with_worker a task p,
        capacity-with_worker a task p d,
      ),
    )
pod_task-counter_replies a ((to_worker id trigger, is_open) ∷ rounds) p d =
    let p' = forward is_open (get_worker id p) trigger p in
    let same = forward_same is_open (get_worker id p) trigger p in
    let (q, e) =
      pod_task-counter_replies a rounds p'
        (forward-IsDense is_open (get_worker id p) trigger p d) in
    (q, rw (e, same.0, same.1))
pod_task-counter_replies a ((halt_pod, is_open) ∷ rounds) p d =
    (_, ap (λ m. m >>= λ (reply, p'). returns (reply ∷ [], p')) (handle-halt a is_open p d))
