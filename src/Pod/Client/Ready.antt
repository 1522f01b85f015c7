-- ===== src/Pod/Client/Ready.antt =====
-- src/runtime/pod/handle.rs on a pod that runs and has not outgrown its table.
use serverlessd.Prelude.{
  ◌<◌, [], ◌∷◌, if◌then◌else◌, ℕ, suc, ◌≤◌, ◌≡◌, refl, ap, ◌∙◌, Bool, true, false, ◌++◌, some,
  arith, length, ltb, ltb→lt, returns,
}
use serverlessd.Pod.{
  new_pod, Allocator, WorkerHandle, WorkerTask, WorkerTrigger, to_worker, forwarded, handle,
  forward, get_worker,
}
use serverlessd.Pod.Table.{
  get_worker-IsDense, IsDense, new_pod-IsDense, with_worker, create_worker_lem, with_worker-IsDense,
  length-with_worker,
}
use serverlessd.Pod.Creation.{with_worker_capacity}
use serverlessd.Pod.Counter.{has_vacancy-IsDense, forward-IsDense, forward_same}
use serverlessd.Pod.Halting.{send_lem, halts, handle-halt}
use serverlessd.Pod.Client.{PodHandle, start, trigger, has_vacancies, create_worker, halt}

-- The number of workers that a pod was given.
abbrev pub load : PodHandle → ℕ
load h = length h.pod.tasks

abbrev pub is_free : PodHandle → Bool
is_free h = ltb (load h) h.pod.workers.capacity

-- A running pod with a dense table, within the capacity that its start asked for.
pub record IsReady (a : Allocator) (n_workers : ℕ) (h : PodHandle) : Type 0 where
  pub dense : IsDense h.pod
  pub running : h.running ≡ true
  pub capacity : h.pod.workers.capacity ≡ a.with_capacity n_workers
  pub fits : load h ≤ h.pod.workers.capacity

pub start-IsReady : (a : Allocator) (n : ℕ) → IsReady a n (start a n)
unfolding start new_pod
start-IsReady a n = record {
  dense = new_pod-IsDense a n;
  running = refl;
  capacity = refl;
  fits = omega arith;
}

pub load-start : (a : Allocator) (n : ℕ) → load (start a n) ≡ 0
unfolding start new_pod
load-start a n = refl

pub sent-start : (a : Allocator) (n : ℕ) → (start a n).pod.sent ≡ []
unfolding start new_pod
sent-start a n = refl

-- The first worker of a pod.
pub with_first :
    (a : Allocator) (n : ℕ) (task : WorkerTask)
    → ((with_worker a task (start a n).pod).tasks ≡ task ∷ [])
      × (get_worker 0 (with_worker a task (start a n).pod) ≡ some 0)
unfolding start new_pod with_worker get_worker
with_first a n task = (refl, refl)

pub start_free : (a : Allocator) (n : ℕ) → 0 < n → is_free (start a n) ≡ true
unfolding start new_pod
start_free a n lt = let room = a.with_capacity_holds n in ground arith

module _ (a : Allocator) (n : ℕ) (is_open : WorkerHandle → Bool) where
  pub has_vacancies-IsReady :
      (h : PodHandle) → IsReady a n h → has_vacancies a is_open h ≡ returns (is_free h, h)
  unfolding has_vacancies handle
  has_vacancies-IsReady h r = ground (arith, has_vacancy-IsDense h.pod r.dense)

  abbrev pub grown : WorkerTask → PodHandle → PodHandle
  grown task h = record { pod = with_worker a task h.pod; running = true }

  pub create_worker-IsReady :
      (task : WorkerTask) (h : PodHandle)
      → IsReady a n h
      → create_worker a is_open task h ≡ returns (some (load h), grown task h)
  unfolding create_worker handle
  create_worker-IsReady task h r = ground (arith, create_worker_lem a task h.pod r.dense)

  pub grown-IsReady :
      (task : WorkerTask) (h : PodHandle)
      → IsReady a n h
      → is_free h ≡ true
      → IsReady a n (grown task h) × (load (grown task h) ≡ suc (load h))
  grown-IsReady task h r f =
      let kept =
        with_worker_capacity a task h.pod r.dense.no_vacancies
          (has_vacancy-IsDense h.pod r.dense ∙ f) in
      let one_more = length-with_worker a task h.pod in
      let room = ltb→lt (load h) h.pod.workers.capacity f in
      (
        record {
          dense = with_worker-IsDense a task h.pod r.dense;
          running = refl;
          capacity = kept ∙ r.capacity;
          fits = omega arith;
        },
        one_more,
      )

  -- The pod after a trigger for one of its workers.
  abbrev pub forwarded_to : ℕ → WorkerTrigger → PodHandle → PodHandle
  forwarded_to id t h = record {
    pod = forward is_open (get_worker id h.pod) t h.pod;
    running = true;
  }

  pub trigger-IsReady :
      (id : ℕ) (t : WorkerTrigger) (h : PodHandle)
      → IsReady a n h
      → trigger a is_open (to_worker id t) h ≡ returns (some forwarded, forwarded_to id t h)
  unfolding trigger handle
  trigger-IsReady id t h r = ground arith

  pub forwarded_to-IsReady :
      (id : ℕ) (t : WorkerTrigger) (h : PodHandle)
      → IsReady a n h
      → IsReady a n (forwarded_to id t h)
  forwarded_to-IsReady id t h r =
      let same = forward_same is_open (get_worker id h.pod) t h.pod in
      let same_load = ap length same.0 in
      let same_capacity = same.1 in
      record {
        dense = forward-IsDense is_open (get_worker id h.pod) t h.pod r.dense;
        running = refl;
        capacity = same.1 ∙ r.capacity;
        fits = omega arith;
      }

  pub load-forwarded_to :
      (id : ℕ) (t : WorkerTrigger) (h : PodHandle) → load (forwarded_to id t h) ≡ load h
  load-forwarded_to id t h = ap length (forward_same is_open (get_worker id h.pod) t h.pod).0

  pub halt-IsReady :
      (h : PodHandle)
      → IsReady a n h
      → halt a is_open h
        ≡ returns (
          true,
          record {
            pod = record h.pod {
              sent = h.pod.sent ++ halts is_open (load h);
              workers = record h.pod.workers { items = [] };
            };
            running = false;
          },
        )
  unfolding halt
  halt-IsReady h r = ground (arith, handle-halt a is_open h.pod r.dense)

  -- A trigger for a worker of the table is the last thing sent, if the worker still listens.
  pub forwarded_to_sent :
      (id : ℕ) (t : WorkerTrigger) (h : PodHandle)
      → IsReady a n h
      → id < load h
      → ((forwarded_to id t h).pod.tasks ≡ h.pod.tasks)
        × ((forwarded_to id t h).pod.sent ≡ h.pod.sent ++ (if is_open id then (id, t) ∷ [] else []))
  unfolding forward
  forwarded_to_sent id t h r lt =
      let mine = get_worker-IsDense h.pod id r.dense lt in
      let after = ap (λ o. forward is_open o t h.pod) mine ∙ send_lem is_open id t h.pod in
      (ap (λ p. p.tasks) after, ap (λ p. p.sent) after)
