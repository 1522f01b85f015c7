-- ===== src/Pod/Creation.antt =====
-- `Pod::create_worker` (src/runtime/pod/core.rs) on a pod whose slots were never given back.
use serverlessd.Prelude.{
  ℕ, ◌<◌, ◌≡◌, refl, [], ◌∷◌, ◌++◌, some, arith, length, returns, get_elem?-append_left,
  get_elem?-append_length,
}
use serverlessd.Pod.{true, Allocator, Pod, WorkerTask, create_worker, get_worker, has_vacancy, push}
use serverlessd.Pod.Table.{
  IsDense, with_worker, create_worker_lem, with_worker-IsDense, length-IsDense,
}

with_worker_slot :
    (a : Allocator) (task : WorkerTask) (p : Pod)
    → IsDense p
    → get_worker (length p.tasks) (with_worker a task p) ≡ some (length p.tasks)
unfolding get_worker with_worker
with_worker_slot a task p d = ground (
  arith,
  length-IsDense p d,
  get_elem?-append_length p.workers.items (some (length p.tasks) ∷ []),
)

with_worker_others :
    (a : Allocator) (task : WorkerTask) (p : Pod) (i : ℕ)
    → i < length p.workers.items
    → get_worker i (with_worker a task p) ≡ get_worker i p
unfolding get_worker with_worker
with_worker_others a task p i h =
    ground (arith, get_elem?-append_left p.workers.items (some (length p.tasks) ∷ []) i h)

-- The worker just created holds the slot that the caller is told, every older slot keeps its
-- worker, the task is spawned once, and the table stays dense.
pub create_worker_fresh :
    (a : Allocator) (task : WorkerTask) (p : Pod)
    → IsDense p
    → (q : Pod) × (create_worker a task p ≡ returns (length p.workers.items, q))
      × IsDense q
      × (q.tasks ≡ p.tasks ++ task ∷ [])
      × (get_worker (length p.workers.items) q ≡ some (length p.tasks))
      × ((i : ℕ) → i < length p.workers.items → get_worker i q ≡ get_worker i p)
unfolding with_worker
create_worker_fresh a task p d = rw (length-IsDense p d) (
  with_worker a task p,
  create_worker_lem a task p d,
  with_worker-IsDense a task p d,
  refl,
  with_worker_slot a task p d,
  λ i h. with_worker_others a task p i (rw (length-IsDense p d) h),
)

-- Within the capacity that `has_vacancy` tests, a creation does not reallocate the table.
pub with_worker_capacity :
    (a : Allocator) (task : WorkerTask) (p : Pod)
    → p.vacancies ≡ []
    → has_vacancy p ≡ true
    → (with_worker a task p).workers.capacity ≡ p.workers.capacity
unfolding with_worker has_vacancy push
with_worker_capacity a task p e h = ground arith
