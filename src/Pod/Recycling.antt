-- ===== src/Pod/Recycling.antt =====
-- What src/runtime/pod/core.rs does with slots that are given back. No trigger reaches
-- `remove_worker`, so none of this is on the path of `pod_task`.
use serverlessd.Prelude.{
  inr, inl, Option-cases, ℕ, suc, ◌<◌, ◌≡◌, refl, ap, ◌∙◌, Bool, true, List, [], ◌∷◌, ◌++◌, Option,
  none, some, arith, length, set, get_elem?, length-append, length-set, set-append_left,
  get_elem?-append_left, get_elem?-append_length, subst, get_elem?-set_self, lt_of_get_elem?,
  get_elem?_in_range, returns, undefined, hangs,
}
use serverlessd.Pod.{
  push, Allocator, Pod, WorkerHandle, WorkerTask, halt_worker, halt_pod, create_worker,
  remove_worker, close_workers, send, handle,
}

close_workers_empty_slot :
    (is_open : WorkerHandle → Bool) (xs ys : List (Option WorkerHandle)) (p : Pod)
    → close_workers is_open (xs ++ none ∷ ys) p ≡ hangs
unfolding close_workers
close_workers_empty_slot is_open [] ys p = refl
close_workers_empty_slot is_open (none ∷ xs) ys p = refl
close_workers_empty_slot is_open (some w ∷ xs) ys p =
    close_workers_empty_slot is_open xs ys (send is_open w halt_worker p)

-- A pod with an empty slot never answers a halt, wherever the slot stands and whatever the
-- workers do.
pub handle-halt_empty_slot :
    (a : Allocator) (is_open : WorkerHandle → Bool) (xs ys : List (Option WorkerHandle)) (p : Pod)
    → p.workers.items ≡ xs ++ none ∷ ys
    → handle a is_open halt_pod p ≡ hangs
unfolding handle
handle-halt_empty_slot a is_open xs ys p e =
    let stuck =
      ap (λ slots. close_workers is_open slots p) e ∙ close_workers_empty_slot is_open xs ys p in
    rw stuck

-- The pod that a creation in the vacancy v leaves behind.
abbrev reused : Allocator → WorkerTask → Pod → ℕ → List ℕ → Pod
reused a task p v rest = record p {
  workers = record (push a p.workers none) {
    items = set p.workers.items v (some (length p.tasks)) ++ none ∷ [];
  };
  vacancies = rest;
  tasks = p.tasks ++ task ∷ [];
}

create_worker-reused :
    (a : Allocator) (task : WorkerTask) (p : Pod) (v : ℕ) (rest : List ℕ)
    → p.vacancies ≡ v ∷ rest
    → v < length p.workers.items
    → create_worker a task p ≡ returns (v, reused a task p v rest)
unfolding create_worker push
create_worker-reused a task p v rest e h =
    let (old, found) = get_elem?_in_range p.workers.items v h in
    ground (
      arith,
      found,
      get_elem?-append_left p.workers.items (none ∷ []) v h,
      set-append_left p.workers.items (none ∷ []) v (some (length p.tasks)) h,
    )

-- A creation that reuses a vacancy hands out the vacant id, yet it also makes the table one slot
-- longer, by an empty slot at its end; and a halt that comes next is never answered.
pub create_worker_reuse_leaks :
    (a : Allocator) (is_open : WorkerHandle → Bool) (task : WorkerTask) (p : Pod) (v : ℕ)
    (rest : List ℕ)
    → p.vacancies ≡ v ∷ rest
    → v < length p.workers.items
    → (q : Pod) × (create_worker a task p ≡ returns (v, q))
      × (length q.workers.items ≡ suc (length p.workers.items))
      × (get_elem? q.workers.items (length p.workers.items) ≡ some none)
      × (handle a is_open halt_pod q ≡ hangs)
create_worker_reuse_leaks a is_open task p v rest e h =
    let written = set p.workers.items v (some (length p.tasks)) in
    (
      reused a task p v rest,
      create_worker-reused a task p v rest e h,
      omega (
        arith,
        length-append written (none ∷ []),
        length-set p.workers.items v (some (length p.tasks)),
      ),
      subst (λ n. get_elem? (written ++ none ∷ []) n ≡ some none)
          (length-set p.workers.items v (some (length p.tasks)))
          (get_elem?-append_length written (none ∷ [])),
      handle-halt_empty_slot a is_open written [] (reused a task p v rest) refl,
    )

-- Removing one worker twice is undefined behaviour: the emptied slot is taken unchecked.
pub remove_worker_twice :
    (id : ℕ) (p q : Pod) → remove_worker id p ≡ returns (true, q) → remove_worker id q ≡ undefined
unfolding remove_worker
remove_worker_twice id p q h = elim (Option-cases (get_elem? p.workers.items id)) [
  | inl e ↦ ground arith
  | inr (slot, e) ↦ ground (
    arith,
    get_elem?-set_self p.workers.items id none (lt_of_get_elem? p.workers.items id {a = slot} e),
  )
]
