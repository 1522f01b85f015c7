-- ===== src/Pod/Table.antt =====
-- The worker table of src/runtime/pod/core.rs as the pod's task uses it: no slot is given back.
use native.Mathlib.Decide.{dec_lt}
use native.Mathlib.Numerals.{add-one}
use serverlessd.Prelude.{
  ℕ, zero, suc, ◌<◌, ◌≡◌, refl, sym, ap, ◌∙◌, List, [], ◌∷◌, ◌++◌, Option, none, some, arith,
  length, get_elem?, length-append, set-append_length, get_elem?-append_left,
  get_elem?-append_length, returns,
}
use serverlessd.Pod.{
  get_worker, Allocator, Pod, WorkerTask, WorkerHandle, create_worker, push, new_pod,
}

-- The slots of a table in which slot i holds the i-th spawned worker.
abbrev pub slots : ℕ → List (Option WorkerHandle)
slots zero = []
slots (suc n) = slots n ++ some n ∷ []

-- No slot is vacant, and slot i holds the i-th spawned worker.
pub record IsDense (p : Pod) : Type 0 where
  pub no_vacancies : p.vacancies ≡ []
  pub filled : p.workers.items ≡ slots (length p.tasks)

pub length-slots : (n : ℕ) → length (slots n) ≡ n
length-slots zero = refl
length-slots (suc n) = omega (arith, length-append (slots n) (some n ∷ []), length-slots n)

pub get_elem?-slots : (n i : ℕ) → i < n → get_elem? (slots n) i ≡ some (some i)
get_elem?-slots zero i h = elim h [ ]
get_elem?-slots (suc n) i h = elim (dec_lt i n) [
  | yes lower ↦
      get_elem?-append_left (slots n) (some n ∷ []) i (rw (length-slots n) lower)
      ∙ get_elem?-slots n i lower
  | no last ↦
      let e : i ≡ n = omega arith in
      rw (e, ap (get_elem? (slots n ++ some n ∷ [])) (sym (length-slots n)))
        (get_elem?-append_length (slots n) (some n ∷ []))
]

pub length-IsDense : (p : Pod) → IsDense p → length p.workers.items ≡ length p.tasks
length-IsDense p d = ap length d.filled ∙ length-slots (length p.tasks)

pub new_pod-IsDense : (a : Allocator) (n : ℕ) → IsDense (new_pod a n)
unfolding new_pod
new_pod-IsDense a n = record { no_vacancies = refl; filled = refl }

-- The pod that `create_worker` leaves behind.
unfoldable pub with_worker : Allocator → WorkerTask → Pod → Pod
unfolding push
with_worker a task p = record p {
  workers = record (push a p.workers none) {
    items = p.workers.items ++ some (length p.tasks) ∷ [];
  };
  tasks = p.tasks ++ task ∷ [];
}

pub create_worker_lem :
    (a : Allocator) (task : WorkerTask) (p : Pod)
    → IsDense p
    → create_worker a task p ≡ returns (length p.tasks, with_worker a task p)
unfolding create_worker with_worker
create_worker_lem a task p d = ground (
  arith,
  length-IsDense p d,
  get_elem?-append_length p.workers.items (none ∷ []),
  set-append_length p.workers.items none (some (length p.tasks)),
)

pub with_worker-IsDense :
    (a : Allocator) (task : WorkerTask) (p : Pod) → IsDense p → IsDense (with_worker a task p)
unfolding with_worker
with_worker-IsDense a task p d = record {
  no_vacancies = d.no_vacancies;
  filled =
      ap (λ xs. xs ++ some (length p.tasks) ∷ []) d.filled
      ∙ sym (ap slots (length-append p.tasks (task ∷ []) ∙ add-one (length p.tasks)));
}

pub length-with_worker :
    (a : Allocator) (task : WorkerTask) (p : Pod)
    → length (with_worker a task p).tasks ≡ suc (length p.tasks)
unfolding with_worker
length-with_worker a task p = length-append p.tasks (task ∷ []) ∙ add-one (length p.tasks)

pub get_worker-IsDense :
    (p : Pod) (id : ℕ) → IsDense p → id < length p.tasks → get_worker id p ≡ some id
unfolding get_worker
get_worker-IsDense p id d lt =
    let found = ap (λ xs. get_elem? xs id) d.filled ∙ get_elem?-slots (length p.tasks) id lt in
    rw (found, get_worker)
