-- ===== src/Tests/Pods.antt =====
-- Pods and their clients.
use serverlessd.Prelude.{
  get_elem?, ◌<◌, ℕ, ◌≡◌, refl, Bool, true, false, List, [], ◌∷◌, ◌++◌, none, some, arith, All,
  length, returns, hangs, ◌⊎◌,
}
use serverlessd.Prelude.Text.{codes}
use serverlessd.Pod.{
  forward, push, Pod, Round, WorkerTask, WorkerHandle, halt_worker, http, check_vacancies,
  create_worker_in, to_worker, halt_pod, vacancy, created, forwarded, halted, pod_task,
  create_worker, get_worker, handle, close_workers, send, has_vacancy,
}
use serverlessd.Pod.Table.{IsDense}
use serverlessd.Pod.Counter.{pod_task-counter_replies, counter_replies}
use serverlessd.Pod.Creation.{create_worker_fresh}
use serverlessd.Pod.Halting.{handle-halt}
use serverlessd.Pod.Recycling.{create_worker_reuse_leaks, handle-halt_empty_slot}
use serverlessd.Pod.Client.{PodHandle}
use serverlessd.Pod.Client.Ready.{IsReady}
use serverlessd.Serverless.{Workers, pass_to_pod}
use serverlessd.Serverless
use serverlessd.Serverless.Scheduling.{IsFull}
use serverlessd.Serverless.Capacity.{Placed, create_worker-Placed}
use serverlessd.Tests.Samples.{exact}

abbrev task : WorkerTask
task = record { source = codes "export default {}" }

abbrev all_open : WorkerHandle → Bool
all_open w = true

-- Two workers in a table of capacity three.
abbrev pair : Pod
pair = record {
  workers = record { items = some 0 ∷ some 1 ∷ []; capacity = 3 };
  vacancies = [];
  tasks = task ∷ task ∷ [];
  sent = [];
}

pair-IsDense : IsDense pair
pair-IsDense = record { no_vacancies = refl; filled = refl }

abbrev rounds : List Round
rounds =
    (check_vacancies, all_open)
    ∷ (create_worker_in task, all_open)
    ∷ (to_worker 2 (http 7), all_open)
    ∷ (check_vacancies, all_open)
    ∷ (halt_pod, all_open)
    ∷ []

pod_task_run :
    (q : Pod) × (pod_task exact rounds pair
      ≡ returns (vacancy true ∷ created 2 ∷ forwarded ∷ vacancy false ∷ halted ∷ [], q))
unfolding pod_task handle create_worker has_vacancy push send close_workers forward get_worker
pod_task_run = (_, refl)

pod_task-counter_replies_example :
    (q : Pod) × (pod_task exact rounds pair ≡ returns (counter_replies exact rounds 2 3, q))
pod_task-counter_replies_example = pod_task-counter_replies exact rounds pair pair-IsDense

create_worker_fresh_example :
    (q : Pod) × (create_worker exact task pair ≡ returns (2, q))
    × IsDense q
    × (q.tasks ≡ (task ∷ task ∷ []) ++ task ∷ [])
    × (get_worker 2 q ≡ some 2)
    × ((i : ℕ) → i < 2 → get_worker i q ≡ get_worker i pair)
create_worker_fresh_example = create_worker_fresh exact task pair pair-IsDense

handle-halt_example :
    handle exact all_open halt_pod pair
    ≡ returns (
      halted,
      record pair {
        sent = (0, halt_worker) ∷ (1, halt_worker) ∷ [];
        workers = record { items = []; capacity = 3 };
      },
    )
handle-halt_example = handle-halt exact all_open pair pair-IsDense

-- The pair after its first worker was removed.
abbrev holed : Pod
holed = record pair {
  workers = record { items = none ∷ some 1 ∷ []; capacity = 3 };
  vacancies = 0 ∷ [];
}

create_worker_reuse_leaks_example :
    (q : Pod) × (create_worker exact task holed ≡ returns (0, q))
    × (length q.workers.items ≡ 3)
    × (get_elem? q.workers.items 2 ≡ some none)
    × (handle exact all_open halt_pod q ≡ hangs)
create_worker_reuse_leaks_example =
    create_worker_reuse_leaks exact all_open task holed 0 [] refl (omega arith)

handle-halt_empty_slot_example : handle exact all_open halt_pod holed ≡ hangs
handle-halt_empty_slot_example = handle-halt_empty_slot exact all_open [] (some 1 ∷ []) holed refl

-- A full pod of one worker, and the pair as a pod of capacity three.
abbrev single : Pod
single = record {
  workers = record { items = some 0 ∷ []; capacity = 1 };
  vacancies = [];
  tasks = task ∷ [];
  sent = [];
}

abbrev pair_handle : PodHandle
pair_handle = record { pod = pair; running = true }

abbrev pods : List PodHandle
pods = pair_handle ∷ pair_handle ∷ []

pair-IsReady : IsReady exact 3 pair_handle
pair-IsReady = record { dense = pair-IsDense; running = refl; capacity = refl; fits = omega arith }

abbrev workers : Workers
workers pod w = true

create_worker-Placed_example :
    (All IsFull pods × (Serverless.create_worker exact workers task pods ≡ returns (none, pods)))
    ⊎ Placed exact 3 workers task pods
create_worker-Placed_example =
    create_worker-Placed exact 3 workers task pods (pair-IsReady, (pair-IsReady, tt))
