-- ===== src/Pod.antt =====
-- src/runtime/pod: a pod's worker table (core.rs), its messages (trigger.rs) and its task (task.rs).
pub mod Table
pub mod Creation
pub mod Halting
pub mod Counter
pub mod Client
pub mod Recycling
use serverlessd.Prelude.{
  ℕ, ◌<◌, ◌≤◌, Bool, true, false, ◌||◌, List, [], ◌∷◌, ◌++◌, Option, none, some, length, get_elem?,
  set, ltb, not, if◌then◌else◌, Outcome, returns, undefined, hangs, ◌>>=◌,
}
use serverlessd.Prelude.Text.{Str}

-- What `Vec` promises of its capacity: `with_capacity` may allocate more than it was asked for,
-- and a push on a full vector reallocates to something larger.
pub record Allocator : Type 0 where
  pub with_capacity : ℕ → ℕ
  pub grow : ℕ → ℕ
  pub with_capacity_holds : (n : ℕ) → n ≤ with_capacity n
  pub grow_holds : (n : ℕ) → n < grow n

-- A `Vec` whose capacity the program reads.
pub record Vector {ℓ} (A : Type ℓ) : Type ℓ where
  pub items : List A
  pub capacity : ℕ

-- A oneshot sender, by the request that waits on it.
abbrev pub ReplyTo : Type 0
ReplyTo = ℕ

pub data WorkerTrigger : Type 0 where
  http : ReplyTo → WorkerTrigger
  halt_worker : WorkerTrigger

-- The source that a worker runs; the V8 platform is left out.
pub record WorkerTask : Type 0 where
  pub source : Str

-- A worker's channel, by the number of workers spawned before it.
abbrev pub WorkerHandle : Type 0
WorkerHandle = ℕ

-- `tasks` are the spawned worker tasks, `sent` the triggers put into worker channels, both oldest
-- first. The end of `vacancies` is the head of the list.
pub record Pod : Type 0 where
  pub workers : Vector (Option WorkerHandle)
  pub vacancies : List ℕ
  pub tasks : List WorkerTask
  pub sent : List (WorkerHandle × WorkerTrigger)

pub data PodTrigger : Type 0 where
  check_vacancies : PodTrigger
  create_worker_in : WorkerTask → PodTrigger
  to_worker : ℕ → WorkerTrigger → PodTrigger
  halt_pod : PodTrigger

-- What a trigger's oneshot channel receives; `forwarded` is a trigger that carries no channel.
pub data PodReply : Type 0 where
  vacancy : Bool → PodReply
  created : ℕ → PodReply
  forwarded : PodReply
  halted : PodReply

unfoldable pub is_empty {ℓ} : {A : Type ℓ} → List A → Bool
is_empty [] = true
is_empty (x ∷ xs) = false

unfoldable pub push {ℓ} : {A : Type ℓ} → Allocator → Vector A → A → Vector A
push a v x = record {
  items = v.items ++ x ∷ [];
  capacity = if ltb (length v.items) v.capacity then v.capacity else a.grow (length v.items);
}

unfoldable pub has_vacancy : Pod → Bool
unfolding is_empty
has_vacancy p = not (is_empty p.vacancies) || ltb (length p.workers.items) p.workers.capacity

unwrap_or {ℓ} : {A : Type ℓ} → Option A → A → A
unwrap_or none d = d
unwrap_or (some a) d = a

pop : List ℕ → Option ℕ × List ℕ
pop [] = (none, [])
pop (x ∷ xs) = (some x, xs)

-- The argument of `unwrap_or` is evaluated whether or not a vacancy was popped.
unfoldable pub get_next_worker_id : Allocator → Pod → ℕ × Pod
unfolding pop unwrap_or
get_next_worker_id a p =
    let (popped, rest) = pop p.vacancies in
    let ln = length p.workers.items in
    (unwrap_or popped ln, record p { vacancies = rest; workers = push a p.workers none })

-- `get_mut(id).unwrap_unchecked().replace(worker)`.
unfoldable pub put_worker : ℕ → WorkerHandle → Pod → Outcome Pod
put_worker id worker p = elim (get_elem? p.workers.items id) [
  | none ↦ undefined
  | some _ ↦
      returns
        (record p { workers = record p.workers { items = set p.workers.items id (some worker) } })
]

-- An existing slot is taken unchecked, then offered as a vacancy.
unfoldable pub remove_worker : ℕ → Pod → Outcome (Bool × Pod)
remove_worker id p = elim (get_elem? p.workers.items id) [
  | none ↦ returns (false, p)
  | some none ↦ undefined
  | some (some _) ↦ returns (
    true,
    record p {
      workers = record p.workers { items = set p.workers.items id none };
      vacancies = id ∷ p.vacancies;
    },
  )
]

unfoldable pub get_worker : ℕ → Pod → Option WorkerHandle
get_worker id p = elim (get_elem? p.workers.items id) [ none ↦ none | some worker ↦ worker ]

-- `WorkerHandle::start`: the channel is new, and the task is spawned on the pod.
unfoldable pub start_worker : WorkerTask → Pod → WorkerHandle × Pod
start_worker task p = (length p.tasks, record p { tasks = p.tasks ++ task ∷ [] })

unfoldable pub create_worker : Allocator → WorkerTask → Pod → Outcome (ℕ × Pod)
unfolding start_worker get_next_worker_id put_worker
create_worker a task p =
    let (worker, p1) = start_worker task p in
    let (id, p2) = get_next_worker_id a p1 in do p3 ← put_worker id worker p2; returns (id, p3)

-- `WorkerHandle::trigger`: a trigger to a closed channel is lost.
unfoldable pub send : (WorkerHandle → Bool) → WorkerHandle → WorkerTrigger → Pod → Pod
send is_open worker trigger p =
    if is_open worker then record p { sent = p.sent ++ (worker, trigger) ∷ [] } else p

-- The loop of `Halt`: the sender `wtoken` of an empty slot lives until the end of the round, so
-- nothing completes `recv.await`.
unfoldable pub close_workers :
    (WorkerHandle → Bool) → List (Option WorkerHandle) → Pod → Outcome Pod
close_workers is_open [] p = returns p
close_workers is_open (none ∷ slots) p = hangs
close_workers is_open (some worker ∷ slots) p =
    close_workers is_open slots (send is_open worker halt_worker p)

unfoldable pub new_pod : Allocator → ℕ → Pod
new_pod a n_workers = record {
  workers = record { items = []; capacity = a.with_capacity n_workers };
  vacancies = [];
  tasks = [];
  sent = [];
}

unfoldable pub forward : (WorkerHandle → Bool) → Option WorkerHandle → WorkerTrigger → Pod → Pod
forward is_open none trigger p = p
forward is_open (some worker) trigger p = send is_open worker trigger p

-- One round of `pod_task`. `drain(..)` empties the table and keeps its capacity.
unfoldable pub handle :
    Allocator → (WorkerHandle → Bool) → PodTrigger → Pod → Outcome (PodReply × Pod)
unfolding forward
handle a is_open check_vacancies p = returns (vacancy (has_vacancy p), p)
handle a is_open (create_worker_in task) p = do
  (id, p') ← create_worker a task p
  returns (created id, p')
handle a is_open (to_worker id trigger) p =
    returns (forwarded, forward is_open (get_worker id p) trigger p)
handle a is_open halt_pod p = do
  p' ← close_workers is_open p.workers.items p
  returns (halted, record p' { workers = record p'.workers { items = [] } })

-- What arrives in a round: a trigger, and which workers still hold their receivers.
abbrev pub Round : Type 0
Round = PodTrigger × (WorkerHandle → Bool)

-- `pod_task`: rounds until the channel closes or a halt has been served. What is queued behind a
-- halt is dropped with its senders.
unfoldable pub pod_task : Allocator → List Round → Pod → Outcome (List PodReply × Pod)
pod_task a [] p = returns ([], p)
pod_task a ((halt_pod, is_open) ∷ rounds) p = do
  (reply, p') ← handle a is_open halt_pod p
  returns (reply ∷ [], p')
pod_task a ((trigger, is_open) ∷ rounds) p = do
  (reply, p') ← handle a is_open trigger p
  (replies, q) ← pod_task a rounds p'
  returns (reply ∷ replies, q)
