-- ===== src/Pod/Client.antt =====
-- src/runtime/pod/handle.rs: a pod as the serverless task reaches it. The handles have one owner,
-- which awaits each reply before it sends again, so sending and the round it causes are one step.
pub mod Ready
use serverlessd.Prelude.{ℕ, Bool, true, false, Option, none, some, Outcome, returns, ◌>>=◌}
use serverlessd.Pod.{
  Allocator, Pod, PodTrigger, PodReply, WorkerHandle, WorkerTask, check_vacancies, create_worker_in,
  halt_pod, vacancy, created, halted, handle, new_pod,
}

-- `running`: the task still holds its receiver.
pub record PodHandle : Type 0 where
  pub pod : Pod
  pub running : Bool

-- The task ends with the round of a halt.
abbrev keeps_running : PodTrigger → Bool
keeps_running halt_pod = false
keeps_running _ = true

pub start : Allocator → ℕ → PodHandle
start a n_workers = record { pod = new_pod a n_workers; running = true }

module _ (a : Allocator) (is_open : WorkerHandle → Bool) where
  -- No reply means that the channel was closed.
  unfoldable pub trigger : PodTrigger → PodHandle → Outcome (Option PodReply × PodHandle)
  trigger t h = elim h.running [
    | false ↦ returns (none, h)
    | true ↦ handle a is_open t h.pod >>= λ (reply, p).
        returns (some reply, record { pod = p; running = keeps_running t })
  ]

  vacant : Option PodReply → Bool
  vacant (some (vacancy b)) = b
  vacant _ = false

  unfoldable pub has_vacancies : PodHandle → Outcome (Bool × PodHandle)
  unfolding trigger vacant
  has_vacancies h = do (reply, h') ← trigger check_vacancies h; returns (vacant reply, h')

  new_id : Option PodReply → Option ℕ
  new_id (some (created id)) = some id
  new_id _ = none

  unfoldable pub create_worker : WorkerTask → PodHandle → Outcome (Option ℕ × PodHandle)
  unfolding trigger new_id
  create_worker task h = do
    (reply, h') ← trigger (create_worker_in task) h
    returns (new_id reply, h')

  is_halted : Option PodReply → Bool
  is_halted (some halted) = true
  is_halted _ = false

  unfoldable pub halt : PodHandle → Outcome (Bool × PodHandle)
  unfolding trigger is_halted
  halt h = do (reply, h') ← trigger halt_pod h; returns (is_halted reply, h')
