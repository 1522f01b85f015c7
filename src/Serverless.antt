-- ===== src/Serverless.antt =====
-- src/runtime/serverless: the runtime's state and operations (core.rs), the messages that reach it
-- (trigger.rs, handle.rs) and its task (task.rs).
pub mod Scheduling
pub mod Capacity
pub mod Invariant
pub mod Shutdown
pub mod Routing
pub mod Forgetting
pub mod Twins
use serverlessd.Prelude.{
  ℕ, suc, Bool, true, false, List, [], ◌∷◌, Option, none, some, get_elem?, set, replicate, Outcome,
  returns, undefined, ◌>>=◌, Result, ok, err,
}
use serverlessd.Prelude.Text.{Str}
use serverlessd.Pod.{Allocator, PodTrigger, WorkerHandle, WorkerTask, ReplyTo, http, to_worker}
use serverlessd.Pod.Client
use serverlessd.Pod.Client.{PodHandle}
use serverlessd.CodeStore.{
  RegexCrate, FileSystem, Bytes, Store, CodeStoreError, check_fs, upload_worker_code,
  remove_worker_code, get_worker_code,
}

-- Which workers of which pods still hold their receivers.
abbrev pub Workers : Type 0
Workers = ℕ → WorkerHandle → Bool

pub data ServerlessTrigger : Type 0 where
  create_worker_of : Str → ServerlessTrigger
  upload_code : Str → Bytes → ServerlessTrigger
  remove_code : Str → ServerlessTrigger
  to_pod : ℕ → PodTrigger → ServerlessTrigger

-- The calls of `ServerlessHandle` (handle.rs), each with the trigger that it sends.
pub data Request : Type 0 where
  create_worker_request : Str → Request
  upload_worker_request : Str → Bytes → Request
  remove_worker_request : Str → Request
  send_http_request : ℕ → ℕ → ReplyTo → Request

unfoldable pub request_trigger : Request → ServerlessTrigger
request_trigger (create_worker_request name) = create_worker_of name
request_trigger (upload_worker_request name code) = upload_code name code
request_trigger (remove_worker_request name) = remove_code name
request_trigger (send_http_request pod wrk reply) = to_pod pod (to_worker wrk (http reply))

module _ (a : Allocator) (workers : Workers) where
  pub find_vacancy : ℕ → List PodHandle → Outcome (Option ℕ × List PodHandle)
  find_vacancy idx [] = returns (none, [])
  find_vacancy idx (pod ∷ pods) = do
    (free, pod') ← Client.has_vacancies a (workers idx) pod
    elim free [
      | true ↦ returns (some idx, pod' ∷ pods)
      | false ↦ find_vacancy (suc idx) pods >>= λ (found, pods'). returns (found, pod' ∷ pods')
    ]

  -- `halt` drains the handles; the pods are returned as the drain leaves them.
  pub halt_pods : ℕ → List PodHandle → Outcome (List PodHandle)
  halt_pods idx [] = returns []
  halt_pods idx (pod ∷ pods) = do
    (done, pod') ← Client.halt a (workers idx) pod
    pods' ← halt_pods (suc idx) pods
    returns (pod' ∷ pods')

  -- `halt_pod`: false also where there is no such pod.
  pub halt_pod : ℕ → List PodHandle → Outcome (Bool × List PodHandle)
  halt_pod id pods = elim (get_elem? pods id) [
    | none ↦ returns (false, pods)
    | some pod ↦ Client.halt a (workers id) pod >>= λ (done, pod'). returns (done, set pods id pod')
  ]

  with_pod : ℕ → Option ℕ → Option (ℕ × ℕ)
  with_pod pod_id none = none
  with_pod pod_id (some pod_worker_id) = some (pod_id, pod_worker_id)

  create_in : WorkerTask → Option ℕ × List PodHandle → Outcome (Option (ℕ × ℕ) × List PodHandle)
  unfolding with_pod
  create_in task (none, pods) = returns (none, pods)
  create_in task (some pod_id, pods) = elim (get_elem? pods pod_id) [
    | none ↦ undefined
    | some pod ↦ Client.create_worker a (workers pod_id) task pod >>= λ (id, pod').
        returns (with_pod pod_id id, set pods pod_id pod')
  ]

  pub create_worker : WorkerTask → List PodHandle → Outcome (Option (ℕ × ℕ) × List PodHandle)
  unfolding create_in
  create_worker task pods = do found ← find_vacancy 0 pods; create_in task found

  -- A trigger for a pod that is not there is dropped.
  unfoldable pub pass_to_pod : ℕ → PodTrigger → List PodHandle → Outcome (List PodHandle)
  pass_to_pod id t pods = elim (get_elem? pods id) [
    | none ↦ returns pods
    | some pod ↦ Client.trigger a (workers id) t pod >>= λ (reply, pod'). returns (set pods id pod')
  ]

-- How the task stands: stopped by `close_serverless`, stopped by a `break`, or still waiting.
pub data Status : Type 0 where
  closed : Status
  broken_off : Status
  waiting : Status

module _ (a : Allocator) (rx : RegexCrate) (fs : FileSystem) where
  pub record Serverless : Type 0 where
    pub n_threads : ℕ
    pub n_workers : ℕ
    pub code_store : Store rx fs
    pub pods : List PodHandle

  -- What the reply channel of a trigger receives, if it has one.
  pub data ServerlessReply : Type 0 where
    worker_created : Option (ℕ × ℕ) → ServerlessReply
    upload_error : Option (CodeStoreError rx fs) → ServerlessReply
    unanswered : ServerlessReply

  unfoldable pub new : ℕ → ℕ → Store rx fs → Serverless
  new n_threads n_workers store = record {
    n_threads = n_threads;
    n_workers = n_workers;
    code_store = store;
    pods = [];
  }

  unfoldable pub result_err :
      Result (Unit {0}) (CodeStoreError rx fs) → Option (CodeStoreError rx fs)
  result_err (ok _) = none
  result_err (err e) = some e

  unfoldable pub create_worker_from :
      Workers → Option Str → Serverless → Outcome (ServerlessReply × Serverless)
  create_worker_from workers none s = returns (worker_created none, s)
  create_worker_from workers (some source) s = do
    (created, pods) ← create_worker a workers (record { source = source }) s.pods
    returns (worker_created created, record s { pods = pods })

  -- One trigger, as the loop of `serverless_task` serves it.
  unfoldable pub serve :
      Workers → ServerlessTrigger → Serverless → Outcome (ServerlessReply × Serverless)
  unfolding create_worker_from result_err
  serve workers (create_worker_of name) s =
      let (source, store) = get_worker_code rx fs name s.code_store in
      create_worker_from workers source (record s { code_store = store })
  serve workers (to_pod id t) s = do
    pods ← pass_to_pod a workers id t s.pods
    returns (unanswered, record s { pods = pods })
  serve workers (upload_code name code) s = do
    (result, store) ← upload_worker_code rx fs name code s.code_store
    returns (upload_error (result_err result), record s { code_store = store })
  serve workers (remove_code name) s =
      returns (unanswered, record s { code_store = remove_worker_code rx fs name s.code_store })

  -- `select!` hands the loop one of these; the environment chooses.
  pub data Event : Type 0 where
    ctrl_c : Event
    server_exited : Event
    triggered : ServerlessTrigger → Event
    senders_dropped : Event

  pub record Exit : Type 0 where
    pub status : Status
    pub replies : List ServerlessReply
    pub final : Serverless

  pub run : List (Event × Workers) → Serverless → Outcome Exit
  run [] s = returns (record { status = waiting; replies = []; final = s })
  run ((ctrl_c, workers) ∷ events) s = do
    pods ← halt_pods a workers 0 s.pods
    returns (record { status = closed; replies = []; final = record s { pods = pods } })
  run ((server_exited, workers) ∷ events) s =
      returns (record { status = broken_off; replies = []; final = s })
  run ((senders_dropped, workers) ∷ events) s =
      returns (record { status = broken_off; replies = []; final = s })
  run ((triggered t, workers) ∷ events) s = do
    (reply, s') ← serve workers t s
    exit ← run events s'
    returns (record exit { replies = reply ∷ exit.replies })

  -- The file system is checked and the pods are started before the loop.
  unfoldable pub start_pods : Serverless → Serverless
  start_pods s = record s {
    code_store = record s.code_store { disk = (check_fs rx fs s.code_store.disk).1 };
    pods = replicate s.n_threads (Client.start a s.n_workers);
  }

  pub serverless_task : List (Event × Workers) → Serverless → Outcome Exit
  unfolding run start_pods
  serverless_task events s = run events (start_pods s)
