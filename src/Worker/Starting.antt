-- ===== src/Worker/Starting.antt =====
-- The start of a worker (`create_task` in src/runtime/worker/task.rs up to its loop), with
-- src/language/promise.rs and src/runtime/worker/error.rs.
use serverlessd.Prelude.{
  ℕ, suc, Bool, true, false, ◌||◌, not, Option, none, some, Outcome, returns, undefined,
  ◌>>=◌ as bind, Result, ok, err,
}
pub use serverlessd.Language.{ExceptionDetails}

pub data WorkerError : Type 0 where
  runtime_error : Option ExceptionDetails → WorkerError
  compile_error : Option ExceptionDetails → WorkerError
  module_init_error : Option ExceptionDetails → WorkerError
  no_entrypoint : WorkerError
  timeout : WorkerError

-- What `Promise::state` says; a rejected promise with what reading its exception comes to.
pub data PromiseState : Type 0 where
  fulfilled : PromiseState
  rejected : Outcome (Option ExceptionDetails) → PromiseState
  pending : PromiseState

pub data Promised : Type 0 where
  resolved_with : Promised
  rejected_with : Outcome (Option ExceptionDetails) → Promised

-- A pending promise breaks the contract of `Promised::new`.
unfoldable pub promised_new : PromiseState → Outcome Promised
promised_new fulfilled = returns resolved_with
promised_new (rejected details) = returns (rejected_with details)
promised_new pending = undefined

-- What the program asks of a JavaScript value.
pub record JsValue : Type 0 where
  pub is_object : Bool
  pub is_null_or_undefined : Bool
  pub is_function : Bool

-- The engine's answers to the start of one worker: whether the monitor took the worker, whether a
-- step gave a value, and what reading the exception in the try-catch scope comes to where one did
-- not. Building the intrinsics, compiling and linking may end the run. The two property reads
-- include the making of their keys. The promise is as it stands when no message is left to pump.
pub record Engine : Type 0 where
  pub monitored : Bool
  pub intrinsics : Outcome Bool
  pub extracted : Bool
  pub compiled : Outcome Bool
  pub instantiated : Outcome Bool
  pub evaluated : Option PromiseState
  pub default_export : Option JsValue
  pub fetch_property : Option JsValue
  pub exception : Outcome (Option ExceptionDetails)

-- A step of the start counts ticks, and may end the task with an error.
abbrev pub Start : Type 0 → Type 0
Start A = ℕ → Outcome (Result A WorkerError × ℕ)

abbrev pub chain :
    {A B : Type 0} → (A → Start B) → Result A WorkerError × ℕ → Outcome (Result B WorkerError × ℕ)
chain f (ok a, n) = f a n
chain f (err e, n) = returns (err e, n)

infixl 5 ◌>>=◌ ◌>>◌
abbrev pub ◌>>=◌ : {A B : Type 0} → Start A → (A → Start B) → Start B
◌>>=◌ m f n = bind (m n) (chain f)

abbrev pub ◌>>◌ : {B : Type 0} → Start (Unit {0}) → Start B → Start B
m >> k = m >>= λ _. k

abbrev pub pure : {A : Type 0} → A → Start A
pure a n = returns (ok a, n)

abbrev pub fail : {A : Type 0} → WorkerError → Start A
fail e n = returns (err e, n)

abbrev pub lift : {A : Type 0} → Outcome A → Start A
lift m n = bind m (λ a. returns (ok a, n))

abbrev pub tick_monitoring : Start (Unit {0})
tick_monitoring n = returns (ok tt, suc n)

-- The error of a step, with the details of its exception.
abbrev pub fail_with :
    {A : Type 0}
    → Outcome (Option ExceptionDetails)
    → (Option ExceptionDetails → WorkerError)
    → Start A
fail_with exception e n = bind exception (λ details. returns (err (e details), n))

-- The macro `unwrap!`, on a step that gives a value or not.
abbrev pub unwrap :
    {A : Type 0}
    → Outcome (Option ExceptionDetails)
    → (Option ExceptionDetails → WorkerError)
    → Option A
    → Start A
unwrap exception e (some a) = pure a
unwrap exception e none = fail_with exception e

abbrev pub require :
    Outcome (Option ExceptionDetails)
    → (Option ExceptionDetails → WorkerError)
    → Bool
    → Start (Unit {0})
require exception e true = pure tt
require exception e false = fail_with exception e

abbrev pub has_entrypoint : Bool → Start (Unit {0})
has_entrypoint true = pure tt
has_entrypoint false = fail no_entrypoint

abbrev pub settled : Promised → Start (Unit {0})
settled resolved_with = pure tt
settled (rejected_with exception) = fail_with exception module_init_error

-- The steps in their order; the result says whether the entrypoint has a `fetch`.
unfoldable pub initialize : Engine → Start Bool
unfolding promised_new
initialize engine = do
  built ← lift engine.intrinsics
  require engine.exception module_init_error built
  require engine.exception module_init_error engine.extracted
  compiled ← lift engine.compiled
  require engine.exception compile_error compiled
  tick_monitoring
  instantiated ← lift engine.instantiated
  require engine.exception module_init_error instantiated
  state ← unwrap engine.exception module_init_error engine.evaluated
  tick_monitoring
  promised ← lift (promised_new state)
  settled promised
  entrypoint ← unwrap engine.exception module_init_error engine.default_export
  has_entrypoint (not (not entrypoint.is_object || entrypoint.is_null_or_undefined))
  item ← unwrap engine.exception module_init_error engine.fetch_property
  pure item.is_function
