-- ===== src/Worker/Startup.antt =====
-- How the start of a worker ends (src/runtime/worker/task.rs).
use serverlessd.Prelude.{
  ℕ, suc, ◌≡◌, refl, sym, ◌∙◌, Bool, true, false, Option, some, Outcome, returns, panics, undefined,
  hangs, ◌>>=◌, Result, ok, err,
}
use serverlessd.Worker.Starting.{
  Engine, JsValue, PromiseState, fulfilled, pending, initialize, promised_new, ExceptionDetails,
  WorkerError, module_init_error, Start, chain, fail_with,
}

-- The engine got as far as a module that was evaluated.
pub record IsEvaluated (engine : Engine) (state : PromiseState) : Type 0 where
  pub built : engine.intrinsics ≡ returns true
  pub extracted : engine.extracted ≡ true
  pub compiled : engine.compiled ≡ returns true
  pub instantiated : engine.instantiated ≡ returns true
  pub evaluated : engine.evaluated ≡ some state

-- If the engine evaluates the module, and its promise is still pending when no message is left, the
-- start of the worker breaks the contract of `Promised::new`.
pub initialize-pending :
    (engine : Engine) (n : ℕ) → IsEvaluated engine pending → initialize engine n ≡ undefined
unfolding initialize promised_new
initialize-pending engine n h = rw (h.built, h.extracted, h.compiled, h.instantiated, h.evaluated)

-- Every step of the start gave a value, the module settled without a rejection, and its default
-- export is an object; `has_fetch` says whether that has a function under `fetch`.
pub record Starts (engine : Engine) (has_fetch : Bool) : Type 0 where
  pub evaluated : IsEvaluated engine fulfilled
  pub entrypoint : JsValue
  pub item : JsValue
  pub default_export : engine.default_export ≡ some entrypoint
  pub is_object : entrypoint.is_object ≡ true
  pub not_null : entrypoint.is_null_or_undefined ≡ false
  pub fetch_property : engine.fetch_property ≡ some item
  pub is_function : item.is_function ≡ has_fetch

-- A worker whose start meets no obstacle gets to wait for events after two ticks, with a handler
-- exactly if its entrypoint has a function under `fetch`.
pub initialize-Starts :
    (engine : Engine) (n : ℕ) (has_fetch : Bool)
    → Starts engine has_fetch
    → initialize engine n ≡ returns (ok has_fetch, suc (suc n))
unfolding initialize promised_new
initialize-Starts engine n has_fetch h = rw (
  h.evaluated.built, h.evaluated.extracted, h.evaluated.compiled, h.evaluated.instantiated,
  h.evaluated.evaluated, h.default_export, h.is_object, h.not_null, h.fetch_property, h.is_function,
)

abbrev pub failed_after :
    ℕ
    → (Option ExceptionDetails → WorkerError)
    → Outcome (Option ExceptionDetails)
    → Outcome (Result Bool WorkerError × ℕ)
failed_after n e exception = exception >>= λ details. returns (err (e details), n)

-- A step that fails is the last.
failed-chain :
    {A : Type 0} (n : ℕ) (e : Option ExceptionDetails → WorkerError)
    (exception : Outcome (Option ExceptionDetails)) (rest : A → Start Bool)
    → (fail_with exception e n >>= chain rest) ≡ failed_after n e exception
failed-chain n e (returns details) rest = refl
failed-chain n e panics rest = refl
failed-chain n e undefined rest = refl
failed-chain n e hangs rest = refl

pub initialize-unlinked :
    (engine : Engine)
    → engine.intrinsics ≡ returns true
    → engine.extracted ≡ true
    → engine.compiled ≡ returns true
    → engine.instantiated ≡ returns false
    → initialize engine 0 ≡ failed_after 1 module_init_error engine.exception
unfolding initialize
initialize-unlinked engine b x c l =
    rw (b, x, c, l) (failed-chain 1 module_init_error engine.exception _)

failed_after-never_ok :
    (n k : ℕ) (e : Option ExceptionDetails → WorkerError)
    (exception : Outcome (Option ExceptionDetails)) (b : Bool)
    → ¬ (failed_after n e exception ≡ returns (ok b, k))
failed_after-never_ok n k e (returns details) b h = cc
failed_after-never_ok n k e panics b h = cc
failed_after-never_ok n k e undefined b h = cc
failed_after-never_ok n k e hangs b h = cc

-- A start without the built-in module fails in its first steps.
unlinked_from :
    (engine : Engine) (k : ℕ) (b : Bool) (built : Outcome Bool) (extracted : Bool)
    → engine.intrinsics ≡ built
    → engine.extracted ≡ extracted
    → engine.compiled ≡ returns true
    → engine.instantiated ≡ returns false
    → ¬ (initialize engine 0 ≡ returns (ok b, k))
unfolding initialize
unlinked_from engine k b panics extracted e x c i h =
    let q : initialize engine 0 ≡ panics = rw e refl in cc
unlinked_from engine k b undefined extracted e x c i h =
    let q : initialize engine 0 ≡ undefined = rw e refl in cc
unlinked_from engine k b hangs extracted e x c i h =
    let q : initialize engine 0 ≡ hangs = rw e refl in cc
unlinked_from engine k b (returns false) extracted e x c i h =
    let q : initialize engine 0 ≡ failed_after 0 module_init_error engine.exception =
      rw e (failed-chain 0 module_init_error engine.exception _) in
    failed_after-never_ok 0 k module_init_error engine.exception b (sym q ∙ h)
unlinked_from engine k b (returns true) false e x c i h =
    let q : initialize engine 0 ≡ failed_after 0 module_init_error engine.exception =
      rw (e, x) (failed-chain 0 module_init_error engine.exception _) in
    failed_after-never_ok 0 k module_init_error engine.exception b (sym q ∙ h)
unlinked_from engine k b (returns true) true e x c i h =
    failed_after-never_ok 1 k module_init_error engine.exception b
      (sym (initialize-unlinked engine e x c i) ∙ h)

-- A worker whose module is not linked never gets to serve.
pub initialize-unlinked_never :
    (engine : Engine) (k : ℕ) (b : Bool)
    → engine.compiled ≡ returns true
    → engine.instantiated ≡ returns false
    → ¬ (initialize engine 0 ≡ returns (ok b, k))
initialize-unlinked_never engine k b =
    unlinked_from engine k b engine.intrinsics engine.extracted refl refl
