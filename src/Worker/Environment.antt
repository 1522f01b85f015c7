-- ===== src/Worker/Environment.antt =====
-- The environment of a worker: `create_task` in src/runtime/worker/task.rs up to its loop, over
-- src/intrinsics/building.rs and src/compile.rs.
pub mod Imports
use serverlessd.Prelude.{Bool, true, false, Option, none, some, Outcome, returns, ◌>>=◌, List}
use serverlessd.Prelude.Text.{Str, codes}
use serverlessd.Language.{Js, from_exception, exception_details}
use serverlessd.Compile.{ModuleLoader, compile_module, resolve_module_callback}
use serverlessd.Intrinsics.Building.{Builtin, build_intrinsics}
use serverlessd.Intrinsics.Extraction.{GlobalObject, extract_intrinsics}
use serverlessd.Worker.Starting.{Engine, JsValue, PromiseState, fulfilled, rejected, pending}

abbrev pub has_value {ℓ} : {A : Type ℓ} → Option A → Bool
has_value none = false
has_value (some a) = true

-- What becomes of the promise of the worker's module, when no message is left.
pub data Evaluation (Value : Type 0) : Type 0 where
  ran : Evaluation Value
  threw_value : Value → Evaluation Value
  still_waiting : Evaluation Value

-- What a start asks of v8 besides: the worker's module runs in a context with the global object, and
-- `thrown` is what the try-catch scope has caught if a step fails.
pub record Realm (js : Js) (loader : ModuleLoader js PromiseState) (object : GlobalObject js)
    : Type 0 where
  pub is_function : js.Value → Bool
  pub global : object.Global
  pub evaluate_worker : object.Global → loader.Module → Option (Evaluation js.Value)
  pub thrown : Option js.Value

module _ (js : Js) (loader : ModuleLoader js PromiseState)
    (new_function : Builtin → Option js.Value) (object : GlobalObject js)
    (realm : Realm js loader object) where
  open js use {Value, is_object, is_null_or_undefined, new_string, get}
  open loader use {Module, instantiate_module, namespace}
  open object use {Global}
  open realm use {is_function, global, evaluate_worker, thrown}

  -- The exports become global where there is a built-in module.
  extracted_from : Outcome (Option Value) → Option (Unit {0}) × Global
  extracted_from (returns (some exports)) = extract_intrinsics js object exports global
  extracted_from other = (none, global)

  linked_from : Outcome (Option Module) → Outcome Bool
  linked_from (returns (some m)) = do
    status ← instantiate_module (resolve_module_callback js loader) m
    returns (has_value status)
  linked_from other = returns false

  state_of : Evaluation Value → PromiseState
  state_of ran = fulfilled
  state_of (threw_value v) = rejected (from_exception js v)
  state_of still_waiting = pending

  evaluated_from : Global → Outcome (Option Module) → Option PromiseState
  unfolding state_of
  evaluated_from g (returns (some m)) = elim (evaluate_worker g m) [
    | none ↦ none
    | some e ↦ some (state_of e)
  ]
  evaluated_from g other = none

  -- A property, with the making of its key.
  unfoldable pub property : Str → Value → Option Value
  property name v = elim (new_string name) [ none ↦ none | some key ↦ get v key ]

  default_from : Outcome (Option Module) → Option Value
  unfolding property
  default_from (returns (some m)) = property (codes "default") (namespace m)
  default_from other = none

  fetch_from : Option Value → Option Value
  unfolding property
  fetch_from none = none
  fetch_from (some entrypoint) = property (codes "fetch") entrypoint

  read_value : Option Value → Option JsValue
  read_value none = none
  read_value (some v) = some (record {
    is_object = is_object v;
    is_null_or_undefined = is_null_or_undefined v;
    is_function = is_function v;
  })

  -- The answers that a start with this source gets.
  unfoldable pub engine_of : List (Str × Str) → Str → Bool → Engine
  unfolding extracted_from linked_from evaluated_from default_from fetch_from read_value
  engine_of files source monitored =
      let built = build_intrinsics js loader new_function files in
      let extracted = extracted_from built in
      let compiled = compile_module js loader source (codes "worker.js") in
      let entrypoint = default_from compiled in
      record {
        monitored = monitored;
        intrinsics = built >>= λ o. returns (has_value o);
        extracted = has_value extracted.0;
        compiled = compiled >>= λ o. returns (has_value o);
        instantiated = linked_from compiled;
        evaluated = evaluated_from extracted.1 compiled;
        default_export = read_value entrypoint;
        fetch_property = read_value (fetch_from entrypoint);
        exception = exception_details js thrown;
      }
