-- ===== src/Intrinsics/Building.antt =====
-- `build_intrinsics` in src/intrinsics/building.rs: the object of the functions that Rust provides,
-- and the built-in module over it.
use serverlessd.Prelude.{
  List, [], ◌∷◌, ◌++◌, Option, none, some, Outcome, returns, panics, ◌>>=◌ as bind,
}
use serverlessd.Prelude.Text.{Str, codes}
use serverlessd.Language.{Js}
use serverlessd.Compile.{ModuleLoader, compile_module}
use serverlessd.Worker.Starting.{PromiseState, fulfilled, rejected, pending}
use serverlessd.Intrinsics.{get_intrinsics_file, resolve_module_callback_intrinsics}

-- The functions that Rust provides.
pub data Builtin : Type 0 where
  fetch_function : Builtin
  point_function : Builtin

-- A step gives a value or ends `build_intrinsics` without one.
abbrev pub Step : Type 0 → Type 0
Step A = Outcome (Option A)

abbrev next : {A B : Type 0} → (A → Step B) → Option A → Step B
next f none = returns none
next f (some a) = f a

infixl 5 ◌>>=◌ ◌>>◌
abbrev ◌>>=◌ : {A B : Type 0} → Step A → (A → Step B) → Step B
m >>= f = bind m (next f)

abbrev ◌>>◌ : {B : Type 0} → Step (Unit {0}) → Step B → Step B
m >> k = m >>= λ _. k

abbrev pure : {A : Type 0} → A → Step A
pure a = returns (some a)

abbrev pub expect : {A : Type 0} → Option A → Step A
expect (some a) = pure a
expect none = panics

-- Only a rejected promise is looked for.
abbrev pub checked : PromiseState → Step (Unit {0})
checked (rejected exception) = panics
checked fulfilled = pure tt
checked pending = pure tt

-- `Function::new` is v8's.
module _ (js : Js) (loader : ModuleLoader js PromiseState)
    (new_function : Builtin → Option js.Value) where
  open js use {Value, new_string}
  open loader use {Module, instantiate_module, evaluate, namespace}

  -- The macro `add_fn!`. An object is the list of the properties that were set on it.
  add_fn : Str → Builtin → List (Value × Value) → Step (List (Value × Value))
  add_fn name k obj = do
    fnk ← returns (new_function k)
    key ← returns (new_string name)
    pure (obj ++ (key, fnk) ∷ [])

  pub intrinsics_object : Step (List (Value × Value))
  unfolding add_fn
  intrinsics_object = do
    obj ← add_fn (codes "fetch") fetch_function []
    obj' ← add_fn (codes "point") point_function obj
    key ← returns (new_string (codes "intrinsics"))
    pure obj'

  -- Linking and running the module, with the object as the global `intrinsics`.
  run_module : List (Str × Str) → List (Value × Value) → Module → Step Value
  run_module files obj m = do
    linked ←
        instantiate_module (resolve_module_callback_intrinsics (compile_module js loader) files) m
    state ← expect (evaluate obj m)
    checked state
    pure (namespace m)

  -- The rows are those of FILES.
  unfoldable pub build_intrinsics : List (Str × Str) → Step Value
  unfolding intrinsics_object run_module
  build_intrinsics files = do
    obj ← intrinsics_object
    source ← returns (get_intrinsics_file (codes "index") files)
    m ← compile_module js loader source (codes "index")
    run_module files obj m
