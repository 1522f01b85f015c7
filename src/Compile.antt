-- ===== src/Compile.antt =====
-- src/compile.rs: the compilation of modules, over the compiler of v8.
use serverlessd.Prelude.{
  ◌≡◌, Bool, List, ◌∷◌, Option, none, some, Outcome, returns, panics, undefined, ◌>>=◌,
}
use serverlessd.Prelude.Text.{Str}
use serverlessd.Language.{Js}

-- What the program asks of v8's modules. `requests` are the specifiers that a module imports, in
-- their order; instantiation asks the callback for each of them, and ends where it gives none.
-- `evaluate` stands with `State`, what becomes of the promise when no message is left.
pub record ModuleLoader (js : Js) (State : Type 0) : Type 1 where
  pub Module : Type 0
  pub script_compile : js.Value → js.Value → Option Module
  pub requests : Module → List Str
  pub instantiate_module : (Str → Outcome (Option Module)) → Module → Outcome (Option Bool)
  pub evaluate : List (js.Value × js.Value) → Module → Option State
  pub namespace : Module → js.Value
  pub instantiate_undefined :
      (resolve : Str → Outcome (Option Module)) (m : Module) (specifier : Str) (rest : List Str)
      → requests m ≡ specifier ∷ rest
      → resolve specifier ≡ undefined
      → instantiate_module resolve m ≡ undefined
  pub instantiate_missing :
      (resolve : Str → Outcome (Option Module)) (m : Module) (specifier : Str) (rest : List Str)
      → requests m ≡ specifier ∷ rest
      → resolve specifier ≡ returns none
      → instantiate_module resolve m ≡ returns none

module _ (js : Js) {State : Type 0} (loader : ModuleLoader js State) where
  open js use {Value, new_string}
  open loader use {Module, script_compile}

  unwrap_string : Option Value → Outcome Value
  unwrap_string none = panics
  unwrap_string (some item) = returns item

  -- The resolution of the imports of a worker's own module.
  unfoldable pub resolve_module_callback : Str → Outcome (Option Module)
  resolve_module_callback specifier = returns none

  -- A text that v8 does not take is a panic.
  unfoldable pub compile_module : Str → Str → Outcome (Option Module)
  unfolding unwrap_string
  compile_module source name = do
    source_str ← unwrap_string (new_string source)
    name_str ← unwrap_string (new_string name)
    returns (script_compile source_str name_str)

  pub compile_module_lem :
      (source name : Str) (s n : Value)
      → new_string source ≡ some s
      → new_string name ≡ some n
      → compile_module source name ≡ returns (script_compile s n)
  unfolding compile_module
  compile_module_lem source name s n e e' = rw (e, unwrap_string) (rw (e', unwrap_string))
