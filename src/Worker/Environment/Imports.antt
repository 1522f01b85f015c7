-- ===== src/Worker/Environment/Imports.antt =====
-- Workers whose source imports something (src/runtime/worker/task.rs with the resolver of
-- src/compile.rs).
use serverlessd.Prelude.{
  ◌≡◌, refl, sym, ap, Bool, true, false, List, ◌∷◌, Option, some, returns, returns-injective,
  >>=-eq-returns, Result, ok, err, ℕ,
}
use serverlessd.Prelude.Text.{Str, codes}
use serverlessd.Language.{Js}
use serverlessd.Compile.{ModuleLoader, compile_module, resolve_module_callback}
use serverlessd.Intrinsics.Building.{Builtin}
use serverlessd.Intrinsics.Extraction.{GlobalObject}
use serverlessd.Repliers.{new_state}
use serverlessd.Worker.{Event, Loop, queued, create_task, after_start, start_loop}
use serverlessd.Worker.Starting.{Engine, PromiseState, WorkerError, initialize}
use serverlessd.Worker.Startup.{initialize-unlinked_never}
use serverlessd.Worker.Environment.{Realm, engine_of, linked_from}

-- Nobody was answered, and every sender of the channel was dropped.
abbrev pub IsIdle : List Event → Loop → Type 0
IsIdle es l = (l.state ≡ new_state) × (l.dropped ≡ queued es)

after_failure :
    (engine : Engine) (spawned : ℕ) (es : List Event) (result : Result (Unit {0}) WorkerError)
    (l : Loop) (started : Result Bool WorkerError × ℕ)
    → ((has_fetch : Bool) (k : ℕ) → ¬ (initialize engine 0 ≡ returns (ok has_fetch, k)))
    → initialize engine 0 ≡ returns started
    → after_start spawned es started ≡ returns (result, l)
    → IsIdle es l
unfolding after_start start_loop
after_failure engine spawned es result l (ok has_fetch, k) never i e = absurd (never has_fetch k i)
after_failure engine spawned es result l (err problem, k) never i e =
    let q = ap (λ p. p.1) (returns-injective (sym e)) in
    (ap (λ m. m.state) q, ap (λ m. m.dropped) q)

-- A worker that does not get to serve.
unstarted-IsIdle :
    (engine : Engine) (monitored : Bool) (spawned : ℕ) (es : List Event)
    (result : Result (Unit {0}) WorkerError) (l : Loop)
    → ((has_fetch : Bool) (k : ℕ) → ¬ (initialize engine 0 ≡ returns (ok has_fetch, k)))
    → create_task monitored engine spawned es ≡ returns (result, l)
    → IsIdle es l
unfolding create_task after_start start_loop
unstarted-IsIdle engine false spawned es result l never e =
    let q = ap (λ p. p.1) (returns-injective (sym e)) in
    (ap (λ m. m.state) q, ap (λ m. m.dropped) q)
unstarted-IsIdle engine true spawned es result l never e =
    let (started, i, e') = >>=-eq-returns (initialize engine 0) (after_start spawned es) e in
    after_failure engine spawned es result l started never i e'

module _ (js : Js) (loader : ModuleLoader js PromiseState)
    (new_function : Builtin → Option js.Value) (object : GlobalObject js)
    (realm : Realm js loader object) where
  open loader use {Module, requests, instantiate_missing}

  -- A worker whose source imports anything answers nobody: whatever the built-in files, the monitor
  -- and v8 do, if its task ends, every sender that came to its channel was dropped, and its state is
  -- as it was made.
  pub importing_worker-answers_nobody :
      (files : List (Str × Str)) (source specifier : Str) (rest : List Str) (m : Module)
      (monitored : Bool) (spawned : ℕ) (es : List Event) (result : Result (Unit {0}) WorkerError)
      (l : Loop)
      → compile_module js loader source (codes "worker.js") ≡ returns (some m)
      → requests m ≡ specifier ∷ rest
      → create_task monitored
          (engine_of js loader new_function object realm files source monitored)
          spawned
          es
        ≡ returns (result, l)
      → IsIdle es l
  unfolding engine_of linked_from resolve_module_callback
  importing_worker-answers_nobody files source specifier rest m monitored spawned es result l made
        first =
      let engine = engine_of js loader new_function object realm files source monitored in
      let unlinked =
        instantiate_missing (resolve_module_callback js loader) m specifier rest first refl in
      unstarted-IsIdle engine monitored spawned es result l (λ has_fetch k.
        initialize-unlinked_never engine k has_fetch (rw made)
          (rw (made, linked_from) (rw unlinked)))
