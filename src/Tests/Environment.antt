-- ===== src/Tests/Environment.antt =====
-- The start of a worker with its source.
use serverlessd.Prelude.{◌≡◌, refl, true, List, [], ◌∷◌, none, some, returns, err}
use serverlessd.Prelude.Text.{Str, codes}
use serverlessd.Intrinsics.{get_intrinsics_file}
use serverlessd.Compile.{compile_module, compile_module_lem, resolve_module_callback}
use serverlessd.Intrinsics.Building.{build_intrinsics}
use serverlessd.Intrinsics.Extraction.{extract_intrinsics, copy_properties}
use serverlessd.Repliers.{new_state}
use serverlessd.Worker.{Event, Loop, http_request, halt_request, plain_value, create_task}
use serverlessd.Worker.Starting.{initialize, module_init_error}
use serverlessd.Worker.Environment.{Realm, engine_of, ran}
use serverlessd.Worker.Environment.Imports.{IsIdle, importing_worker-answers_nobody}
use serverlessd.Language.{exception_details}
use serverlessd.Tests.Requests.{engine, str}
use serverlessd.Tests.Building.{loader, functions, globals}

-- A built-in file that imports nothing.
abbrev table : List (Str × Str)
table = (codes "index", codes "export") ∷ []

abbrev realm : Realm engine loader globals
realm = record {
  is_function = λ v. true;
  global = [];
  evaluate_worker = λ g m. some ran;
  thrown = none;
}

abbrev asked : List Event
asked = http_request 7 plain_value ∷ halt_request ∷ []

abbrev end : Loop
end = record { state = new_state; ticks = 1; dropped = 7 ∷ []; tasks = 0 }

-- A worker that imports `fetch`, as the built-in file does.
imports-fail :
    create_task true
      (engine_of engine loader functions globals realm table (codes "import") true)
      0
      asked
    ≡ returns (err (module_init_error none), end)
unfolding create_task engine_of build_intrinsics get_intrinsics_file compile_module
    extract_intrinsics copy_properties exception_details initialize resolve_module_callback
imports-fail = refl

importing_worker-answers_nobody_example : IsIdle asked end
importing_worker-answers_nobody_example =
    importing_worker-answers_nobody engine loader functions globals realm table (codes "import")
      (codes "intrinsics:fetch") [] (codes "import") true 0 asked (err (module_init_error none)) end
      (compile_module_lem engine loader (codes "import") (codes "worker.js") (str (codes "import"))
        (str (codes "worker.js")) refl refl)
      refl imports-fail
