-- ===== src/Tests/Lifetimes.antt =====
-- A worker from its start to its end.
use serverlessd.Prelude.{◌≡◌, refl, true, false, List, [], ◌∷◌, none, some, arith, returns, ok, err}
use serverlessd.Prelude.Text.{codes}
use serverlessd.Worker.{
  Event, http_request, halt_request, happens, Happening, promise_resolved, task_spawned, task_ended,
  plain_value, promise, threw,
}
use serverlessd.Worker.Starting.{
  Engine, JsValue, fulfilled, rejected, initialize, module_init_error,
}
use serverlessd.Worker.Startup.{Starts, initialize-Starts}
use serverlessd.Worker.Lifetime.{Lived, create_cancel_safe_task-answered}

abbrev function : JsValue
function = record { is_object = true; is_null_or_undefined = false; is_function = true }

abbrev exports : JsValue
exports = record { is_object = true; is_null_or_undefined = false; is_function = false }

abbrev sound : Engine
sound = record {
  monitored = true;
  intrinsics = returns true;
  extracted = true;
  compiled = returns true;
  instantiated = returns true;
  evaluated = some fulfilled;
  default_export = some exports;
  fetch_property = some function;
  exception = returns none;
}

rejected_start :
    initialize (record sound { evaluated = some (rejected (returns none)) }) 0
    ≡ returns (err (module_init_error none), 2)
unfolding initialize
rejected_start = refl

abbrev sound-Starts : Starts sound true
sound-Starts = record {
  evaluated = record {
    built = refl;
    extracted = refl;
    compiled = refl;
    instantiated = refl;
    evaluated = refl;
  };
  entrypoint = exports;
  item = function;
  default_export = refl;
  is_object = refl;
  not_null = refl;
  fetch_property = refl;
  is_function = refl;
}

-- The start left a task of `fetch`. The first promise resolves in the loop, the third request meets no
-- promise, and the last comes after the halt.
abbrev shift : List Event
shift =
    http_request 7 (promise (ok tt))
    ∷ http_request 8 (promise (ok tt))
    ∷ happens (promise_resolved 0 (codes "hi"))
    ∷ http_request 9 plain_value
    ∷ happens task_spawned
    ∷ halt_request
    ∷ http_request 10 threw
    ∷ []

-- Both tasks end after the halt, and with the first the second promise resolves.
abbrev late : List Happening
late = task_ended ∷ promise_resolved 1 (codes "late") ∷ task_ended ∷ []

create_cancel_safe_task-answered_example : Lived sound 1 shift late
create_cancel_safe_task-answered_example =
    create_cancel_safe_task-answered sound 1 shift late (ok true, 2) refl
      (initialize-Starts sound 0 true sound-Starts) (omega arith)
