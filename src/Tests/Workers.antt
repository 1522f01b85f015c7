-- ===== src/Tests/Workers.antt =====
-- The monitor of a worker and its repliers.
use mathlib.Core.List.{Perm}
use serverlessd.Prelude.{◌+◌, ◌*◌, ◌<◌, ◌≤◌, ◌≡◌, List, [], ◌∷◌, ◌++◌, map, arith, returns}
use serverlessd.Prelude.Text.{codes}
use serverlessd.Monitor.{Nanos, second, ticked, slept, watch, out_of_budget}
use serverlessd.Monitor.Budget.{total, watch_ticked, watch-lt-budget}
use serverlessd.Repliers.{WorkerState, new_state}
use serverlessd.Repliers.Answers.{Event, woken, registered, resolved, life, answered, life-answered}

-- Eleven seconds in three tasks.
abbrev busy : List Nanos
busy = 4_000_000_000 ∷ 4_000_000_000 ∷ 3_000_000_000 ∷ []

watch_ticked_example :
    ((watch (map ticked (busy ++ 5 ∷ [])) 0).0 ≡ out_of_budget → 11 * second ≤ 0 + total busy)
    × (11 * second ≤ 0 + total busy → (watch (map ticked (busy ++ 5 ∷ [])) 0).0 ≡ out_of_budget)
watch_ticked_example = watch_ticked busy 5 0

watch-lt-budget_example : (watch (ticked 70 ∷ slept ∷ []) 0).1 < 11 * second + 100
watch-lt-budget_example = watch-lt-budget 100 (ticked 70 ∷ slept ∷ []) 0 (omega arith) (omega arith)

-- The second request is answered by its promise, the first by the drop.
abbrev day : List Event
day =
    registered 7
    ∷ woken
    ∷ registered 8
    ∷ resolved 1 (codes "hi")
    ∷ resolved 1 (codes "again")
    ∷ woken
    ∷ registered 9
    ∷ []

life-answered_example :
    (s' : WorkerState) × (life day new_state ≡ returns s') × Perm (answered s') (7 ∷ 8 ∷ 9 ∷ [])
life-answered_example = life-answered day (omega arith)
