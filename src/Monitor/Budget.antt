-- ===== src/Monitor/Budget.antt =====
-- How long src/runtime/worker/monitor.rs lets a worker run.
use serverlessd.Prelude.{◌+◌, ◌*◌, ◌≤◌, ◌<◌, ◌≡◌, List, [], ◌∷◌, ◌++◌, map, All, arith}
use serverlessd.Monitor.{Nanos, second, Wake, ticked, ended, slept, out_of_budget, watch}

-- No measurement took longer than b.
abbrev pub IsWithin : Nanos → Wake → Type 0
IsWithin b (ticked d) = d ≤ b
IsWithin b (ended d) = d ≤ b
IsWithin b slept = Unit {0}

-- A worker none of whose measured tasks took longer than b is accounted less than 11 s and b.
pub watch-lt-budget :
    (b : Nanos) (ws : List Wake) (elapsed : Nanos)
    → All (IsWithin b) ws
    → elapsed < 11 * second + b
    → (watch ws elapsed).1 < 11 * second + b
unfolding watch
watch-lt-budget b [] elapsed h l = l
watch-lt-budget b (ticked d ∷ ws) elapsed h l =
    ground (arith, watch-lt-budget b ws (elapsed + d) h.1)
watch-lt-budget b (ended d ∷ ws) elapsed h l = ground arith
watch-lt-budget b (slept ∷ ws) elapsed h l = ground arith

abbrev pub total : List Nanos → Nanos
total [] = 0
total (d ∷ ds) = d + total ds

-- A worker that ticks back in time is stopped for its budget exactly if its measured time had come
-- to 11 s when it started another task. Up to there, the 10 s of the message included, it goes on.
pub watch_ticked :
    (ds : List Nanos) (d elapsed : Nanos)
    → ((watch (map ticked (ds ++ d ∷ [])) elapsed).0 ≡ out_of_budget
        → 11 * second ≤ elapsed + total ds)
      × (11 * second ≤ elapsed + total ds
          → (watch (map ticked (ds ++ d ∷ [])) elapsed).0 ≡ out_of_budget)
unfolding watch
watch_ticked [] d elapsed = (λ h. ground arith, λ h. ground arith)
watch_ticked (x ∷ ds) d elapsed =
    let (only_if, then_so) = watch_ticked ds d (elapsed + x) in
    (λ h. ground arith, λ h. ground arith)

-- The budget is never the reason before 11 s.
pub watch_stops :
    (ws : List Wake) (elapsed : Nanos)
    → (watch ws elapsed).0 ≡ out_of_budget
    → 11 * second ≤ (watch ws elapsed).1
unfolding watch
watch_stops [] elapsed h = cc
watch_stops (ticked d ∷ ws) elapsed h = ground (arith, watch_stops ws (elapsed + d))
watch_stops (w ∷ ws) elapsed h = ground arith
