-- ===== src/Tests/Watched.antt =====
-- Two workers that one monitor watches.
use serverlessd.Prelude.{◌≡◌, refl, true, List, [], ◌∷◌, some, get_elem?}
use serverlessd.Monitor.{
  Turn, trigger, signal_to, spawn_request, tick_after, end_after, timer, waiting, finished, Monitor,
  start_monitoring, monitor_thread, Wake, ticked, slept, watch,
}
use serverlessd.Monitor.Watchers.{start_monitoring-watches}

abbrev first_only : Monitor
first_only = record { isolate = 70; worker_tx = 80; phase = waiting 0 } ∷ []

-- The second worker works for 5 ns and then for too long, while a third is taken on.
abbrev interleaved : List Turn
interleaved =
    signal_to 0 (tick_after 0)
    ∷ signal_to 1 (tick_after 0)
    ∷ signal_to 0 timer
    ∷ signal_to 1 (tick_after 5)
    ∷ trigger (spawn_request 72 82)
    ∷ signal_to 1 (tick_after 0)
    ∷ signal_to 2 (end_after 0)
    ∷ signal_to 1 timer
    ∷ []

abbrev rounds : List Wake
rounds = ticked 5 ∷ slept ∷ []

start_monitoring-watches_example :
    ((start_monitoring true 71 81 first_only).0 ≡ some 1)
    × (get_elem? (monitor_thread interleaved (start_monitoring true 71 81 first_only).1) 1
        ≡ some (record {
          isolate = 71;
          worker_tx = 81;
          phase = finished (watch rounds 0).0 (watch rounds 0).1;
        }))
start_monitoring-watches_example = start_monitoring-watches 71 81 first_only interleaved rounds refl
