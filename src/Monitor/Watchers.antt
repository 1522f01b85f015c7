-- ===== src/Monitor/Watchers.antt =====
-- The watchers of src/runtime/worker/monitor.rs side by side.
use serverlessd.Prelude.{
  ℕ, zero, suc, ◌+◌, ◌≡◌, refl, sym, ap, ◌∙◌, true, false, List, [], ◌∷◌, ◌++◌, some, length,
  get_elem?, arith, ltb, Bool-cases, inl, inr, ◌==◌, if◌then◌else◌, get_elem?-append_length,
}
use serverlessd.Monitor.{
  Nanos, Phase, waiting, timing_since, finished, Signal, tick_after, end_after, timer, advance,
  MonitoredWorker, Monitor, spawn_request, start_monitoring, spawn, Turn, trigger, signal_to,
  signal_at, turn, monitor_thread, Wake, ticked, ended, slept, watch, Reason, out_of_budget,
  first_tick, as_secs,
}

-- The signals that reach one watcher.
abbrev pub own : ℕ → List Turn → List Signal
own i [] = []
own i (trigger t ∷ ts) = own i ts
own i (signal_to j signal ∷ ts) = if i == j then signal ∷ own i ts else own i ts

abbrev pub advances : List Signal → Phase → Phase
advances [] p = p
advances (s ∷ signals) p = advances signals (advance s p)

-- The rounds of `watch` as signals, and the end of the channel after them.
abbrev pub signals_of : List Wake → List Signal
signals_of [] = end_after 0 ∷ []
signals_of (ticked d ∷ ws) = tick_after 0 ∷ tick_after d ∷ signals_of ws
signals_of (ended d ∷ ws) = tick_after 0 ∷ end_after d ∷ []
signals_of (slept ∷ ws) = tick_after 0 ∷ timer ∷ []

advances-finished :
    (signals : List Signal) (r : Reason) (elapsed : Nanos)
    → advances signals (finished r elapsed) ≡ finished r elapsed
unfolding advance
advances-finished [] r elapsed = refl
advances-finished (tick_after d ∷ ss) r elapsed = advances-finished ss r elapsed
advances-finished (end_after d ∷ ss) r elapsed = advances-finished ss r elapsed
advances-finished (timer ∷ ss) r elapsed = advances-finished ss r elapsed

-- The first tick of a round once the budget is spent, and before.
first_tick_spent :
    (elapsed : Nanos)
    → ltb 10 (as_secs elapsed) ≡ true
    → first_tick elapsed ≡ finished out_of_budget elapsed
unfolding first_tick
first_tick_spent elapsed spent = rw spent

first_tick_left :
    (elapsed : Nanos) → ltb 10 (as_secs elapsed) ≡ false → first_tick elapsed ≡ timing_since elapsed
unfolding first_tick
first_tick_left elapsed left = rw left

watch_spent :
    (w : Wake) (ws : List Wake) (elapsed : Nanos)
    → ltb 10 (as_secs elapsed) ≡ true
    → watch (w ∷ ws) elapsed ≡ (out_of_budget, elapsed)
unfolding watch
watch_spent w ws elapsed spent = rw (spent, watch)

advances_spent :
    (w : Wake) (ws : List Wake) (elapsed : Nanos) (rest : List Signal)
    → ltb 10 (as_secs elapsed) ≡ true
    → advances (tick_after 0 ∷ rest) (waiting elapsed)
      ≡ finished (watch (w ∷ ws) elapsed).0 (watch (w ∷ ws) elapsed).1
unfolding advance
advances_spent w ws elapsed rest spent =
    ap (advances rest) (first_tick_spent elapsed spent)
    ∙ advances-finished rest out_of_budget elapsed
    ∙ ap (λ r. finished r.0 r.1) (sym (watch_spent w ws elapsed spent))

advances-signals_of :
    (ws : List Wake) (elapsed : Nanos)
    → advances (signals_of ws) (waiting elapsed)
      ≡ finished (watch ws elapsed).0 (watch ws elapsed).1
unfolding advance watch
advances-signals_of [] elapsed = refl
advances-signals_of (ticked d ∷ ws) elapsed = elim (Bool-cases (ltb 10 (as_secs elapsed))) [
  | inl spent ↦ advances_spent (ticked d) ws elapsed (tick_after d ∷ signals_of ws) spent
  | inr left ↦
      ap (advances (tick_after d ∷ signals_of ws)) (first_tick_left elapsed left)
      ∙ advances-signals_of ws (elapsed + d)
      ∙ rw (left, watch)
]
advances-signals_of (ended d ∷ ws) elapsed = elim (Bool-cases (ltb 10 (as_secs elapsed))) [
  | inl spent ↦ advances_spent (ended d) ws elapsed (end_after d ∷ []) spent
  | inr left ↦ ap (advances (end_after d ∷ [])) (first_tick_left elapsed left) ∙ rw (left, watch)
]
advances-signals_of (slept ∷ ws) elapsed = elim (Bool-cases (ltb 10 (as_secs elapsed))) [
  | inl spent ↦ advances_spent slept ws elapsed (timer ∷ []) spent
  | inr left ↦ ap (advances (timer ∷ [])) (first_tick_left elapsed left) ∙ rw (left, watch)
]

advanced : List Signal → MonitoredWorker → MonitoredWorker
advanced signals w = record w { phase = advances signals w.phase }

get-signal_at :
    (i j : ℕ) (signal : Signal) (m : Monitor) (w : MonitoredWorker)
    → get_elem? m i ≡ some w
    → get_elem? (signal_at j signal m) i
      ≡ some (if i == j then record w { phase = advance signal w.phase } else w)
unfolding signal_at
get-signal_at i j signal [] w e = absurd (cc)
get-signal_at zero zero signal (v ∷ m) w e = ground arith
get-signal_at zero (suc j) signal (v ∷ m) w e = ground arith
get-signal_at (suc i) zero signal (v ∷ m) w e = ground arith
get-signal_at (suc i) (suc j) signal (v ∷ m) w e = ground (arith, get-signal_at i j signal m w e)

get-append :
    (m n : Monitor) (i : ℕ) (w : MonitoredWorker)
    → get_elem? m i ≡ some w
    → get_elem? (m ++ n) i ≡ some w
get-append [] n i w e = absurd (cc)
get-append (v ∷ m) n zero w e = e
get-append (v ∷ m) n (suc i) w e = get-append m n i w e

-- Whatever the thread runs meanwhile, a watcher has seen its own signals, and no others.
get-monitor_thread :
    (ts : List Turn) (m : Monitor) (i : ℕ) (w : MonitoredWorker)
    → get_elem? m i ≡ some w
    → get_elem? (monitor_thread ts m) i ≡ some (advanced (own i ts) w)
unfolding monitor_thread turn advanced spawn
get-monitor_thread [] m i w e = e
get-monitor_thread (trigger (spawn_request isolate tx) ∷ ts) m i w e =
    get-monitor_thread ts (turn (trigger (spawn_request isolate tx)) m) i w (get-append m _ i w e)
get-monitor_thread (signal_to j signal ∷ ts) m i w e = elim (Bool-cases (i == j)) [
  | inl same ↦ rw same (
      get-monitor_thread ts (signal_at j signal m) i (record w { phase = advance signal w.phase })
        (get-signal_at i j signal m w e ∙ rw same))
  | inr other ↦
      rw other (
        get-monitor_thread ts (signal_at j signal m) i w
          (get-signal_at i j signal m w e ∙ rw other))
]

-- A request that a running monitor takes is answered with a place of its own. Whatever else the
-- monitor is asked and whatever befalls the other workers, in whatever order, the watcher at that
-- place has the isolate and the channel of the request, and ends as the loop of one watcher does
-- on the rounds that its own signals make.
pub start_monitoring-watches :
    (isolate worker_tx : ℕ) (m : Monitor) (ts : List Turn) (ws : List Wake)
    → own (length m) ts ≡ signals_of ws
    → ((start_monitoring true isolate worker_tx m).0 ≡ some (length m))
      × (get_elem? (monitor_thread ts (start_monitoring true isolate worker_tx m).1) (length m)
          ≡ some (record {
            isolate = isolate;
            worker_tx = worker_tx;
            phase = finished (watch ws 0).0 (watch ws 0).1;
          }))
unfolding start_monitoring spawn advanced
start_monitoring-watches isolate worker_tx m ts ws e =
    let w : MonitoredWorker = record {
      isolate = isolate;
      worker_tx = worker_tx;
      phase = waiting 0;
    } in
    (
      refl,
      get-monitor_thread ts (m ++ w ∷ []) (length m) w (get_elem?-append_length m (w ∷ []))
          ∙ ap (λ p. some (record w { phase = p }))
              (ap (λ ss. advances ss (waiting 0)) e ∙ advances-signals_of ws 0),
    )
