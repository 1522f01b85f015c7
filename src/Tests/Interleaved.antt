-- ===== src/Tests/Interleaved.antt =====
-- Calls of the HTTP application whose turns interleave.
use mathlib.Core.List.{map}
use serverlessd.Prelude.{
  ℕ, ◌≤◌, ◌≡◌, refl, List, [], ◌∷◌, none, some, true, inl, get_elem?, returns,
}
use serverlessd.Prelude.Text.{codes}
use serverlessd.Serverless.{Workers, Serverless, new, start_pods}
use serverlessd.Serverless.Invariant.{start_pods-IsSound}
use serverlessd.App.{
  replied, silent, awaiting, Rendered, Call, get_worker_page, post_upload, post_remove,
}
use serverlessd.App.Exhaustion.{IsSilent}
use serverlessd.App.Interleaving.{Handler, started, rendered, run_handlers}
use serverlessd.App.Interleaving.Order.{first_turns}
use serverlessd.App.Interleaving.Serial.{Serialised, run_handlers-serial}
use serverlessd.App.Interleaving.Once.{asked}
use serverlessd.App.Interleaving.Single.{run_handlers-asks_once}
use serverlessd.Pod.Client.{PodHandle}
use serverlessd.App.Interleaving.Rush.{turns_of, held_by, run_handlers-exhaust}
use serverlessd.CodeStore.{Store}
use serverlessd.Tests.Samples.{exact, regex, names, memory, files}

abbrev all_open : Workers
all_open pod wrk = true

abbrev empty_store : Store regex memory
empty_store = record { validate_regex = none; disk = [] }

abbrev calls : List Call
calls =
    get_worker_page (codes "hello") 1 (replied (codes "one"))
    ∷ post_upload (codes "hello") (some (codes "export default {}"))
    ∷ get_worker_page (codes "hello") 2 (replied (codes "two"))
    ∷ post_remove (codes "hello")
    ∷ []

-- The upload comes first, and both pages get their workers before either sends its trigger.
abbrev turns : List (ℕ × Workers)
turns = (1, all_open) ∷ (2, all_open) ∷ (0, all_open) ∷ (0, all_open) ∷ (2, all_open) ∷ []

abbrev fresh : Serverless exact regex memory
fresh = start_pods exact regex memory (new exact regex memory 2 1 empty_store)

upload_first :
    first_turns turns (map some calls)
    ≡ (1, post_upload (codes "hello") (some (codes "export default {}")))
      ∷ (2, get_worker_page (codes "hello") 2 (replied (codes "two")))
      ∷ (0, get_worker_page (codes "hello") 1 (replied (codes "one")))
      ∷ []
unfolding first_turns
upload_first = refl

run_handlers-serial_example :
    Serialised exact regex memory names files all_open
      (first_turns turns (map some calls))
      (run_handlers exact regex memory turns (map started calls) fresh)
      (map started calls)
      fresh
run_handlers-serial_example =
    run_handlers-serial exact regex memory names files all_open turns calls fresh
      (start_pods-IsSound exact regex memory names files 2 1 empty_store (inl refl))

-- A third request for a page gets none of the two places; the removal waits for its turn.
abbrev crowd : List Call
crowd =
    post_upload (codes "hello") (some (codes "export default {}"))
    ∷ get_worker_page (codes "hello") 1 (replied (codes "one"))
    ∷ get_worker_page (codes "hello") 2 silent
    ∷ get_worker_page (codes "hello") 3 (replied (codes "three"))
    ∷ post_remove (codes "hello")
    ∷ []

abbrev crowd_turns : List (ℕ × Workers)
crowd_turns =
    (0, all_open)
    ∷ (3, all_open)
    ∷ (1, all_open)
    ∷ (2, all_open)
    ∷ (1, all_open)
    ∷ (2, all_open)
    ∷ []

run_handlers-exhaust_example :
    (handlers : List (Handler exact regex memory)) × (after : Serverless exact regex memory)
    × (run_handlers exact regex memory crowd_turns
          (map started crowd)
          (start_pods exact regex memory (new exact regex memory 2 1 empty_store))
        ≡ returns (handlers, after))
    × (held_by handlers ≤ 2)
    × ((i : ℕ) (call : Call)
        → get_elem? crowd i ≡ some call
        → 2 ≤ turns_of i crowd_turns
        → (page : Rendered exact regex memory) × (get_elem? handlers i ≡ some (rendered page))
          × (page ≡ awaiting → IsSilent call))
run_handlers-exhaust_example =
    run_handlers-exhaust exact regex memory names files 2 1 empty_store crowd_turns crowd (inl refl)

run_handlers-asks_once_example :
    (handlers : List (Handler exact regex memory)) × (after : Serverless exact regex memory)
    × (run_handlers exact regex memory crowd_turns
          (map started crowd)
          (start_pods exact regex memory (new exact regex memory 2 1 empty_store))
        ≡ returns (handlers, after))
    × ((pod wrk : ℕ) (p : PodHandle) → get_elem? after.pods pod ≡ some p → asked wrk p.pod.sent ≤ 1)
run_handlers-asks_once_example =
    run_handlers-asks_once exact regex memory names files 2 1 empty_store crowd_turns crowd
      (inl refl)
