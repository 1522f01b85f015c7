-- ===== src/Tests/Overtaken.antt =====
-- Calls of the HTTP application that ctrl-c overtakes.
use serverlessd.Prelude.{ℕ, Bool, true, List, [], ◌∷◌, some, none, ltb}
use serverlessd.Prelude.Text.{codes}
use serverlessd.Serverless.{Workers, Serverless, new, start_pods}
use serverlessd.App.{replied, Call, get_worker_page, post_upload}
use serverlessd.CodeStore.{Store}
use serverlessd.Tests.Samples.{exact, regex, memory}

abbrev all_open : Workers
all_open pod wrk = true

abbrev empty_store : Store regex memory
empty_store = record { validate_regex = none; disk = [] }

abbrev fresh : Serverless exact regex memory
fresh = start_pods exact regex memory (new exact regex memory 2 1 empty_store)

-- The page has its worker when ctrl-c comes; the second upload comes too late.
abbrev calls : List Call
calls =
    post_upload (codes "hello") (some (codes "export default {}"))
    ∷ get_worker_page (codes "hello") 1 (replied (codes "one"))
    ∷ post_upload (codes "hello") (some (codes "export default 1"))
    ∷ []

abbrev before : List (ℕ × Workers)
before = (0, all_open) ∷ (1, all_open) ∷ []

abbrev after : List (ℕ × Workers)
after = (1, all_open) ∷ (2, all_open) ∷ []

abbrev queued : ℕ → Bool
queued i = ltb i 2
