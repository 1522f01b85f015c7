-- ===== src/Tests/Calls.antt =====
-- Calls of the HTTP application.
use serverlessd.Prelude.{map, ◌≤◌, ◌≡◌, refl, List, [], ◌∷◌, none, some, returns, true, inl}
use serverlessd.Prelude.Text.{codes}
use serverlessd.Serverless.{Workers, Serverless, new, start_pods}
use serverlessd.App.{
  replied, silent, Rendered, Call, get_worker_page, post_upload, post_remove, answer_calls,
}
use serverlessd.App.Exhaustion.{HavePages, worker_pages, answer_calls-exhaust}
use serverlessd.CodeStore.{Store}
use serverlessd.Tests.Samples.{exact, regex, names, memory, files}

abbrev all_open : Workers
all_open pod wrk = true

abbrev empty_store : Store regex memory
empty_store = record { validate_regex = none; disk = [] }

-- Two places, and three requests for a page.
abbrev visits : List (Call × Workers)
visits =
    (post_upload (codes "hello") (some (codes "export default {}")), all_open)
    ∷ (get_worker_page (codes "hello") 1 (replied (codes "one")), all_open)
    ∷ (get_worker_page (codes "hello") 2 (replied (codes "two")), all_open)
    ∷ (get_worker_page (codes "hello") 3 silent, all_open)
    ∷ (post_remove (codes "hello"), all_open)
    ∷ []

answer_calls-exhaust_example :
    (pages : List (Rendered exact regex memory)) × (after : Serverless exact regex memory)
    × (answer_calls exact regex memory visits
          (start_pods exact regex memory (new exact regex memory 2 1 empty_store))
        ≡ returns (pages, after))
    × HavePages (map (λ c. c.0) visits) pages
    × (worker_pages pages ≤ 2)
answer_calls-exhaust_example =
    answer_calls-exhaust exact regex memory names files 2 1 empty_store visits (inl refl)
