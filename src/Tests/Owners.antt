-- ===== src/Tests/Owners.antt =====
-- Two workers from their creation to their end.
use serverlessd.Prelude.{List, [], ◌∷◌}
use serverlessd.Ownership.{Event, called_back, fetched, task_ended}

abbrev while_open : List Event
while_open = fetched ∷ called_back ∷ fetched ∷ task_ended ∷ []

abbrev while_closing : List Event
while_closing = task_ended ∷ []
