-- ===== src/Repliers.antt =====
-- src/runtime/worker/state.rs: the repliers of a worker, by which pending promises answer requests.
pub mod Tracking
pub mod Answers
use serverlessd.Prelude.{
  ℕ, suc, List, [], ◌∷◌, ◌++◌, Option, none, some, length, get_elem?, set, Outcome, returns,
  undefined, ◌>>=◌,
}
use serverlessd.Prelude.Text.{Str}
use serverlessd.Pod.{ReplyTo}

-- The place of a `Box<Option<oneshot::Sender<String>>>`.
abbrev pub Pointer : Type 0
Pointer = ℕ

-- `cells` are the boxes that were ever leaked by `Box::into_raw`, by place: the sender, until it is
-- taken. No box is freed. `repliers` is the state's table, `answers` what was sent so far.
pub record WorkerState : Type 0 where
  pub cells : List (Option ReplyTo)
  pub repliers : List (Option Pointer)
  pub answers : List (ReplyTo × Str)

unfoldable pub new_state : WorkerState
new_state = record { cells = []; repliers = []; answers = [] }

-- What `cleanup_dead_repliers` leaves in a slot. A pointer to no box would be undefined behaviour.
clean_slot : List (Option ReplyTo) → Option Pointer → Outcome (Option Pointer)
clean_slot cells none = returns none
clean_slot cells (some p) = elim (get_elem? cells p) [
  | none ↦ undefined
  | some none ↦ returns none
  | some (some _) ↦ returns (some p)
]

pub clean_slots : List (Option ReplyTo) → List (Option Pointer) → Outcome (List (Option Pointer))
unfolding clean_slot
clean_slots cells [] = returns []
clean_slots cells (slot ∷ slots) = do
  slot' ← clean_slot cells slot
  slots' ← clean_slots cells slots
  returns (slot' ∷ slots')

pub cleanup_dead_repliers : WorkerState → Outcome WorkerState
cleanup_dead_repliers s = do
  slots ← clean_slots s.cells s.repliers
  returns (record s { repliers = slots })

-- `iter().enumerate().find(|(_, k)| k.is_none())`.
pub find_empty : List (Option Pointer) → Option ℕ
find_empty [] = none
find_empty (none ∷ slots) = some 0
find_empty (some p ∷ slots) = elim (find_empty slots) [ none ↦ none | some i ↦ some (suc i) ]

pub empty_slot : List (Option Pointer) → ℕ × List (Option Pointer)
empty_slot slots = elim (find_empty slots) [
  | some i ↦ (i, slots)
  | none ↦ (length slots, slots ++ none ∷ [])
]

pub get_next_replier_idx : WorkerState → Outcome (ℕ × WorkerState)
unfolding empty_slot
get_next_replier_idx s = do
  s' ← cleanup_dead_repliers s
  let found = empty_slot s'.repliers
  returns (found.0, record s' { repliers = found.1 })

-- `get_mut(idx).unwrap_unchecked()`, then `replace`.
pub add_replier : ℕ → Pointer → WorkerState → Outcome WorkerState
add_replier idx p s = elim (get_elem? s.repliers idx) [
  | none ↦ undefined
  | some _ ↦ returns (record s { repliers = set s.repliers idx (some p) })
]

-- The steps of the event loop (worker/task.rs) that register the sender of a request.
pub register : ReplyTo → WorkerState → Outcome (Pointer × WorkerState)
register reply s =
    let p = length s.cells in
    let leaked = record s { cells = s.cells ++ some reply ∷ [] } in
    do (idx, s') ← get_next_replier_idx leaked; s'' ← add_replier idx p s'; returns (p, s'')

-- `replier.take()`, then a send if there was a sender.
take_and_send : Pointer → Str → Option (Option ReplyTo) → WorkerState → Outcome WorkerState
take_and_send p text none s = undefined
take_and_send p text (some none) s = returns s
take_and_send p text (some (some reply)) s =
    returns (record s { cells = set s.cells p none; answers = s.answers ++ (reply, text) ∷ [] })

-- The function handed to `promise.then` (worker/task.rs).
pub resolve : Pointer → Str → WorkerState → Outcome WorkerState
unfolding take_and_send
resolve p text s = take_and_send p text (get_elem? s.cells p) s

drop_slots : List (Option Pointer) → WorkerState → Outcome WorkerState
drop_slots [] s = returns s
drop_slots (none ∷ slots) s = drop_slots slots s
drop_slots (some p ∷ slots) s = do s' ← resolve p [] s; drop_slots slots s'

-- `Drop::drop`: the table is drained, and each sender that is left sends an empty text.
unfoldable pub drop_state : WorkerState → Outcome WorkerState
unfolding drop_slots
drop_state s = drop_slots s.repliers (record s { repliers = [] })
