-- ===== src/Repliers/Tracking.antt =====
-- No sender is lost by the table of src/runtime/worker/state.rs.
use mathlib.Core.Path.{subst}
use serverlessd.Prelude.{
  ℕ, zero, suc, ◌<◌, ◌≤◌, ◌≡◌, refl, sym, ap, ◌⊎◌, inl, inr, List, [], ◌∷◌, ◌++◌, Option, none,
  some, length, get_elem?, set, All, All-append, All-set, arith, returns, Option-cases,
  length-append, get_elem?_in_range, get_elem?-append_length, lt_of_get_elem?,
}
use serverlessd.Pod.{ReplyTo}
use serverlessd.Repliers.{
  WorkerState, Pointer, new_state, clean_slot, clean_slots, cleanup_dead_repliers, find_empty,
  empty_slot, get_next_replier_idx, add_replier, register,
}

-- The slot is empty or points to one of the first n boxes.
abbrev pub IsPlaced : ℕ → Option Pointer → Type 0
IsPlaced n none = Unit {0}
IsPlaced n (some p) = p < n

-- Some slot points to p.
abbrev pub Holds : Pointer → List (Option Pointer) → Type 0
Holds p [] = ⊥
Holds p (slot ∷ slots) = (slot ≡ some p) ⊎ Holds p slots

-- Every slot points to a box, and every box that still has its sender stands in a slot.
pub record IsTracked (s : WorkerState) : Type 0 where
  pub placed : All (IsPlaced (length s.cells)) s.repliers
  pub held : (p : Pointer) (r : ReplyTo) → get_elem? s.cells p ≡ some (some r) → Holds p s.repliers

IsPlaced-mono :
    (m n : ℕ) (slots : List (Option Pointer))
    → m ≤ n
    → All (IsPlaced m) slots
    → All (IsPlaced n) slots
IsPlaced-mono m n [] h a = tt
IsPlaced-mono m n (none ∷ slots) h a = (tt, IsPlaced-mono m n slots h a.1)
IsPlaced-mono m n (some p ∷ slots) h a = (omega arith, IsPlaced-mono m n slots h a.1)

Holds-append : (p : Pointer) (xs ys : List (Option Pointer)) → Holds p xs → Holds p (xs ++ ys)
Holds-append p [] ys h = absurd h
Holds-append p (x ∷ xs) ys (inl e) = inl e
Holds-append p (x ∷ xs) ys (inr h) = inr (Holds-append p xs ys h)

-- Writing an empty slot loses no pointer.
Holds-set :
    (p : Pointer) (slots : List (Option Pointer)) (i : ℕ) (v : Option Pointer)
    → get_elem? slots i ≡ some none
    → Holds p slots
    → Holds p (set slots i v)
Holds-set p [] i v e h = h
Holds-set p (x ∷ slots) zero v e (inl at) = absurd (cc)
Holds-set p (x ∷ slots) zero v e (inr h) = inr h
Holds-set p (x ∷ slots) (suc i) v e (inl at) = inl at
Holds-set p (x ∷ slots) (suc i) v e (inr h) = inr (Holds-set p slots i v e h)

Holds-set_self :
    (p : Pointer) (slots : List (Option Pointer)) (i : ℕ)
    → i < length slots
    → Holds p (set slots i (some p))
Holds-set_self p [] i h = elim h [ ]
Holds-set_self p (x ∷ slots) zero h = inl refl
Holds-set_self p (x ∷ slots) (suc i) h = inr (Holds-set_self p slots i (omega arith))

-- The cleaned slots.
record Cleaned (cells : List (Option ReplyTo)) (slots : List (Option Pointer)) : Type 0 where
  after : List (Option Pointer)
  result : clean_slots cells slots ≡ returns after
  placed : All (IsPlaced (length cells)) after
  held :
      (p : Pointer) (r : ReplyTo)
      → get_elem? cells p ≡ some (some r)
      → Holds p slots
      → Holds p after

clean_pointer :
    (cells : List (Option ReplyTo)) (q : Pointer) (slots : List (Option Pointer))
    (cell : Option ReplyTo)
    → get_elem? cells q ≡ some cell
    → q < length cells
    → Cleaned cells slots
    → Cleaned cells (some q ∷ slots)
unfolding clean_slots
clean_pointer cells q slots none found lt rest = record {
  after = none ∷ rest.after;
  result = rw (found, clean_slot) (rw rest.result);
  placed = (tt, rest.placed);
  held = λ p r e h. elim h [ inl at ↦ absurd (cc) | inr h' ↦ inr (rest.held p r e h') ];
}
clean_pointer cells q slots (some _) found lt rest = record {
  after = some q ∷ rest.after;
  result = rw (found, clean_slot) (rw rest.result);
  placed = (lt, rest.placed);
  held = λ p r e h. elim h [ inl at ↦ inl at | inr h' ↦ inr (rest.held p r e h') ];
}

clean_slots-Cleaned :
    (cells : List (Option ReplyTo)) (slots : List (Option Pointer))
    → All (IsPlaced (length cells)) slots
    → Cleaned cells slots
unfolding clean_slots
clean_slots-Cleaned cells [] a = record {
  after = [];
  result = refl;
  placed = tt;
  held = λ p r e h. h;
}
clean_slots-Cleaned cells (none ∷ slots) a =
    let rest = clean_slots-Cleaned cells slots a.1 in
    record {
      after = none ∷ rest.after;
      result = rw rest.result;
      placed = (tt, rest.placed);
      held = λ p r e h. elim h [ inl at ↦ inl at | inr h' ↦ inr (rest.held p r e h') ];
    }
clean_slots-Cleaned cells (some q ∷ slots) a =
    let (cell, found) = get_elem?_in_range cells q a.0 in
    clean_pointer cells q slots cell found a.0 (clean_slots-Cleaned cells slots a.1)

-- The slot that `get_next_replier_idx` picks.
record Picked (n : ℕ) (slots : List (Option Pointer)) : Type 0 where
  empty : get_elem? (empty_slot slots).1 (empty_slot slots).0 ≡ some none
  placed : All (IsPlaced n) (empty_slot slots).1
  held : (p : Pointer) → Holds p slots → Holds p (empty_slot slots).1

find_empty-none :
    (slots : List (Option Pointer)) (i : ℕ)
    → find_empty slots ≡ some i
    → get_elem? slots i ≡ some none
unfolding find_empty
find_empty-none [] i e = cc
find_empty-none (none ∷ slots) i e = ground (arith, e)
find_empty-none (some p ∷ slots) i e = elim (Option-cases (find_empty slots)) [
  | inl e' ↦ absurd (ground arith)
  | inr (j, e') ↦ ground (arith, find_empty-none slots j e')
]

empty_slot-Picked :
    (n : ℕ) (slots : List (Option Pointer)) → All (IsPlaced n) slots → Picked n slots
unfolding empty_slot
empty_slot-Picked n slots a = elim (Option-cases (find_empty slots)) [
  | inl e ↦ record {
    empty = rw (e, empty_slot) (get_elem?-append_length slots (none ∷ []));
    placed = rw (e, empty_slot) (All-append (IsPlaced n) slots (none ∷ []) a (tt, tt));
    held = λ p h. rw (e, empty_slot) (Holds-append p slots (none ∷ []) h);
  }
  | inr (i, e) ↦ record {
    empty = rw (e, empty_slot) (find_empty-none slots i e);
    placed = rw (e, empty_slot) a;
    held = λ p h. rw (e, empty_slot) h;
  }
]

-- The state after the registration of a sender.
pub record Registered (reply : ReplyTo) (s : WorkerState) : Type 0 where
  pub after : WorkerState
  pub result : register reply s ≡ returns (length s.cells, after)
  pub tracked : IsTracked after
  pub cells : after.cells ≡ s.cells ++ some reply ∷ []
  pub answers : after.answers ≡ s.answers

-- The boxes after a new one: an old box with its sender is as it was, the new one is the last.
old_or_new :
    (cells : List (Option ReplyTo)) (reply r : ReplyTo) (p : Pointer)
    → get_elem? (cells ++ some reply ∷ []) p ≡ some (some r)
    → (get_elem? cells p ≡ some (some r)) ⊎ (p ≡ length cells)
old_or_new [] reply r zero e = inr refl
old_or_new [] reply r (suc p) e = cc
old_or_new (c ∷ cells) reply r zero e = inl e
old_or_new (c ∷ cells) reply r (suc p) e = elim (old_or_new cells reply r p e) [
  | inl old ↦ inl old
  | inr last ↦ inr (ap suc last)
]

-- Registering a sender breaks no `unsafe` contract and overwrites no sender that is still pending.
pub register-Registered : (reply : ReplyTo) (s : WorkerState) → IsTracked s → Registered reply s
unfolding register get_next_replier_idx cleanup_dead_repliers add_replier
register-Registered reply s t =
    let p = length s.cells in
    let cells = s.cells ++ some reply ∷ [] in
    let longer = length-append s.cells (some reply ∷ []) in
    let cleaned =
      clean_slots-Cleaned cells s.repliers
        (IsPlaced-mono (length s.cells) (length cells) s.repliers (omega arith) t.placed) in
    let picked = empty_slot-Picked (length cells) cleaned.after cleaned.placed in
    let i = (empty_slot cleaned.after).0 in
    let slots = (empty_slot cleaned.after).1 in
    record {
      after = record s { cells = cells; repliers = set slots i (some p) };
      result = rw cleaned.result (rw (picked.empty, add_replier));
      tracked = record {
        placed = All-set (IsPlaced (length cells)) slots i (some p) picked.placed (omega arith);
        held = λ q r e. elim (old_or_new s.cells reply r q e) [
          | inl old ↦
              Holds-set q slots i (some p) picked.empty
                (picked.held q (cleaned.held q r e (t.held q r old)))
          | inr last ↦
              subst (λ x. Holds x (set slots i (some p))) (sym last)
                (Holds-set_self p slots i (lt_of_get_elem? slots i picked.empty))
        ];
      };
      cells = refl;
      answers = refl;
    }

-- The state after the clean-up with which the event loop starts each round.
pub record CleanedUp (s : WorkerState) : Type 0 where
  pub after : WorkerState
  pub result : cleanup_dead_repliers s ≡ returns after
  pub tracked : IsTracked after
  pub cells : after.cells ≡ s.cells
  pub answers : after.answers ≡ s.answers

pub cleanup-CleanedUp : (s : WorkerState) → IsTracked s → CleanedUp s
unfolding cleanup_dead_repliers
cleanup-CleanedUp s t =
    let cleaned = clean_slots-Cleaned s.cells s.repliers t.placed in
    record {
      after = record s { repliers = cleaned.after };
      result = rw cleaned.result;
      tracked = record {
        placed = cleaned.placed;
        held = λ p r e. cleaned.held p r e (t.held p r e);
      };
      cells = refl;
      answers = refl;
    }

pub taken_still_held :
    (cells : List (Option ReplyTo)) (p q : Pointer) (r : ReplyTo)
    → get_elem? (set cells p none) q ≡ some (some r)
    → get_elem? cells q ≡ some (some r)
taken_still_held [] p q r e = e
taken_still_held (c ∷ cells) zero zero r e = absurd (cc)
taken_still_held (c ∷ cells) zero (suc q) r e = e
taken_still_held (c ∷ cells) (suc p) zero r e = e
taken_still_held (c ∷ cells) (suc p) (suc q) r e = taken_still_held cells p q r e

pub new_state-IsTracked : IsTracked new_state
unfolding new_state
new_state-IsTracked = record { placed = tt; held = λ p r e. absurd (cc) }
