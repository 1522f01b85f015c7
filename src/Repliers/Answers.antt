-- ===== src/Repliers/Answers.antt =====
-- Each request that src/runtime/worker/state.rs keeps a sender for is answered exactly once.
use mathlib.Core.List.{append-nil, append_assoc, map-append, Perm}
use mathlib.Core.List.Perm
use mathlib.Core.Path.{ap₂}
use mathlib.Core.Option.{some-injective}
use native.Mathlib.Numerals.{add-one}
use serverlessd.Prelude.{
  ℕ, zero, suc, ◌<◌, ◌≡◌, ◌≢◌, refl, sym, ap, ◌∙◌, subst, inl, inr, List, [], ◌∷◌, ◌++◌, Option,
  none, some, map, length, get_elem?, set, All, arith, Outcome, returns, ◌>>=◌, length-set,
  length-append, get_elem?_in_range, lt_of_get_elem?, get_elem?-set_self,
}
use serverlessd.Prelude.Text.{Str}
use serverlessd.Pod.{ReplyTo}
use serverlessd.Repliers.{
  cleanup_dead_repliers, WorkerState, Pointer, new_state, register, resolve, take_and_send,
  drop_slots, drop_state,
}
use serverlessd.Repliers.Tracking.{
  CleanedUp, cleanup-CleanedUp, IsPlaced, Holds, IsTracked, Registered, register-Registered,
  new_state-IsTracked, taken_still_held,
}

-- The senders that are still in their boxes.
abbrev pub pending : List (Option ReplyTo) → List ReplyTo
pending [] = []
pending (none ∷ cells) = pending cells
pending (some r ∷ cells) = r ∷ pending cells

-- Whom an answer was sent to.
abbrev pub answered : WorkerState → List ReplyTo
answered s = map (λ x. x.0) s.answers

-- Every sender that the state ever had, answered or pending.
abbrev pub senders : WorkerState → List ReplyTo
senders s = answered s ++ pending s.cells

pending-append : (xs ys : List (Option ReplyTo)) → pending (xs ++ ys) ≡ pending xs ++ pending ys
pending-append [] ys = refl
pending-append (none ∷ xs) ys = pending-append xs ys
pending-append (some r ∷ xs) ys = ap (◌∷◌ r) (pending-append xs ys)

pending-taken :
    (cells : List (Option ReplyTo)) (p : Pointer) (r : ReplyTo)
    → get_elem? cells p ≡ some (some r)
    → Perm (pending cells) (r ∷ pending (set cells p none))
pending-taken [] p r e = absurd (cc)
pending-taken (none ∷ cells) zero r e = absurd (cc)
pending-taken (some q ∷ cells) zero r e = Perm.cons' (ground arith) Perm.rfl
pending-taken (none ∷ cells) (suc p) r e = pending-taken cells p r e
pending-taken (some q ∷ cells) (suc p) r e =
    Perm.trans (Perm.cons q (pending-taken cells p r e)) (Perm.swap r q _)

pending-nil :
    (cells : List (Option ReplyTo))
    → ((p : Pointer) (r : ReplyTo) → get_elem? cells p ≢ some (some r))
    → pending cells ≡ []
pending-nil [] h = refl
pending-nil (none ∷ cells) h = pending-nil cells (λ p r. h (suc p) r)
pending-nil (some q ∷ cells) h = absurd (h 0 q refl)

-- The state after an answer through the box p, if it still had its sender.
pub record Resolved (p : Pointer) (text : Str) (s : WorkerState) : Type 0 where
  pub after : WorkerState
  pub result : resolve p text s ≡ returns after
  pub same_length : length after.cells ≡ length s.cells
  pub same_repliers : after.repliers ≡ s.repliers
  pub still :
      (q : Pointer) (r : ReplyTo)
      → get_elem? after.cells q ≡ some (some r)
      → (get_elem? s.cells q ≡ some (some r)) × (p ≢ q)
  pub conserved : Perm (senders after) (senders s)

resolve_cell :
    (p : Pointer) (text : Str) (s : WorkerState) (cell : Option ReplyTo)
    → get_elem? s.cells p ≡ some cell
    → Resolved p text s
unfolding resolve
resolve_cell p text s none e = record {
  after = s;
  result = rw (e, take_and_send);
  same_length = refl;
  same_repliers = refl;
  still = λ q r h. (h, λ same. absurd (cc));
  conserved = Perm.refl (senders s);
}
resolve_cell p text s (some reply) e =
    let gone = get_elem?-set_self s.cells p none (lt_of_get_elem? s.cells p e) in
    record {
      after = record s { cells = set s.cells p none; answers = s.answers ++ (reply, text) ∷ [] };
      result = rw (e, take_and_send);
      same_length = length-set s.cells p none;
      same_repliers = refl;
      still = λ q r h. (taken_still_held s.cells p q r h, λ same. absurd (cc));
      conserved =
          rw (map-append, append_assoc)
            (Perm.append_left (answered s) (Perm.symm (pending-taken s.cells p reply e)));
    }

pub resolve-Resolved :
    (p : Pointer) (text : Str) (s : WorkerState) → p < length s.cells → Resolved p text s
resolve-Resolved p text s lt =
    let (cell, e) = get_elem?_in_range s.cells p lt in resolve_cell p text s cell e

pub resolve-IsTracked :
    (p : Pointer) (text : Str) (s : WorkerState) (d : Resolved p text s)
    → IsTracked s
    → IsTracked d.after
resolve-IsTracked p text s d t = record {
  placed =
      subst (λ slots. All (IsPlaced (length d.after.cells)) slots) (sym d.same_repliers)
        (subst (λ n. All (IsPlaced n) s.repliers) (sym d.same_length) t.placed);
  held = λ q r e. subst (Holds q) (sym d.same_repliers) (t.held q r (d.still q r e).0);
}

-- What the drain of the table makes of the boxes.
record Drained (slots : List (Option Pointer)) (s : WorkerState) : Type 0 where
  after : WorkerState
  result : drop_slots slots s ≡ returns after
  no_sender : (q : Pointer) (r : ReplyTo) → get_elem? after.cells q ≢ some (some r)
  conserved : Perm (senders after) (senders s)

drop_slots-Drained :
    (slots : List (Option Pointer)) (s : WorkerState)
    → All (IsPlaced (length s.cells)) slots
    → ((q : Pointer) (r : ReplyTo) → get_elem? s.cells q ≡ some (some r) → Holds q slots)
    → Drained slots s
unfolding drop_slots
drop_slots-Drained [] s a h = record {
  after = s;
  result = refl;
  no_sender = h;
  conserved = Perm.refl (senders s);
}
drop_slots-Drained (none ∷ slots) s a h =
    let rest =
      drop_slots-Drained slots s a.1
        (λ q r e. elim (h q r e) [ inl at ↦ absurd (cc) | inr h' ↦ h' ]) in
    record {
      after = rest.after;
      result = rest.result;
      no_sender = rest.no_sender;
      conserved = rest.conserved;
    }
drop_slots-Drained (some p ∷ slots) s a h =
    let first = resolve-Resolved p [] s a.0 in
    let rest =
      drop_slots-Drained slots first.after
        (subst (λ n. All (IsPlaced n) slots) (sym first.same_length) a.1)
        (λ q r e. elim (h q r (first.still q r e).0) [
          | inl at ↦ absurd ((first.still q r e).1 (some-injective p q at))
          | inr h' ↦ h'
        ]) in
    record {
      after = rest.after;
      result = rw first.result rest.result;
      no_sender = rest.no_sender;
      conserved = Perm.trans rest.conserved first.conserved;
    }

-- The state after its drop: every sender it still had got an answer.
pub drop_state-answered :
    (s : WorkerState)
    → IsTracked s
    → (s' : WorkerState) × (drop_state s ≡ returns s')
      × (pending s'.cells ≡ [])
      × Perm (senders s') (senders s)
unfolding drop_state
drop_state-answered s t =
    let d = drop_slots-Drained s.repliers (record s { repliers = [] }) t.placed t.held in
    (d.after, d.result, pending-nil d.after.cells d.no_sender, d.conserved)

-- A worker's life: its loop wakes up, senders are registered, promises resolve.
pub data Event : Type 0 where
  woken : Event
  registered : ReplyTo → Event
  resolved : Pointer → Str → Event

serve : Event → WorkerState → Outcome WorkerState
serve woken s = cleanup_dead_repliers s
serve (registered reply) s = register reply s >>= λ (p, s'). returns s'
serve (resolved p text) s = resolve p text s

-- The events in turn, and then the drop of the state.
pub life : List Event → WorkerState → Outcome WorkerState
unfolding serve
life [] s = drop_state s
life (e ∷ es) s = do s' ← serve e s; life es s'

-- A promise resolves only through a box that was registered before; n boxes were so far.
abbrev pub IsCausal : ℕ → List Event → Type 0
IsCausal n [] = Unit {0}
IsCausal n (woken ∷ es) = IsCausal n es
IsCausal n (registered reply ∷ es) = IsCausal (suc n) es
IsCausal n (resolved p text ∷ es) = (p < n) × IsCausal n es

abbrev pub requests : List Event → List ReplyTo
requests [] = []
requests (woken ∷ es) = requests es
requests (registered reply ∷ es) = reply ∷ requests es
requests (resolved p text ∷ es) = requests es

pub senders-CleanedUp : (s : WorkerState) (d : CleanedUp s) → senders d.after ≡ senders s
senders-CleanedUp s d =
    ap₂ (λ answers cells. map (λ x. x.0) answers ++ pending cells) d.answers d.cells

pub senders-Registered :
    (reply : ReplyTo) (s : WorkerState) (d : Registered reply s)
    → senders d.after ≡ senders s ++ reply ∷ []
senders-Registered reply s d =
    ap₂ (λ answers cells. map (λ x. x.0) answers ++ pending cells) d.answers d.cells
    ∙ ap (◌++◌ (answered s)) (pending-append s.cells (some reply ∷ []))
    ∙ sym (append_assoc (answered s) (pending s.cells) (reply ∷ []))

life-senders :
    (es : List Event) (s : WorkerState)
    → IsCausal (length s.cells) es
    → IsTracked s
    → (s' : WorkerState) × (life es s ≡ returns s')
      × (pending s'.cells ≡ [])
      × Perm (senders s') (senders s ++ requests es)
unfolding life
life-senders [] s c t =
    let (s', e, none_left, all) = drop_state-answered s t in (s', e, none_left, rw append-nil all)
life-senders (woken ∷ es) s c t =
    let first = cleanup-CleanedUp s t in
    let (s', e, none_left, all) =
      life-senders es first.after (subst (λ cells. IsCausal (length cells) es) (sym first.cells) c)
        first.tracked in
    (
      s',
      rw first.result e,
      none_left,
      subst (λ l. Perm (senders s') (l ++ requests es)) (senders-CleanedUp s first) all,
    )
life-senders (registered reply ∷ es) s c t =
    let first = register-Registered reply s t in
    let n =
      ap length first.cells ∙ length-append s.cells (some reply ∷ []) ∙ add-one (length s.cells) in
    let (s', e, none_left, all) =
      life-senders es first.after (subst (λ k. IsCausal k es) (sym n) c) first.tracked in
    (
      s',
      rw first.result e,
      none_left,
      subst (Perm (senders s'))
          (ap (λ l. l ++ requests es) (senders-Registered reply s first)
            ∙ append_assoc (senders s) (reply ∷ []) (requests es))
          all,
    )
life-senders (resolved p text ∷ es) s c t =
    let first = resolve-Resolved p text s c.0 in
    let (s', e, none_left, all) =
      life-senders es first.after (subst (λ k. IsCausal k es) (sym first.same_length) c.1)
        (resolve-IsTracked p text s first t) in
    (
      s',
      rw first.result e,
      none_left,
      Perm.trans all (Perm.append_right (requests es) first.conserved),
    )

-- Whatever the order in which requests come in and promises resolve, and whichever never do, once
-- the state is dropped every request has been answered exactly once, and nothing broke an
-- `unsafe` contract.
pub life-answered :
    (es : List Event)
    → IsCausal 0 es
    → (s' : WorkerState) × (life es new_state ≡ returns s') × Perm (answered s') (requests es)
unfolding new_state
life-answered es c =
    let (s', e, none_left, all) = life-senders es new_state c new_state-IsTracked in
    (
      s',
      e,
      subst (λ l. Perm l (requests es))
          (ap (◌++◌ (answered s')) none_left ∙ append-nil (answered s')) all,
    )
