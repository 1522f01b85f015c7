-- ===== src/App/Interleaving/Order.antt =====
-- The order in which the requests of src/runtime/serverless/app.rs get their first turns, and the
-- pages of their handlers.
use mathlib.Core.List.{map, Perm}
use mathlib.Core.List.Perm
use mathlib.Core.Option.{some-injective}
use serverlessd.Prelude.{
  ℕ, zero, suc, ◌+◌, ◌≡◌, refl, sym, ap, ◌∙◌, List, [], ◌∷◌, Option, none, some, get_elem?, set,
  arith, subst, All, Option-cases, inl, inr,
}
use serverlessd.Pod.{Allocator}
use serverlessd.CodeStore.{RegexCrate, FileSystem}
use serverlessd.Serverless.{Workers}
use serverlessd.App.{Rendered, Call}
use serverlessd.App.Interleaving.{Handler}
use serverlessd.App.Interleaving.Turns.{page_of, waiting_call}

-- The calls that wait for their first turn, each under its place.
abbrev pub numbered : ℕ → List (Option Call) → List (ℕ × Call)
numbered k [] = []
numbered k (none ∷ cs) = numbered (suc k) cs
numbered k (some call ∷ cs) = (k, call) ∷ numbered (suc k) cs

pub numbered-same :
    (k : ℕ) {cs cs' : List (Option Call)} → cs ≡ cs' → Perm (numbered k cs) (numbered k cs')
numbered-same k {cs} e = subst (λ ds. Perm (numbered k cs) (numbered k ds)) e Perm.rfl

-- The calls in the order of their first turns.
unfoldable pub first_turns : List (ℕ × Workers) → List (Option Call) → List (ℕ × Call)
first_turns [] cs = []
first_turns ((i, workers) ∷ turns) cs = elim (get_elem? cs i) [
  | none ↦ first_turns turns cs
  | some none ↦ first_turns turns cs
  | some (some call) ↦ (i, call) ∷ first_turns turns (set cs i none)
]

pub first_turns-none :
    (i : ℕ) (workers : Workers) (turns : List (ℕ × Workers)) (cs : List (Option Call))
    → get_elem? cs i ≡ none
    → first_turns ((i, workers) ∷ turns) cs ≡ first_turns turns cs
unfolding first_turns
first_turns-none i workers turns cs e = rw (e, first_turns)

pub first_turns-later :
    (i : ℕ) (workers : Workers) (turns : List (ℕ × Workers)) (cs : List (Option Call))
    → get_elem? cs i ≡ some none
    → first_turns ((i, workers) ∷ turns) cs ≡ first_turns turns cs
unfolding first_turns
first_turns-later i workers turns cs e = rw (e, first_turns)

pub first_turns-new :
    (i : ℕ) (workers : Workers) (turns : List (ℕ × Workers)) (cs : List (Option Call)) (call : Call)
    → get_elem? cs i ≡ some (some call)
    → first_turns ((i, workers) ∷ turns) cs ≡ (i, call) ∷ first_turns turns (set cs i none)
unfolding first_turns
first_turns-new i workers turns cs call e = rw (e, first_turns)

get_elem?_of_set_none :
    (cs : List (Option Call)) (i j : ℕ) (call : Call)
    → get_elem? (set cs i none) j ≡ some (some call)
    → get_elem? cs j ≡ some (some call)
get_elem?_of_set_none [] i j call e = e
get_elem?_of_set_none (c ∷ cs) zero zero call e = absurd (cc)
get_elem?_of_set_none (c ∷ cs) zero (suc j) call e = e
get_elem?_of_set_none (c ∷ cs) (suc i) zero call e = e
get_elem?_of_set_none (c ∷ cs) (suc i) (suc j) call e = get_elem?_of_set_none cs i j call e

-- What the waiting calls have in common, the calls of the order have.
pub first_turns-All :
    (P : ℕ → Call → Type 0) (turns : List (ℕ × Workers)) (cs : List (Option Call))
    → ((i : ℕ) (call : Call) → get_elem? cs i ≡ some (some call) → P i call)
    → All (λ c. P c.0 c.1) (first_turns turns cs)
unfolding first_turns
first_turns-All P [] cs h = tt
first_turns-All P ((i, workers) ∷ turns) cs h = elim (Option-cases (get_elem? cs i)) [
  | inl e ↦ rw (e, first_turns) (first_turns-All P turns cs h)
  | inr (none, e) ↦ rw (e, first_turns) (first_turns-All P turns cs h)
  | inr (some call, e) ↦
      rw (e, first_turns)
        (
          h i call e,
          first_turns-All P turns (set cs i none)
              (λ j other q. h j other (get_elem?_of_set_none cs i j other q)),
        )
]

abbrev pub in_order : Workers → List (ℕ × Call) → List (Call × Workers)
in_order workers [] = []
in_order workers ((i, call) ∷ order) = (call, workers) ∷ in_order workers order

pub numbered-set :
    (k i j : ℕ) (cs : List (Option Call)) (call : Call)
    → get_elem? cs i ≡ some (some call)
    → j ≡ k + i
    → Perm ((j, call) ∷ numbered k (set cs i none)) (numbered k cs)
numbered-set k i j [] call e q = absurd (cc)
numbered-set k zero j (none ∷ cs) call e q = absurd (ground (arith, e))
numbered-set k zero j (some c ∷ cs) call e q =
    let place : j ≡ k = omega arith in Perm.cons' (ground arith) Perm.rfl
numbered-set k (suc i) j (none ∷ cs) call e q = numbered-set (suc k) i j cs call e (omega arith)
numbered-set k (suc i) j (some c ∷ cs) call e q =
    Perm.trans (Perm.swap (k, c) (j, call) _)
      (Perm.cons (k, c) (numbered-set (suc k) i j cs call e (omega arith)))

module _ {a : Allocator} {rx : RegexCrate} {fs : FileSystem} where
  abbrev pub page_at : List (Handler a rx fs) → ℕ → Option (Rendered a rx fs)
  page_at [] i = none
  page_at (h ∷ hs) zero = page_of h
  page_at (h ∷ hs) (suc i) = page_at hs i

  -- Each call of the order has rendered its page of the list, or is going to.
  abbrev pub Renders : List (ℕ × Call) → List (Rendered a rx fs) → List (Handler a rx fs) → Type 0
  Renders [] [] hs = Unit {0}
  Renders [] (page ∷ pages) hs = ⊥
  Renders ((i, call) ∷ order) [] hs = ⊥
  Renders ((i, call) ∷ order) (page ∷ pages) hs =
      (page_at hs i ≡ some page) × Renders order pages hs

  pub page_at-get_elem? :
      (hs : List (Handler a rx fs)) (i : ℕ) (h : Handler a rx fs)
      → get_elem? hs i ≡ some h
      → page_at hs i ≡ page_of h
  page_at-get_elem? [] i h e = absurd (cc)
  page_at-get_elem? (x ∷ hs) zero h e = ap page_of (some-injective x h e)
  page_at-get_elem? (x ∷ hs) (suc i) h e = page_at-get_elem? hs i h e

  pub get_elem?-waiting :
      (hs : List (Handler a rx fs)) (i : ℕ) (h : Handler a rx fs)
      → get_elem? hs i ≡ some h
      → get_elem? (map waiting_call hs) i ≡ some (waiting_call h)
  get_elem?-waiting [] i h e = absurd (cc)
  get_elem?-waiting (x ∷ hs) zero h e = ap (λ y. some (waiting_call y)) (some-injective x h e)
  get_elem?-waiting (x ∷ hs) (suc i) h e = get_elem?-waiting hs i h e

  pub get_elem?-waiting_none :
      (hs : List (Handler a rx fs)) (i : ℕ)
      → get_elem? hs i ≡ none
      → get_elem? (map waiting_call hs) i ≡ none
  get_elem?-waiting_none [] i e = refl
  get_elem?-waiting_none (x ∷ hs) zero e = absurd (cc)
  get_elem?-waiting_none (x ∷ hs) (suc i) e = get_elem?-waiting_none hs i e

  pub waiting-set :
      (hs : List (Handler a rx fs)) (i : ℕ) (h : Handler a rx fs)
      → waiting_call h ≡ none
      → map waiting_call (set hs i h) ≡ set (map waiting_call hs) i none
  waiting-set [] i h e = refl
  waiting-set (x ∷ hs) zero h e = ap (λ o. o ∷ map waiting_call hs) e
  waiting-set (x ∷ hs) (suc i) h e = ap (◌∷◌ (waiting_call x)) (waiting-set hs i h e)

  pub waiting-set_same :
      (hs : List (Handler a rx fs)) (i : ℕ) (h h' : Handler a rx fs)
      → get_elem? hs i ≡ some h
      → waiting_call h' ≡ waiting_call h
      → map waiting_call (set hs i h') ≡ map waiting_call hs
  waiting-set_same [] i h h' e q = refl
  waiting-set_same (x ∷ hs) zero h h' e q =
      ap (λ o. o ∷ map waiting_call hs) (q ∙ ap waiting_call (sym (some-injective x h e)))
  waiting-set_same (x ∷ hs) (suc i) h h' e q =
      ap (◌∷◌ (waiting_call x)) (waiting-set_same hs i h h' e q)

  pub page_at-set_self :
      (hs : List (Handler a rx fs)) (i : ℕ) (h h' : Handler a rx fs)
      → get_elem? hs i ≡ some h
      → page_at (set hs i h') i ≡ page_of h'
  page_at-set_self [] i h h' e = absurd (cc)
  page_at-set_self (x ∷ hs) zero h h' e = refl
  page_at-set_self (x ∷ hs) (suc i) h h' e = page_at-set_self hs i h h' e

  -- A turn changes no page that is settled.
  pub page_at-set :
      (hs : List (Handler a rx fs)) (i j : ℕ) (h h' : Handler a rx fs) (page : Rendered a rx fs)
      → get_elem? hs i ≡ some h
      → (page_of h ≡ some page → page_of h' ≡ some page)
      → page_at hs j ≡ some page
      → page_at (set hs i h') j ≡ some page
  page_at-set [] i j h h' page e keep p = absurd (cc)
  page_at-set (x ∷ hs) zero zero h h' page e keep p =
      keep (ap page_of (sym (some-injective x h e)) ∙ p)
  page_at-set (x ∷ hs) zero (suc j) h h' page e keep p = p
  page_at-set (x ∷ hs) (suc i) zero h h' page e keep p = p
  page_at-set (x ∷ hs) (suc i) (suc j) h h' page e keep p = page_at-set hs i j h h' page e keep p
