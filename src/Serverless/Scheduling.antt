-- ===== src/Serverless/Scheduling.antt =====
-- `Serverless::create_worker` and `find_vancancy` (src/runtime/serverless/core.rs) on pods that
-- are ready.
use mathlib.Core.Option.{some-injective}
use serverlessd.Prelude.{
  ℕ, zero, suc, ◌+◌, ◌<◌, ◌≡◌, refl, true, false, List, [], ◌∷◌, Option, none, if◌then◌else◌, subst,
  some, arith, get_elem?, All, returns, Bool-cases, ◌⊎◌, inl, inr,
}
use serverlessd.Pod.{Allocator}
use serverlessd.Pod.Client.{PodHandle}
use serverlessd.Pod.Client.Ready.{IsReady, load, is_free, has_vacancies-IsReady}
use serverlessd.Serverless.{Workers, find_vacancy}

abbrev next : Option ℕ → Option ℕ
next none = none
next (some i) = some (suc i)

-- The first pod with room.
unfoldable pub first_free : List PodHandle → Option ℕ
first_free [] = none
first_free (h ∷ hs) = if is_free h then some 0 else next (first_free hs)

abbrev pub shifted : ℕ → Option ℕ → Option ℕ
shifted idx none = none
shifted idx (some i) = some (idx + i)

abbrev pub IsFull : PodHandle → Type 0
IsFull h = is_free h ≡ false

-- Either no pod has room, or `first_free` is the index of one that has, with full pods before it.
unfoldable pub SelectsRoom : List PodHandle → Type 0
SelectsRoom hs =
    ((first_free hs ≡ none) × All IsFull hs)
    ⊎ ((i : ℕ) × (h : PodHandle) × (first_free hs ≡ some i)
        × (get_elem? hs i ≡ some h)
        × (is_free h ≡ true)
        × ((j : ℕ) (k : PodHandle) → j < i → get_elem? hs j ≡ some k → IsFull k))

before_suc :
    (h : PodHandle) (hs : List PodHandle) (i : ℕ)
    → IsFull h
    → ((j : ℕ) (k : PodHandle) → j < i → get_elem? hs j ≡ some k → IsFull k)
    → (j : ℕ) (k : PodHandle) → j < suc i
    → get_elem? (h ∷ hs) j ≡ some k
    → IsFull k
before_suc h hs i full before zero k lt e = subst IsFull (some-injective h k e) full
before_suc h hs i full before (suc j) k lt e = before j k (omega arith) e

pub first_free-SelectsRoom : (hs : List PodHandle) → SelectsRoom hs
unfolding first_free SelectsRoom
first_free-SelectsRoom [] = inl (refl, tt)
first_free-SelectsRoom (h ∷ hs) = elim (Bool-cases (is_free h)) [
  | inl free ↦ inr (0, h, rw free, refl, free, λ j k lt e. absurd (omega arith))
  | inr full ↦ elim (first_free-SelectsRoom hs) [
    | inl (e, all) ↦ inl (rw (full, e), (full, all))
    | inr (i, k, e, at, free, before) ↦
        inr (suc i, k, rw (full, e), at, free, before_suc h hs i full before)
  ]
]

unfoldable pub total_load : List PodHandle → ℕ
total_load [] = 0
total_load (h ∷ hs) = load h + total_load hs

module _ (a : Allocator) (n : ℕ) (workers : Workers) where
  pub find_vacancy-first_free :
      (idx : ℕ) (hs : List PodHandle)
      → All (IsReady a n) hs
      → find_vacancy a workers idx hs ≡ returns (shifted idx (first_free hs), hs)
  unfolding find_vacancy first_free
  find_vacancy-first_free idx [] r = refl
  find_vacancy-first_free idx (h ∷ hs) r = ground (
    arith,
    has_vacancies-IsReady a n (workers idx) h r.0,
    find_vacancy-first_free (suc idx) hs r.1,
  )
