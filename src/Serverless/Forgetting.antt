-- ===== src/Serverless/Forgetting.antt =====
-- What the pods of src/runtime/pod have sent to their workers bears on no reply of the runtime's
-- task (src/runtime/serverless/task.rs).
use mathlib.Core.List.{map}
use serverlessd.Prelude.{
  ◌>>=◌, ℕ, zero, suc, ◌≡◌, refl, ap, List, [], ◌∷◌, Option, none, some, Bool, get_elem?, set,
  arith, Outcome, returns, panics, undefined, hangs, Option-cases, inl, inr, All, Bool-cases,
}
use serverlessd.Pod.{
  Allocator, Pod, WorkerTask, WorkerTrigger, WorkerHandle, to_worker, forward, send, handle,
  get_worker, forwarded,
}
use serverlessd.Pod
use serverlessd.Pod.Client
use serverlessd.Pod.Client.{PodHandle}
use serverlessd.Pod.Client.Ready.{IsReady}
use serverlessd.Serverless.{Workers, create_in, create_worker, with_pod, pass_to_pod}
use serverlessd.Serverless.Scheduling.{first_free, shifted, find_vacancy-first_free}

-- A pod with what it has sent left out.
abbrev pub quiet : PodHandle → PodHandle
quiet h = record h { pod = record h.pod { sent = [] } }

abbrev pub on_second {ℓ κ} : {A : Type ℓ} {B : Type κ} → (B → B) → Outcome (A × B) → Outcome (A × B)
on_second f (returns (x, y)) = returns (x, f y)
on_second f panics = panics
on_second f undefined = undefined
on_second f hangs = hangs

quiet-IsReady : (a : Allocator) (n : ℕ) (h : PodHandle) → IsReady a n h → IsReady a n (quiet h)
quiet-IsReady a n h r = record {
  dense = record { no_vacancies = r.dense.no_vacancies; filled = r.dense.filled };
  running = r.running;
  capacity = r.capacity;
  fits = r.fits;
}

map-quiet-IsReady :
    (a : Allocator) (n : ℕ) (hs : List PodHandle)
    → All (IsReady a n) hs
    → All (IsReady a n) (map quiet hs)
map-quiet-IsReady a n [] r = tt
map-quiet-IsReady a n (h ∷ hs) r = (quiet-IsReady a n h r.0, map-quiet-IsReady a n hs r.1)

first_free-quiet : (hs : List PodHandle) → first_free (map quiet hs) ≡ first_free hs
unfolding first_free
first_free-quiet [] = refl
first_free-quiet (h ∷ hs) = ground (arith, first_free-quiet hs)

get_elem?-quiet :
    (hs : List PodHandle) (i : ℕ) (o : Option PodHandle)
    → get_elem? hs i ≡ o
    → get_elem? (map quiet hs) i ≡ (elim o [ none ↦ none | some h ↦ some (quiet h) ])
get_elem?-quiet [] i o e = rw (← e)
get_elem?-quiet (h ∷ hs) zero o e = rw (← e)
get_elem?-quiet (h ∷ hs) (suc i) o e = get_elem?-quiet hs i o e

set-quiet :
    (hs : List PodHandle) (i : ℕ) (h : PodHandle)
    → map quiet (set hs i h) ≡ set (map quiet hs) i (quiet h)
set-quiet [] i h = refl
set-quiet (x ∷ hs) zero h = refl
set-quiet (x ∷ hs) (suc i) h = ap (◌∷◌ (quiet x)) (set-quiet hs i h)

module _ (a : Allocator) (is_open is_open' : WorkerHandle → Bool) (task : WorkerTask) where
  client_create-quiet :
      (h : PodHandle)
      → Client.create_worker a is_open' task (quiet h)
        ≡ on_second quiet (Client.create_worker a is_open task h)
  unfolding Client.create_worker handle Pod.create_worker
  client_create-quiet h = ground arith

module _ (a : Allocator) (workers workers' : Workers) (task : WorkerTask) where
  with_pod-eq : (i : ℕ) (o : Option ℕ) → with_pod a workers' i o ≡ with_pod a workers i o
  unfolding with_pod
  with_pod-eq i none = refl
  with_pod-eq i (some id) = refl

  after_create :
      (i : ℕ) (hs : List PodHandle) (m : Outcome (Option ℕ × PodHandle))
      → (on_second quiet m >>= λ (id, h).
          returns (with_pod a workers' i id, set (map quiet hs) i h))
        ≡ on_second (map quiet) (m >>= λ (id, h). returns (with_pod a workers i id, set hs i h))
  after_create i hs (returns (id, h)) = rw (with_pod-eq i id, set-quiet hs i h)
  after_create i hs panics = refl
  after_create i hs undefined = refl
  after_create i hs hangs = refl

  create_in-quiet :
      (found : Option ℕ) (hs : List PodHandle)
      → create_in a workers' task (found, map quiet hs)
        ≡ on_second (map quiet) (create_in a workers task (found, hs))
  unfolding create_in
  create_in-quiet none hs = refl
  create_in-quiet (some i) hs = elim (Option-cases (get_elem? hs i)) [
    | inl e ↦ rw (e, create_in) (rw (get_elem?-quiet hs i none e, create_in))
    | inr (h, e) ↦
        rw (e, create_in)
          (rw (get_elem?-quiet hs i (some h) e, create_in)
            (rw (client_create-quiet a (workers i) (workers' i) task h)
              (after_create i hs (Client.create_worker a (workers i) task h))))
  ]

  pub create_worker-quiet :
      (n : ℕ) (hs : List PodHandle)
      → All (IsReady a n) hs
      → create_worker a workers' task (map quiet hs)
        ≡ on_second (map quiet) (create_worker a workers task hs)
  unfolding create_worker
  create_worker-quiet n hs r =
      rw
        (
          find_vacancy-first_free a n workers 0 hs r,
          find_vacancy-first_free a n workers' 0 (map quiet hs) (map-quiet-IsReady a n hs r),
          first_free-quiet hs,
        )
        (create_in-quiet (shifted 0 (first_free hs)) hs)

module _ (a : Allocator) (workers : Workers) (id wid : ℕ) (t : WorkerTrigger) where
  forward-quiet :
      (is_open : WorkerHandle → Bool) (o : Option WorkerHandle) (p : Pod) (running : Bool)
      → quiet (record { pod = forward is_open o t p; running = running })
        ≡ quiet (record { pod = p; running = running })
  unfolding forward send
  forward-quiet is_open none p running = refl
  forward-quiet is_open (some worker) p running = ground arith

  set-quiet_same :
      (hs : List PodHandle) (i : ℕ) (h h' : PodHandle)
      → get_elem? hs i ≡ some h
      → quiet h' ≡ quiet h
      → map quiet (set hs i h') ≡ map quiet hs
  set-quiet_same [] i h h' e q = refl
  set-quiet_same (x ∷ hs) zero h h' e q = ground arith
  set-quiet_same (x ∷ hs) (suc i) h h' e q = ap (◌∷◌ (quiet x)) (set-quiet_same hs i h h' e q)

  trigger-quiet :
      (h : PodHandle)
      → (h' : PodHandle) × (o : Option Pod.PodReply) × (Client.trigger a
            (workers id)
            (to_worker wid t)
            h
          ≡ returns (o, h'))
        × (quiet h' ≡ quiet h)
  unfolding Client.trigger handle
  trigger-quiet h = elim (Bool-cases h.running) [
    | inr stopped ↦ (h, none, ground arith, refl)
    | inl on ↦ (
      record { pod = forward (workers id) (get_worker wid h.pod) t h.pod; running = h.running },
      some forwarded,
      ground arith,
      forward-quiet (workers id) (get_worker wid h.pod) h.pod h.running,
    )
  ]

  pub pass_to_pod-quiet :
      (hs : List PodHandle)
      → (hs' : List PodHandle) × (pass_to_pod a workers id (to_worker wid t) hs ≡ returns hs')
        × (map quiet hs' ≡ map quiet hs)
  unfolding pass_to_pod
  pass_to_pod-quiet hs = elim (Option-cases (get_elem? hs id)) [
    | inl e ↦ (hs, rw (e, pass_to_pod), refl)
    | inr (h, e) ↦
        let (h', o, done, same) = trigger-quiet h in
        (set hs id h', rw (e, pass_to_pod) (rw done), set-quiet_same hs id h h' e same)
  ]
