-- ===== src/Serverless/Capacity.antt =====
-- How many workers `Serverless::create_worker` (src/runtime/serverless/core.rs) can place.
use mathlib.Core.Option.{some-injective}
use serverlessd.Prelude.{
  ℕ, zero, suc, ◌*◌, ◌≤◌, ◌<◌, ◌≡◌, refl, ap, ◌∙◌, true, List, [], ◌∷◌, Option, none, some, arith,
  length, get_elem?, set, All, All-set, All-get_elem?, returns, ◌⊎◌, inl, inr,
}
use serverlessd.Pod.{Allocator, WorkerTask}
use serverlessd.Pod.Client.{PodHandle}
use serverlessd.Pod.Client.Ready.{
  IsReady, load, is_free, grown, create_worker-IsReady, grown-IsReady,
}
use serverlessd.Serverless.{Workers, create_worker, create_in}
use serverlessd.Serverless.Scheduling.{
  shifted, first_free, IsFull, first_free-SelectsRoom, SelectsRoom, total_load,
  find_vacancy-first_free,
}

total_load-set :
    (hs : List PodHandle) (i : ℕ) (h k : PodHandle)
    → get_elem? hs i ≡ some h
    → load k ≡ suc (load h)
    → total_load (set hs i k) ≡ suc (total_load hs)
unfolding total_load
total_load-set [] i h k e l = absurd (cc)
total_load-set (x ∷ hs) zero h k e l = omega (arith, ap load (some-injective x h e))
total_load-set (x ∷ hs) (suc i) h k e l = omega (arith, total_load-set hs i h k e l)

shifted_zero : (o : Option ℕ) → shifted 0 o ≡ o
shifted_zero none = refl
shifted_zero (some i) = ground arith

full_load :
    (h : PodHandle) → load h ≤ h.pod.workers.capacity → IsFull h → load h ≡ h.pod.workers.capacity
full_load h fits full = ground arith

module _ (a : Allocator) (n : ℕ) where
  -- The pods hold at most what `Vec::with_capacity` allocated for each.
  pub total_load_le :
      (hs : List PodHandle) → All (IsReady a n) hs → total_load hs ≤ length hs * a.with_capacity n
  unfolding total_load
  total_load_le [] r = omega arith
  total_load_le (h ∷ hs) r =
      let fits = r.0.fits in let cap = r.0.capacity in grind (arith, total_load_le hs r.1)

  pub total_load_full :
      (hs : List PodHandle)
      → All (IsReady a n) hs
      → All IsFull hs
      → total_load hs ≡ length hs * a.with_capacity n
  unfolding total_load
  total_load_full [] r f = omega arith
  total_load_full (h ∷ hs) r f =
      let filled : load h ≡ h.pod.workers.capacity = full_load h r.0.fits f.0 in
      let cap = r.0.capacity in let rest = total_load_full hs r.1 f.1 in omega arith

module _ (a : Allocator) (n : ℕ) (workers : Workers) (task : WorkerTask) where
  -- A worker was placed: in the first pod with room, under the next id of that pod, whose handle
  -- alone has changed.
  pub record Placed (hs : List PodHandle) : Type 0 where
    pub pod_id : ℕ
    pub pod : PodHandle
    pub at : get_elem? hs pod_id ≡ some pod
    pub first : (j : ℕ) (k : PodHandle) → j < pod_id → get_elem? hs j ≡ some k → IsFull k
    pub room : is_free pod ≡ true
    pub result :
        create_worker a workers task hs
        ≡ returns (some (pod_id, load pod), set hs pod_id (grown a n (workers pod_id) task pod))
    pub ready : All (IsReady a n) (set hs pod_id (grown a n (workers pod_id) task pod))
    pub one_more :
        total_load (set hs pod_id (grown a n (workers pod_id) task pod)) ≡ suc (total_load hs)

  after_find :
      (hs : List PodHandle) (o : Option ℕ)
      → All (IsReady a n) hs
      → first_free hs ≡ o
      → create_worker a workers task hs ≡ create_in a workers task (o, hs)
  unfolding create_worker
  after_find hs o r e =
      rw (find_vacancy-first_free a n workers 0 hs r)
        (ap (λ o. create_in a workers task (o, hs)) (shifted_zero (first_free hs) ∙ e))

  create_in-IsReady :
      (hs : List PodHandle) (i : ℕ) (h : PodHandle)
      → get_elem? hs i ≡ some h
      → IsReady a n h
      → create_in a workers task (some i, hs)
        ≡ returns (some (i, load h), set hs i (grown a n (workers i) task h))
  unfolding create_in
  create_in-IsReady hs i h at ready =
      rw (at, create_in) (rw (create_worker-IsReady a n (workers i) task h ready))

  place :
      (hs : List PodHandle) (i : ℕ) (h : PodHandle)
      → All (IsReady a n) hs
      → first_free hs ≡ some i
      → get_elem? hs i ≡ some h
      → is_free h ≡ true
      → ((j : ℕ) (k : PodHandle) → j < i → get_elem? hs j ≡ some k → IsFull k)
      → Placed hs
  place hs i h r e at free before =
      let ready = All-get_elem? (IsReady a n) hs i h r at in
      let (ready', more) = grown-IsReady a n (workers i) task h ready free in
      let h' = grown a n (workers i) task h in
      record {
        pod_id = i;
        pod = h;
        at = at;
        first = before;
        room = free;
        result = after_find hs (some i) r e ∙ create_in-IsReady hs i h at ready;
        ready = All-set (IsReady a n) hs i h' r ready';
        one_more = total_load-set hs i h h' at more;
      }

  -- On ready pods `create_worker` fails only if every pod is full, and changes nothing then;
  -- otherwise the worker is placed.
  pub create_worker-Placed :
      (hs : List PodHandle)
      → All (IsReady a n) hs
      → (All IsFull hs × (create_worker a workers task hs ≡ returns (none, hs))) ⊎ Placed hs
  unfolding SelectsRoom create_in
  create_worker-Placed hs r = elim (first_free-SelectsRoom hs) [
    | inl (e, full) ↦ inl (full, after_find hs none r e)
    | inr (i, h, e, at, free, before) ↦ inr (place hs i h r e at free before)
  ]

-- While the pods hold fewer workers than their tables have room for altogether, `create_worker`
-- finds a place.
create_worker_finds_room :
    (a : Allocator) (n : ℕ) (workers : Workers) (task : WorkerTask) (hs : List PodHandle)
    → All (IsReady a n) hs
    → total_load hs < length hs * a.with_capacity n
    → (pod_id : ℕ) × (pod_worker_id : ℕ) × (hs' : List PodHandle) × (create_worker a workers task hs
        ≡ returns (some (pod_id, pod_worker_id), hs'))
create_worker_finds_room a n workers task hs r room =
    elim (create_worker-Placed a n workers task hs r) [
      | inl (full, _) ↦ absurd (omega (arith, total_load_full a n hs r full))
      | inr p ↦ (p.pod_id, load p.pod, _, p.result)
    ]
