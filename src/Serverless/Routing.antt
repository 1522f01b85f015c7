-- ===== src/Serverless/Routing.antt =====
-- From `create_worker` to `send_http_to_worker` (src/runtime/serverless/handle.rs): the ids that
-- the first returns lead the second to the worker that was created.
use serverlessd.Prelude.{
  ℕ, ◌<◌, ◌≡◌, ◌≢◌, List, [], ◌∷◌, ◌++◌, some, get_elem?, set, All, All-get_elem?, lt_of_get_elem?,
  get_elem?-set_self, get_elem?-set_ne, returns, if◌then◌else◌,
}
use serverlessd.Pod.{Allocator, ReplyTo, http, to_worker}
use serverlessd.Pod.Client.{PodHandle}
use serverlessd.Pod.Client.Ready.{IsReady, load, trigger-IsReady, forwarded_to_sent, forwarded_to}
use serverlessd.Serverless.{Workers, pass_to_pod}

-- An http trigger for a worker that a pod holds reaches that worker and no other: it is the last
-- thing sent in that pod, if the worker still listens, and no other pod has changed.
pub pass_to_pod-http :
    (a : Allocator) (n : ℕ) (workers : Workers) (id wid : ℕ) (reply : ReplyTo) (hs : List PodHandle)
    (h : PodHandle)
    → All (IsReady a n) hs
    → get_elem? hs id ≡ some h
    → wid < load h
    → (hs' : List PodHandle) × (pass_to_pod a workers id (to_worker wid (http reply)) hs
        ≡ returns hs')
      × ((h' : PodHandle) × (get_elem? hs' id ≡ some h')
          × (h'.pod.tasks ≡ h.pod.tasks)
          × (h'.pod.sent ≡ h.pod.sent ++ (if workers id wid then (wid, http reply) ∷ [] else [])))
      × ((j : ℕ) → id ≢ j → get_elem? hs' j ≡ get_elem? hs j)
unfolding pass_to_pod
pass_to_pod-http a n workers id wid reply hs h r at lt =
    let ready = All-get_elem? (IsReady a n) hs id h r at in
    let h' = forwarded_to a n (workers id) wid (http reply) h in
    let sent = forwarded_to_sent a n (workers id) wid (http reply) h ready lt in
    (
      set hs id h',
      rw (at, pass_to_pod) (rw (trigger-IsReady a n (workers id) wid (http reply) h ready)),
      (h', get_elem?-set_self hs id h' (lt_of_get_elem? hs id at), sent.0, sent.1),
      λ j ne. get_elem?-set_ne hs id j h' ne,
    )
