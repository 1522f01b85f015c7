-- ===== src/Serverless/Shutdown.antt =====
-- What `close_serverless` (src/runtime/serverless/task.rs) leaves behind after ctrl-c.
use serverlessd.Prelude.{
  ℕ, suc, ◌≡◌, refl, Bool, false, List, [], ◌∷◌, ◌++◌, All, returns, sym, ap, returns-injective,
  >>=-eq-returns,
}
use serverlessd.Pod.{Allocator, WorkerHandle}
use serverlessd.Pod.Client.{PodHandle}
use serverlessd.Pod.Client.Ready.{IsReady, load, halt-IsReady}
use serverlessd.Pod.Halting.{halts}
use serverlessd.CodeStore.{RegexCrate, FileSystem}
use serverlessd.CodeStore.Names.{WorkerNameRegex, WorkerFiles}
use serverlessd.Serverless.{Workers, Serverless, Event, Exit, closed, ctrl_c, halt_pods, run}
use serverlessd.Serverless.Invariant.{IsSound}

-- A pod that stopped after one `Halt` to each of its workers that still listened, in the order of
-- their slots and after all that was sent before.
pub record Stopped (is_open : WorkerHandle → Bool) (before after : PodHandle) : Type 0 where
  pub stopped : after.running ≡ false
  pub table : after.pod.workers.items ≡ []
  pub sent : after.pod.sent ≡ before.pod.sent ++ halts is_open (load before)

-- Pod by pod, from the index `idx` on.
abbrev pub AllStopped : Workers → ℕ → List PodHandle → List PodHandle → Type 0
AllStopped workers idx [] [] = Unit
AllStopped workers idx (h ∷ hs) (k ∷ ks) =
    Stopped (workers idx) h k × AllStopped workers (suc idx) hs ks
AllStopped workers idx _ _ = ⊥

abbrev stopped_pod : (WorkerHandle → Bool) → PodHandle → PodHandle
stopped_pod is_open h = record {
  pod = record h.pod {
    sent = h.pod.sent ++ halts is_open (load h);
    workers = record h.pod.workers { items = [] };
  };
  running = false;
}

halt_pods-AllStopped :
    (a : Allocator) (n : ℕ) (workers : Workers) (idx : ℕ) (hs : List PodHandle)
    → All (IsReady a n) hs
    → (ks : List PodHandle) × (halt_pods a workers idx hs ≡ returns ks)
      × AllStopped workers idx hs ks
unfolding halt_pods
halt_pods-AllStopped a n workers idx [] r = ([], refl, tt)
halt_pods-AllStopped a n workers idx (h ∷ hs) r =
    let (ks, e, all) = halt_pods-AllStopped a n workers (suc idx) hs r.1 in
    (
      stopped_pod (workers idx) h ∷ ks,
      rw (halt-IsReady a n (workers idx) h r.0) (rw e),
      (record { stopped = refl; table = refl; sent = refl }, all),
    )

module _ (a : Allocator) (rx : RegexCrate) (fs : FileSystem) (names : WorkerNameRegex rx)
    (files : WorkerFiles fs) where
  -- On ctrl-c a sound runtime shuts down without a hang: every pod stops, and every worker that
  -- still listens has been told to halt exactly once, whatever events would have followed.
  pub run-ctrl_c :
      (workers : Workers) (events : List (Event a rx fs × Workers)) (s : Serverless a rx fs)
      → IsSound a rx fs names files s
      → (exit : Exit a rx fs) × (run a rx fs ((ctrl_c, workers) ∷ events) s ≡ returns exit)
        × (exit.status ≡ closed)
        × AllStopped workers 0 s.pods exit.final.pods
  unfolding run
  run-ctrl_c workers events s h =
      let (ks, e, all) = halt_pods-AllStopped a s.n_workers workers 0 s.pods h.ready in
      (record { status = closed; replies = []; final = record s { pods = ks } }, rw e, refl, all)

  pub run-code_store :
      (workers : Workers) (events : List (Event a rx fs × Workers)) (s : Serverless a rx fs)
      (exit : Exit a rx fs)
      → run a rx fs ((ctrl_c, workers) ∷ events) s ≡ returns exit
      → exit.final.code_store ≡ s.code_store
  unfolding run
  run-code_store workers events s exit e =
      let (pods, halted, e') = >>=-eq-returns (halt_pods a workers 0 s.pods) _ e in
      sym (ap (λ (x : Exit a rx fs). x.final.code_store) (returns-injective e'))
