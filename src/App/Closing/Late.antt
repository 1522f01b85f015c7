-- ===== src/App/Closing/Late.antt =====
-- The requests of src/runtime/serverless/app.rs that ctrl-c overtakes.
use serverlessd.Prelude.{
  ℕ, zero, suc, ◌≡◌, Bool, List, [], ◌∷◌, ◌++◌, map, none, some, get_elem?, returns,
}
use serverlessd.Prelude.Text.{codes}
use serverlessd.Pod.{Allocator}
use serverlessd.CodeStore.{RegexCrate, FileSystem}
use serverlessd.CodeStore.Names.{WorkerNameRegex, WorkerFiles}
use serverlessd.Serverless.{Workers, Serverless}
use serverlessd.Serverless.Shutdown.{AllStopped}
use serverlessd.App.{Call, errored, all_ok, get_worker_page, post_upload, post_remove}
use serverlessd.App.Interleaving.{Handler, started, placed, rendered, run_handlers}
use serverlessd.App.Interleaving.Rush.{turns_of}
use serverlessd.App.Closing.{serving, ended, Happening, turn_of, interrupted, run_session}

abbrev pub all_turns : List (ℕ × Workers) → List Happening
all_turns [] = []
all_turns ((i, workers) ∷ turns) = turn_of i workers ∷ all_turns turns

module _ {a : Allocator} {rx : RegexCrate} {fs : FileSystem} where
  -- What a handler has after its first turn behind the end of the task: uploads and removals are
  -- acknowledged, and pages are errors.
  abbrev pub settled : Handler a rx fs → Handler a rx fs
  settled (started (get_worker_page name reply answer)) =
      rendered (errored (codes "failed to create worker"))
  settled (started (post_upload name none)) = rendered (errored (codes "failed to parse body"))
  settled (started (post_upload name (some body))) = rendered all_ok
  settled (started (post_remove name)) = rendered all_ok
  settled (placed pod wrk reply answer) = rendered (errored (codes "failed to execute worker"))
  settled (rendered page) = rendered page

  abbrev pub settled_after : ℕ → Handler a rx fs → Handler a rx fs
  settled_after zero h = h
  settled_after (suc n) h = settled h

module _ (a : Allocator) (rx : RegexCrate) (fs : FileSystem) (names : WorkerNameRegex rx)
    (files : WorkerFiles fs) where
  -- What becomes of requests that are served at once, where ctrl-c comes between their turns.
  pub record Overtaken (before after : List (ℕ × Workers)) (workers : Workers) (queued : ℕ → Bool)
      (calls : List Call) (s : Serverless a rx fs) : Type 0 where
    pub mid : List (Handler a rx fs)
    pub reached : Serverless a rx fs
    pub handlers : List (Handler a rx fs)
    pub final : Serverless a rx fs
    pub served_before : run_handlers a rx fs before (map started calls) s ≡ returns (mid, reached)
    pub result :
        run_session a rx fs queued
          (all_turns before ++ interrupted workers ∷ all_turns after)
          (map started calls)
          (serving s)
        ≡ returns (handlers, ended final)
    pub kept_sources : final.code_store ≡ reached.code_store
    pub stopped : AllStopped workers 0 reached.pods final.pods
    pub each :
        (i : ℕ) (h : Handler a rx fs)
        → get_elem? mid i ≡ some h
        → get_elem? handlers i ≡ some (settled_after (turns_of i after) h)
