-- ===== src/App/Interleaving/Progress.antt =====
-- One turn of a handler of src/runtime/serverless/app.rs: how much of it is left, and the worker
-- that it holds.
use serverlessd.Prelude.{ℕ, ◌+◌, ◌-◌, ◌≤◌, ◌≡◌, refl, Option, none, some, returns, arith}
use serverlessd.Prelude.Text.{Str}
use serverlessd.Pod.{Allocator, ReplyTo}
use serverlessd.CodeStore.{RegexCrate, FileSystem}
use serverlessd.CodeStore.Names.{WorkerNameRegex, WorkerFiles}
use serverlessd.Serverless.{Workers, Serverless}
use serverlessd.Serverless.Invariant.{IsSound}
use serverlessd.App.{
  WorkerReply, replied, dropped, silent, awaiting, errored, all_ok, text, errored_with,
  CodeStoreError, get_worker_page, post_upload, post_remove, created, uploaded, executed,
  upload_result,
}
use serverlessd.App.Growth.{
  Grows, gained, create-Grows, send-Grows, upload-Grows, remove-Grows, unchanged-Grows,
}
use serverlessd.App.Exhaustion.{IsSilent}
use serverlessd.App.Interleaving.{Handler, started, placed, rendered, placed_in, take_turn}

module _ {a : Allocator} {rx : RegexCrate} {fs : FileSystem} where
  -- The turns that a handler needs at most.
  abbrev pub left : Handler a rx fs → ℕ
  left (started call) = 2
  left (placed pod wrk reply answer) = 1
  left (rendered page) = 0

  -- Whether a worker was made for the handler, which it still waits for or which has answered.
  abbrev pub held : Handler a rx fs → ℕ
  held (started call) = 0
  held (placed pod wrk reply answer) = 1
  held (rendered (text result)) = 1
  held (rendered (errored message)) = 0
  held (rendered (errored_with e)) = 0
  held (rendered all_ok) = 0
  held (rendered awaiting) = 1

  -- The handler's worker never replies.
  abbrev pub MayWait : Handler a rx fs → Type 0
  MayWait (started call) = IsSilent call
  MayWait (placed pod wrk reply silent) = Unit
  MayWait (placed pod wrk reply dropped) = ⊥
  MayWait (placed pod wrk reply (replied result)) = ⊥
  MayWait (rendered awaiting) = Unit
  MayWait (rendered (text result)) = ⊥
  MayWait (rendered (errored message)) = ⊥
  MayWait (rendered (errored_with e)) = ⊥
  MayWait (rendered all_ok) = ⊥

module _ (a : Allocator) (rx : RegexCrate) (fs : FileSystem) (names : WorkerNameRegex rx)
    (files : WorkerFiles fs) where
  held-executed : (answer : WorkerReply) → held (rendered (executed a rx fs answer)) ≤ 1
  unfolding executed
  held-executed dropped = omega arith
  held-executed (replied result) = omega arith
  held-executed silent = omega arith

  waits-executed :
      (pod wrk : ℕ) (reply : ReplyTo) (answer : WorkerReply)
      → MayWait (rendered (executed a rx fs answer))
      → MayWait {a = a} {rx = rx} {fs = fs} (placed pod wrk reply answer)
  unfolding executed
  waits-executed pod wrk reply dropped w = w
  waits-executed pod wrk reply (replied result) w = w
  waits-executed pod wrk reply silent w = w

  waits-placed :
      (pod wrk : ℕ) (name : Str) (reply : ReplyTo) (answer : WorkerReply)
      → MayWait {a = a} {rx = rx} {fs = fs} (placed pod wrk reply answer)
      → IsSilent (get_worker_page name reply answer)
  waits-placed pod wrk name reply dropped w = w
  waits-placed pod wrk name reply (replied result) w = w
  waits-placed pod wrk name reply silent w = w

  waits-upload_result :
      (r : Option (CodeStoreError rx fs)) → ¬ MayWait (rendered (upload_result a rx fs r))
  unfolding upload_result
  waits-upload_result none w = w
  waits-upload_result (some e) w = w

  held-upload_result :
      (r : Option (CodeStoreError rx fs)) → held (rendered (upload_result a rx fs r)) ≡ 0
  unfolding upload_result
  held-upload_result none = omega arith
  held-upload_result (some e) = omega arith

  -- A turn goes through, leaves one turn less, and takes a worker only if one was made.
  pub record Stepped (workers : Workers) (h : Handler a rx fs) (s : Serverless a rx fs)
      : Type 0 where
    pub handler : Handler a rx fs
    pub after : Serverless a rx fs
    pub more : ℕ
    pub result : take_turn a rx fs workers h s ≡ returns (handler, after)
    pub grows : Grows a rx fs names files more s after
    pub less : left handler ≤ left h - 1
    pub holds : held handler ≤ more + held h
    pub waits : MayWait handler → MayWait h

  placed_in-Stepped :
      (workers : Workers) (name : Str) (reply : ReplyTo) (answer : WorkerReply)
      (s after : Serverless a rx fs) (o : Option (ℕ × ℕ))
      → take_turn a rx fs workers (started (get_worker_page name reply answer)) s
        ≡ returns (placed_in a rx fs reply answer o, after)
      → Grows a rx fs names files (gained o) s after
      → Stepped workers (started (get_worker_page name reply answer)) s
  unfolding placed_in
  placed_in-Stepped workers name reply answer s after none e g = record {
    handler = _;
    after = after;
    more = 0;
    result = e;
    grows = g;
    less = omega arith;
    holds = omega arith;
    waits = λ w. absurd w;
  }
  placed_in-Stepped workers name reply answer s after (some (pod, wrk)) e g = record {
    handler = placed pod wrk reply answer;
    after = after;
    more = 1;
    result = e;
    grows = g;
    less = omega arith;
    holds = omega arith;
    waits = waits-placed pod wrk name reply answer;
  }

  pub take_turn-Stepped :
      (workers : Workers) (h : Handler a rx fs) (s : Serverless a rx fs)
      → IsSound a rx fs names files s
      → Stepped workers h s
  unfolding take_turn created uploaded
  take_turn-Stepped workers (started (get_worker_page name reply answer)) s h =
      let (o, s', e, g) = create-Grows a rx fs names files workers name s h in
      placed_in-Stepped workers name reply answer s s' o (rw e) g
  take_turn-Stepped workers (started (post_upload name none)) s h = record {
    handler = _;
    after = s;
    more = 0;
    result = refl;
    grows = unchanged-Grows a rx fs names files s h;
    less = omega arith;
    holds = omega arith;
    waits = λ w. absurd w;
  }
  take_turn-Stepped workers (started (post_upload name (some body))) s h =
      let (r, s', e, g) = upload-Grows a rx fs names files workers name body s h in
      record {
        handler = rendered (upload_result a rx fs r);
        after = s';
        more = 0;
        result = rw e;
        grows = g;
        less = omega arith;
        holds = omega (arith, held-upload_result r);
        waits = λ w. absurd (waits-upload_result r w);
      }
  take_turn-Stepped workers (started (post_remove name)) s h =
      let (s', e, g) = remove-Grows a rx fs names files workers name s h in
      record {
        handler = rendered all_ok;
        after = s';
        more = 0;
        result = rw e;
        grows = g;
        less = omega arith;
        holds = omega arith;
        waits = λ w. absurd w;
      }
  take_turn-Stepped workers (placed pod wrk reply answer) s h =
      let (s', e, g) = send-Grows a rx fs names files workers pod wrk reply s h in
      record {
        handler = rendered (executed a rx fs answer);
        after = s';
        more = 0;
        result = rw e;
        grows = g;
        less = omega arith;
        holds = omega (arith, held-executed answer);
        waits = waits-executed pod wrk reply answer;
      }
  take_turn-Stepped workers (rendered page) s h = record {
    handler = rendered page;
    after = s;
    more = 0;
    result = refl;
    grows = unchanged-Grows a rx fs names files s h;
    less = omega arith;
    holds = omega arith;
    waits = λ w. w;
  }
