-- ===== src/App/Interleaving/Turns.antt =====
-- One turn of a handler of src/runtime/serverless/app.rs, beside the whole call on a twin of the
-- runtime.
use serverlessd.Prelude.{ℕ, ◌≡◌, refl, ◌∙◌, Option, none, some, returns}
use serverlessd.Prelude.Text.{Str, codes}
use serverlessd.Pod.{Allocator, ReplyTo}
use serverlessd.CodeStore.{RegexCrate, FileSystem}
use serverlessd.CodeStore.Names.{WorkerNameRegex, WorkerFiles}
use serverlessd.Serverless.{
  Workers, create_worker_request, upload_worker_request, remove_worker_request, Serverless,
}
use serverlessd.Serverless.Twins.{Twins, Twins-sym, serve-Alike, send-Twins}
use serverlessd.App.{
  WorkerReply, Rendered, errored, all_ok, Call, get_worker_page, post_upload, post_remove, created,
  uploaded, executed, upload_result, answer_call, worker, send_http, api_upload_worker,
  api_remove_worker,
}
use serverlessd.App.Interleaving.{Handler, started, placed, rendered, take_turn, placed_in}

module _ {a : Allocator} {rx : RegexCrate} {fs : FileSystem} where
  -- The page that a handler has rendered or is going to, once it had a turn.
  abbrev pub page_of : Handler a rx fs → Option (Rendered a rx fs)
  page_of (started call) = none
  page_of (placed pod wrk reply answer) = some (executed a rx fs answer)
  page_of (rendered page) = some page

  abbrev pub waiting_call : Handler a rx fs → Option Call
  waiting_call (started call) = some call
  waiting_call (placed pod wrk reply answer) = none
  waiting_call (rendered page) = none

module _ (a : Allocator) (rx : RegexCrate) (fs : FileSystem) where
  -- Nothing is left to do for a rendered page.
  pub take_turn-rendered :
      (workers : Workers) (page : Rendered a rx fs) (s : Serverless a rx fs)
      → take_turn a rx fs workers (rendered page) s ≡ returns (rendered page, s)
  unfolding take_turn
  take_turn-rendered workers page s = refl

module _ (a : Allocator) (rx : RegexCrate) (fs : FileSystem) (names : WorkerNameRegex rx)
    (files : WorkerFiles fs) where
  -- The first turn of a handler, and the whole call on a twin.
  pub record Begun (workers workers' : Workers) (call : Call) (s t : Serverless a rx fs)
      : Type 0 where
    pub handler : Handler a rx fs
    pub after : Serverless a rx fs
    pub page : Rendered a rx fs
    pub after' : Serverless a rx fs
    pub result : take_turn a rx fs workers (started call) s ≡ returns (handler, after)
    pub result' : answer_call a rx fs workers' call t ≡ returns (page, after')
    pub page_same : page_of handler ≡ some page
    pub turned : waiting_call handler ≡ none
    pub twins : Twins a rx fs names files after after'

  page-Begun :
      (workers workers' : Workers) (name : Str) (reply : ReplyTo) (answer : WorkerReply)
      (s t after after' : Serverless a rx fs) (o : Option (ℕ × ℕ))
      → take_turn a rx fs workers (started (get_worker_page name reply answer)) s
        ≡ returns (placed_in a rx fs reply answer o, after)
      → answer_call a rx fs workers' (get_worker_page name reply answer) t
        ≡ send_http a rx fs workers' reply answer o after'
      → Twins a rx fs names files after after'
      → Begun workers workers' (get_worker_page name reply answer) s t
  unfolding placed_in send_http
  page-Begun workers workers' name reply answer s t after after' none e e' tw = record {
    handler = rendered (errored (codes "failed to create worker"));
    after = after;
    page = errored (codes "failed to create worker");
    after' = after';
    result = e;
    result' = e';
    page_same = refl;
    turned = refl;
    twins = tw;
  }
  page-Begun workers workers' name reply answer s t after after' (some (pod, wrk)) e e' tw =
      let (sent, e'', tw') =
        send-Twins a rx fs names files workers' pod wrk reply after' after
          (Twins-sym a rx fs names files tw) in
      record {
        handler = placed pod wrk reply answer;
        after = after;
        page = executed a rx fs answer;
        after' = sent;
        result = e;
        result' = e' ∙ rw e'';
        page_same = refl;
        turned = refl;
        twins = Twins-sym a rx fs names files tw';
      }

  pub take_turn-Begun :
      (workers workers' : Workers) (call : Call) (s t : Serverless a rx fs)
      → Twins a rx fs names files s t
      → Begun workers workers' call s t
  unfolding take_turn answer_call worker api_upload_worker api_remove_worker
  take_turn-Begun workers workers' (get_worker_page name reply answer) s t tw =
      let both =
        serve-Alike a rx fs names files workers workers' (create_worker_request name) s t tw tt in
      page-Begun workers workers' name reply answer s t both.after both.after'
        (created a rx fs both.reply) (rw both.result) (rw both.result') both.twins
  take_turn-Begun workers workers' (post_upload name none) s t tw = record {
    handler = rendered (errored (codes "failed to parse body"));
    after = s;
    page = errored (codes "failed to parse body");
    after' = t;
    result = refl;
    result' = refl;
    page_same = refl;
    turned = refl;
    twins = tw;
  }
  take_turn-Begun workers workers' (post_upload name (some body)) s t tw =
      let both =
        serve-Alike a rx fs names files workers workers' (upload_worker_request name body) s t tw
          tt in
      record {
        handler = rendered (upload_result a rx fs (uploaded a rx fs both.reply));
        after = both.after;
        page = upload_result a rx fs (uploaded a rx fs both.reply);
        after' = both.after';
        result = rw both.result;
        result' = rw both.result';
        page_same = refl;
        turned = refl;
        twins = both.twins;
      }
  take_turn-Begun workers workers' (post_remove name) s t tw =
      let both =
        serve-Alike a rx fs names files workers workers' (remove_worker_request name) s t tw tt in
      record {
        handler = rendered all_ok;
        after = both.after;
        page = all_ok;
        after' = both.after';
        result = rw both.result;
        result' = rw both.result';
        page_same = refl;
        turned = refl;
        twins = both.twins;
      }

  -- A later turn: the page stays, and the runtime's twin.
  pub record Continued (workers : Workers) (h : Handler a rx fs) (s t : Serverless a rx fs)
      : Type 0 where
    pub handler : Handler a rx fs
    pub after : Serverless a rx fs
    pub result : take_turn a rx fs workers h s ≡ returns (handler, after)
    pub page_same : page_of handler ≡ page_of h
    pub turned : waiting_call handler ≡ none
    pub twins : Twins a rx fs names files after t

  pub take_turn-Continued :
      (workers : Workers) (h : Handler a rx fs) (s t : Serverless a rx fs)
      → waiting_call h ≡ none
      → Twins a rx fs names files s t
      → Continued workers h s t
  unfolding take_turn
  take_turn-Continued workers (started call) s t turned tw = absurd (cc)
  take_turn-Continued workers (placed pod wrk reply answer) s t turned tw =
      let (sent, e, tw') = send-Twins a rx fs names files workers pod wrk reply s t tw in
      record {
        handler = rendered (executed a rx fs answer);
        after = sent;
        result = rw e;
        page_same = refl;
        turned = refl;
        twins = tw';
      }
  take_turn-Continued workers (rendered page) s t turned tw = record {
    handler = rendered page;
    after = s;
    result = refl;
    page_same = refl;
    turned = refl;
    twins = tw;
  }
