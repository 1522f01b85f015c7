-- ===== src/App/Service.antt =====
-- What the handlers of src/runtime/serverless/app.rs promise, with threads, pods, tables, paths and
-- files left out: sources under names, and a number of free places.
pub mod Placing
pub mod Refinement
pub mod Linear
use serverlessd.Prelude.{
  ℕ, suc, ◌-◌, ◌*◌, ◌≡◌, ◌≢◌, true, false, List, [], ◌∷◌, Option, none, some, Result, ok, err,
}
use serverlessd.Prelude.Text.{Str, codes}
use serverlessd.Pod.{Allocator, ReplyTo}
use serverlessd.CodeStore.{
  RegexCrate, FileSystem, Bytes, invalid_name, io_error, js_path, check_fs, get_worker_code,
}
use serverlessd.CodeStore.Names.{IsPlain, is_worker_name}
use serverlessd.Serverless.{Serverless}
use serverlessd.Serverless.Scheduling.{total_load}
use serverlessd.App.{
  WorkerReply, replied, dropped, silent, awaiting, Rendered, text, errored, errored_with, all_ok,
  Call, get_worker_page, post_upload, post_remove,
}

-- What can be seen of a runtime: its free places, the source of each name, and what the file system
-- would say to a write and to a removal.
pub record View (fs : FileSystem) : Type 0 where
  pub free : ℕ
  pub source : Str → Option Str
  pub write_result : Str → Bytes → Result (Unit {0}) fs.IoError
  pub remove_result : Str → Result (Unit {0}) fs.IoError

module _ {fs : FileSystem} where
  abbrev pub SameSources : View fs → View fs → Type 0
  SameSources v v' = (other : Str) → IsPlain other → v'.source other ≡ v.source other

  abbrev pub SameBut : Str → View fs → View fs → Type 0
  SameBut name v v' =
      (other : Str) → IsPlain other → name ≢ other → v'.source other ≡ v.source other

module _ (a : Allocator) (rx : RegexCrate) (fs : FileSystem) where
  abbrev pub view : Serverless a rx fs → View fs
  view s = record {
    free = s.n_threads * a.with_capacity s.n_workers - total_load s.pods;
    source = λ name. (get_worker_code rx fs name s.code_store).0;
    write_result =
        λ name code. (fs.write (js_path name) code (check_fs rx fs s.code_store.disk).1).0;
    remove_result = λ name. (fs.remove_file (js_path name) (check_fs rx fs s.code_store.disk).1).0;
  }

  -- One call, from view to view. A page takes a place for good, if its name has a source and a place
  -- is free; `answer` is what its worker answers.
  pub data Serves (v v' : View fs) : Call → Rendered a rx fs → Type 0 where
    answered :
        {name : Str} {reply : ReplyTo} {result source : Str}
        → v.source name ≡ some source
        → v.free ≡ suc v'.free
        → SameSources v v'
        → Serves v v' (get_worker_page name reply (replied result)) (text result)
    unanswered :
        {name : Str} {reply : ReplyTo} {message source : Str}
        → message ≡ codes "failed to execute worker"
        → v.source name ≡ some source
        → v.free ≡ suc v'.free
        → SameSources v v'
        → Serves v v' (get_worker_page name reply dropped) (errored message)
    awaited :
        {name : Str} {reply : ReplyTo} {source : Str}
        → v.source name ≡ some source
        → v.free ≡ suc v'.free
        → SameSources v v'
        → Serves v v' (get_worker_page name reply silent) awaiting
    unknown :
        {name : Str} {reply : ReplyTo} {answer : WorkerReply} {message : Str}
        → message ≡ codes "failed to create worker"
        → v.source name ≡ none
        → v'.free ≡ v.free
        → SameSources v v'
        → Serves v v' (get_worker_page name reply answer) (errored message)
    full :
        {name : Str} {reply : ReplyTo} {answer : WorkerReply} {message source : Str}
        → message ≡ codes "failed to create worker"
        → v.source name ≡ some source
        → v.free ≡ 0
        → v'.free ≡ 0
        → SameSources v v'
        → Serves v v' (get_worker_page name reply answer) (errored message)
    unread :
        {name message : Str}
        → message ≡ codes "failed to parse body"
        → v'.free ≡ v.free
        → SameSources v v'
        → Serves v v' (post_upload name none) (errored message)
    refused :
        {name : Str} {body : Bytes}
        → is_worker_name name ≡ false
        → v'.free ≡ v.free
        → SameSources v v'
        → Serves v v' (post_upload name (some body)) (errored_with (invalid_name name))
    unwritten :
        {name : Str} {body : Bytes} {e : fs.IoError}
        → is_worker_name name ≡ true
        → v.write_result name body ≡ err e
        → v'.free ≡ v.free
        → SameBut name v v'
        → Serves v v' (post_upload name (some body)) (errored_with (io_error e))
    uploaded :
        {name : Str} {body : Bytes}
        → is_worker_name name ≡ true
        → v.write_result name body ≡ ok tt
        → v'.free ≡ v.free
        → v'.source name ≡ fs.from_utf8 body
        → SameBut name v v'
        → Serves v v' (post_upload name (some body)) all_ok
    removed :
        {name : Str}
        → v.remove_result name ≡ ok tt
        → v'.free ≡ v.free
        → v'.source name ≡ none
        → SameBut name v v'
        → Serves v v' (post_remove name) all_ok
    unremoved :
        {name : Str} {e : fs.IoError}
        → v.remove_result name ≡ err e
        → v'.free ≡ v.free
        → SameBut name v v'
        → Serves v v' (post_remove name) all_ok

  -- Calls one after the other.
  pub data Session : View fs → List Call → List (Rendered a rx fs) → View fs → Type 0 where
    over : {v : View fs} → Session v [] [] v
    next :
        {v v' w : View fs} {call : Call} {page : Rendered a rx fs} {calls : List Call}
        {pages : List (Rendered a rx fs)}
        → Serves v v' call page
        → Session v' calls pages w
        → Session v (call ∷ calls) (page ∷ pages) w

-- A removal is of a name without a slash.
abbrev pub IsTame : Call → Type 0
IsTame (post_remove name) = IsPlain name
IsTame call = Unit
