-- ===== src/Tests/One.antt =====
-- The command One on a disk in memory.
use serverlessd.Prelude.{◌≡◌, refl, inl, true, List, [], ◌∷◌, none, some, returns, ok, false}
use serverlessd.Prelude.Text.{Str, codes}
use serverlessd.CodeStore.{
  Bytes, Store, js_path, upload_worker_code, get_worker_code, get_validate_regex, check_fs, written,
}
use serverlessd.CodeStore.Names.{is_worker_name}
use serverlessd.Serverless.{Workers, Serverless, start_pods, new}
use serverlessd.App.{replied, Rendered, Call, get_worker_page, answer_calls}
use serverlessd.App.Exhaustion.{worker_pages}
use serverlessd.Commands.{
  System, start_one_at, no_secret, cleaned, one, run, clean, main, Started, running, start_one,
  index, default_secret, clean_command, one_command, is_yes, socket_addr,
}
use serverlessd.Commands.One.{
  Launches, one_place, start_one_stored, start_one-running, start_one-starves,
}
use serverlessd.Tests.Samples.{exact, regex, names, memory, files}

abbrev no_workers_yet : Store regex memory
no_workers_yet = record { validate_regex = none; disk = [] }

abbrev every : Workers
every pod wrk = true

abbrev page_source : Bytes
page_source = codes "export default {}"

abbrev one_stored : Store regex memory
one_stored = record { validate_regex = some tt; disk = (js_path index, page_source) ∷ [] }

index_stored :
    upload_worker_code regex memory index page_source
      (one_place exact regex memory names files no_workers_yet).code_store
    ≡ returns (ok tt, one_stored)
unfolding upload_worker_code get_validate_regex check_fs written start_pods new js_path
    is_worker_name
index_stored = refl

index_read : (get_worker_code regex memory index one_stored).0 ≡ some page_source
unfolding get_worker_code check_fs js_path
index_read = refl

start_one-running_example :
    (st : Started) × (s' : Serverless exact regex memory) × (start_one exact regex memory every
        page_source
        (one_place exact regex memory names files no_workers_yet)
      ≡ returns (st, s'))
    × Launches exact regex memory names files page_source page_source
        (one_place exact regex memory names files no_workers_yet)
        s'
        st
start_one-running_example =
    start_one-running exact regex memory names files every page_source page_source no_workers_yet
      (inl refl) refl

ran :
    (s' : Serverless exact regex memory) × (start_one exact regex memory every page_source
        (one_place exact regex memory names files no_workers_yet)
      ≡ returns (running 0 0, s'))
ran =
    start_one_stored exact regex memory names files every page_source page_source no_workers_yet
      one_stored refl index_stored index_read

abbrev visitors : List (Call × Workers)
visitors =
    (get_worker_page index 1 (replied (codes "one")), every)
    ∷ (get_worker_page index 2 (replied (codes "two")), every)
    ∷ []

start_one-starves_example :
    (pages : List (Rendered exact regex memory)) × (after : Serverless exact regex memory)
    × (answer_calls exact regex memory visitors ran.0 ≡ returns (pages, after))
    × (worker_pages pages ≡ 0)
start_one-starves_example =
    start_one-starves exact regex memory names files every page_source no_workers_yet 0 0 ran.0
      visitors (inl refl) refl ran.1

-- A machine with no secret in its environment and a user who answers Yes.
abbrev machine : System memory
machine = record {
  IpAddr = Str;
  ip_from_str = λ s. some s;
  secret = none;
  stdin_line = codes "Yes";
  read = λ p d. none;
  remove_dir_all = λ p d. [];
}

run_needs_secret :
    main memory machine
      (run (record { port = none; host = none; n_pods = 1; n_workers_per_pod = 1 }))
      []
    ≡ returns (no_secret, [])
unfolding main
run_needs_secret = refl

clean_asks :
    main memory machine (clean (record { y = false })) one_stored.disk ≡ returns (cleaned, [])
unfolding main clean_command is_yes
clean_asks = refl

-- Without a secret, one worker is served under a secret of 32 zeros.
one_defaults :
    main memory machine
      (one (record { file = js_path index; port = none; host = none }))
      one_stored.disk
    ≡ returns (start_one_at page_source (codes "127.0.0.1", 3000) default_secret, one_stored.disk)
unfolding main one_command socket_addr js_path
one_defaults = refl
