-- ===== src/Tests/Runtime.antt =====
-- The runtime, its code store and its gate.
use serverlessd.Prelude.{
  ℕ, ◌≤◌, ◌≡◌, ◌≢◌, refl, Bool, true, false, List, [], ◌∷◌, ◌++◌, Option, none, some, arith, length,
  if◌then◌else◌, returns, inl, inr, Result, ok, err, ltb,
}
use serverlessd.Prelude.Text.{trim_start_matches, str_eq, Str, codes, repeat}
use serverlessd.CodeStore.{
  Bytes, Store, CodeStoreError, invalid_name, upload_worker_code, remove_worker_code,
  get_worker_code, check_fs, js_path,
}
use serverlessd.CodeStore.Names.{IsPlain, is_worker_name}
use serverlessd.CodeStore.Laws.{IsCached, get-upload_worker_code, remove_worker_code_absolute}
use serverlessd.Serverless.{
  Workers, Request, create_worker_request, upload_worker_request, remove_worker_request,
  send_http_request, Serverless, Exit, waiting, closed, ctrl_c, new, run, serverless_task,
  start_pods,
}
use serverlessd.Serverless.Scheduling.{total_load}
use serverlessd.Serverless.Invariant.{requests, serverless_task_serves, start_pods-IsSound}
use serverlessd.Serverless.Shutdown.{AllStopped, run-ctrl_c}
use serverlessd.Auth.{Claims, Crypto, HttpRequest, AuthMiddleware, bearer, handle}
use serverlessd.Auth.Gate.{IsAuthentic, reaches, reaches-IsAuthentic}
use serverlessd.Auth.Bearer.{handle_any_bearer}
use serverlessd.Tests.Samples.{exact, regex, names, memory, files}

abbrev fresh : Store regex memory
fresh = record { validate_regex = none; disk = [] }

abbrev pub hello : Str
hello = codes "hello"

abbrev pub code : Bytes
code = codes "export default {}"

abbrev pub stored : Store regex memory
stored = record { validate_regex = some tt; disk = (js_path hello, code) ∷ [] }

get-upload_worker_code_example :
    (r : Result (Unit {0}) (CodeStoreError regex memory)) × (s' : Store regex memory)
    × (upload_worker_code regex memory hello code fresh ≡ returns (r, s'))
    × IsCached regex memory names files s'
    × (r ≡ ok tt → (get_worker_code regex memory hello s').0 ≡ some code)
    × ((other : Str)
        → IsPlain other
        → hello ≢ other
        → (get_worker_code regex memory other s').0 ≡ (get_worker_code regex memory other fresh).0)
get-upload_worker_code_example =
    get-upload_worker_code regex memory names files hello code fresh (inl refl)
      (unfold is_worker_name in refl)

remove_worker_code_absolute_example :
    ((remove_worker_code regex memory (codes "/tmp/a") stored).disk
      ≡ (memory.remove_file (codes "/tmp/a.js") (check_fs regex memory stored.disk).1).1)
    × (upload_worker_code regex memory (codes "/tmp/a") code stored
        ≡ returns (err (invalid_name (codes "/tmp/a")), stored))
remove_worker_code_absolute_example =
    remove_worker_code_absolute regex memory names files (codes "tmp/a") code stored (inr refl)

abbrev pub workers : Workers
workers pod w = true

abbrev calls : List (Request × Workers)
calls =
    (upload_worker_request hello code, workers)
    ∷ (create_worker_request hello, workers)
    ∷ (send_http_request 0 0 7, workers)
    ∷ (remove_worker_request hello, workers)
    ∷ []

serverless_task_serves_example :
    (exit : Exit exact regex memory) × (serverless_task exact regex memory
        (requests exact regex memory names files calls)
        (new exact regex memory 2 3 fresh)
      ≡ returns exit)
    × (exit.status ≡ waiting)
    × (length exit.replies ≡ 4)
    × (length exit.final.pods ≡ 2)
    × (total_load exit.final.pods ≤ 6)
serverless_task_serves_example =
    serverless_task_serves exact regex memory names files 2 3 fresh calls (inl refl)

abbrev started : Serverless exact regex memory
started = start_pods exact regex memory (new exact regex memory 2 3 fresh)

run-ctrl_c_example :
    (exit : Exit exact regex memory) × (run exact regex memory ((ctrl_c, workers) ∷ []) started
      ≡ returns exit)
    × (exit.status ≡ closed)
    × AllStopped workers 0 started.pods exit.final.pods
run-ctrl_c_example =
    run-ctrl_c exact regex memory names files workers [] started
      (start_pods-IsSound exact regex memory names files 2 3 fresh (inl refl))

abbrev ticket : Claims
ticket = record {
  sub = codes "hello";
  for_ = codes "webhook";
  hash = code;
  iat = 100;
  exp = 130;
  jti = codes "1";
}

-- The token "t" verifies under every key, and a body is its own digest.
abbrev pub toy_crypto : Crypto
toy_crypto = record {
  DecodingKey = Str;
  from_secret = λ secret. secret;
  decode = λ token key. if str_eq token (codes "t") then some ticket else none;
  digest = λ body. body;
}

abbrev pub auth : AuthMiddleware toy_crypto
auth = record { key = codes "secret" }

abbrev pub signed : HttpRequest
signed = record { authorization = some (codes "Bearer t"); payload = some code }

abbrev pub stops_on_error : Bool → Option ℕ → Bool
stops_on_error true status = false
stops_on_error false none = true
stops_on_error false (some c) = ltb c 400

pub stops : (status : Option ℕ) → stops_on_error true status ≡ false
stops none = refl
stops (some c) = refl

pub stops_errors : (skip : Bool) (c : ℕ) → 400 ≤ c → stops_on_error skip (some c) ≡ false
stops_errors true c h = refl
stops_errors false c h = ground arith

signed-reaches :
    reaches toy_crypto stops_on_error stops stops_errors (handle toy_crypto auth signed) ≡ true
unfolding handle trim_start_matches
signed-reaches = refl

reaches-IsAuthentic_example : (claims : Claims) × IsAuthentic toy_crypto auth signed claims
reaches-IsAuthentic_example =
    reaches-IsAuthentic toy_crypto stops_on_error stops stops_errors auth signed signed-reaches

handle_any_bearer_example :
    handle toy_crypto auth
      (record { authorization = some (repeat 2 bearer ++ codes "t"); payload = some code })
    ≡ handle toy_crypto auth (record { authorization = some (codes "t"); payload = some code })
handle_any_bearer_example = handle_any_bearer toy_crypto auth 2 (codes "t") (some code) refl
