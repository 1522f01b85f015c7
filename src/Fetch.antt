-- ===== src/Fetch.antt =====
-- src/intrinsics/fetch.rs, with the HTTP client of src/runtime/worker/state.rs that it uses.
pub mod Headers
use serverlessd.Prelude.{
  ℕ, zero, suc, ◌+◌, Bool, true, false, ◌&&◌, not, List, [], ◌∷◌, Option, none, some, Outcome,
  returns, panics, undefined, ◌>>=◌ as bind, Result, ok, err, if◌then◌else◌, ◌≡◌,
}
use serverlessd.Prelude.Text.{Str, codes}
pub use serverlessd.Language.{Js}
use serverlessd.Language.{ThrowException, type_error, error, throw, lossy}

-- What fetch asks of reqwest and http. An insertion replaces what stands under the name.
pub record Http : Type 1 where
  pub Client : Type 0
  pub build_client : Unit {0} → Option Client
  pub Method : Type 0
  pub method_from_str : Str → Option Method
  pub get_method : Method
  pub HeaderName : Type 0
  pub name_eq : HeaderName → HeaderName → Bool
  pub header_name_from_str : Str → Option HeaderName
  pub HeaderValue : Type 0
  pub header_value_from_str : Str → Option HeaderValue
  pub HeaderMap : Type 0
  pub new_map : HeaderMap
  pub insert : HeaderName → HeaderValue → HeaderMap → HeaderMap
  pub lookup : HeaderName → HeaderMap → Option HeaderValue
  pub lookup-new_map : (n : HeaderName) → lookup n new_map ≡ none
  pub lookup-insert :
      (n k : HeaderName) (v : HeaderValue) (m : HeaderMap)
      → lookup n (insert k v m) ≡ (if name_eq n k then some v else lookup n m)

module _ (js : Js) (http : Http) where
  open js use {
    Value, undefined_value, is_object, is_null_or_undefined, to_text, new_string, get, own_names,
    new_resolver,
  }
  open http use {
    Client, build_client, Method, method_from_str, get_method, HeaderName, header_name_from_str,
    HeaderValue, header_value_from_str, HeaderMap, new_map, insert,
  }

  -- The request that is sent, and headers where the options named some.
  pub record Request : Type 0 where
    pub client : Client
    pub method : Method
    pub url : Str
    pub headers : Option HeaderMap

  -- How `fetch` returns: with a promise that is rejected with a value, and the exception that is
  -- pending then; with nothing; or with a promise that waits for a request.
  pub data Fetched : Type 0 where
    rejected : Value → Option Value → Fetched
    nothing : Fetched
    requested : Request → Fetched

  -- A step either goes on or returns from `fetch`.
  abbrev pub Step : Type 0 → Type 0
  Step A = Outcome (Result A Fetched)

  abbrev pub next : {A B : Type 0} → (A → Step B) → Result A Fetched → Step B
  next f (ok a) = f a
  next f (err r) = returns (err r)

  infixl 5 ◌>>=◌ ◌>>◌
  abbrev pub ◌>>=◌ : {A B : Type 0} → Step A → (A → Step B) → Step B
  m >>= f = bind m (next f)

  abbrev pub ◌>>◌ : {B : Type 0} → Step (Unit {0}) → Step B → Step B
  m >> k = m >>= λ _. k

  abbrev pub pure : {A : Type 0} → A → Step A
  pure a = returns (ok a)

  abbrev pub mapped : {A B : Type 0} → (A → B) → Step A → Step B
  mapped f m = m >>= λ a. pure (f a)

  -- The macros `some!` and `ok!` without an else part.
  abbrev pub unwrap_or_return : {A : Type 0} → Option A → Step A
  unwrap_or_return (some a) = pure a
  unwrap_or_return none = returns (err nothing)

  -- Their else parts throw and reject; a resolver that cannot be made is unwrapped.
  abbrev pub rejecting : {A : Type 0} → Value × Option Value → Step A
  rejecting (exc, waiting) =
      if new_resolver tt then returns (err (rejected exc waiting)) else panics

  abbrev pub reject : {A : Type 0} → Str → Step A
  reject message = bind (throw js (type_error message)) rejecting

  abbrev pub unwrap_or_reject : {A : Type 0} → Option A → Str → Step A
  unwrap_or_reject (some a) message = pure a
  unwrap_or_reject none message = reject message

  abbrev pub unwrap : {A : Type 0} → Option A → Step A
  unwrap (some a) = pure a
  unwrap none = panics

  -- `add_client` builds a client in any case, and keeps the first.
  pub add_client : Option Client → Step (Option Client)
  add_client cell = do
    built ← unwrap (build_client tt)
    pure (elim cell [ none ↦ some built | some client ↦ some client ])

  -- `get_client().unwrap_unchecked()`.
  abbrev get_client : Option Client → Step Client
  get_client (some client) = pure client
  get_client none = undefined

  -- `args.get(i)`.
  abbrev pub argument : List Value → ℕ → Value
  argument [] i = undefined_value
  argument (v ∷ args) zero = v
  argument (v ∷ args) (suc i) = argument args i

  abbrev pub is_given : Value → Bool
  is_given v = is_object v && not (is_null_or_undefined v)

  -- The name of the method. GET stands in only where reading the property fails.
  abbrev pub method_name : Option Value → Str
  method_name none = codes "GET"
  method_name (some item) = lossy (to_text item)

  read_method : Value → Step Method
  read_method options = do
    key ← unwrap_or_return (new_string (codes "method"))
    unwrap_or_reject (method_from_str (method_name (get options key)))
        (codes "fetch: Invalid method")

  unfoldable pub choose_method : Bool → Value → Step Method
  unfolding read_method
  choose_method false options = pure get_method
  choose_method true options = read_method options

  pub read_header : Value → Value → Step (HeaderName × HeaderValue)
  read_header headers key = do
    key_str ← unwrap_or_return (to_text key)
    val ← unwrap_or_return (get headers key)
    val_str ← unwrap_or_return (to_text val)
    name ← unwrap_or_return (header_name_from_str key_str)
    value ← unwrap_or_return (header_value_from_str val_str)
    pure (name, value)

  -- The loop over the names; a place without a name is passed over.
  pub collect_headers : Value → List (Option Value) → HeaderMap → Step HeaderMap
  collect_headers headers [] m = pure m
  collect_headers headers (none ∷ keys) m = collect_headers headers keys m
  collect_headers headers (some key ∷ keys) m = do
    (name, value) ← read_header headers key
    collect_headers headers keys (insert name value m)

  unfoldable pub given_headers : Bool → Value → Step (Option HeaderMap)
  given_headers false headers = pure none
  given_headers true headers = do
    names ← unwrap_or_return (own_names headers)
    m ← collect_headers headers names new_map
    pure (some m)

  unfoldable pub choose_headers : Bool → Value → Step (Option HeaderMap)
  unfolding given_headers
  choose_headers false options = pure none
  choose_headers true options = do
    key ← unwrap_or_return (new_string (codes "headers"))
    headers ← unwrap_or_return (get options key)
    given_headers (is_given headers) headers

  too_few : List Value → Step (Unit {0})
  too_few [] = reject (codes "fetch: At least 1 argument required, but only 0 passed")
  too_few (v ∷ args) = pure tt

  waiting_promise : Request → Step Fetched
  waiting_promise rq = if new_resolver tt then pure (requested rq) else returns (err nothing)

  request_with : Client → List Value → Step Fetched
  unfolding choose_method choose_headers too_few waiting_promise
  request_with client args = do
    too_few args
    url ← unwrap (to_text (argument args 0))
    let options = argument args 1
    method ← choose_method (is_given options) options
    headers ← choose_headers (is_given options) options
    waiting_promise (record { client = client; method = method; url = url; headers = headers })

  merged : Result Fetched Fetched → Outcome Fetched
  merged (ok r) = returns r
  merged (err r) = returns r

  -- `fetch`, with the client cell of the worker's state as it is before.
  pub fetch : Option Client → List Value → Outcome Fetched
  unfolding add_client request_with merged
  fetch cell args =
      bind (do cell' ← add_client cell; client ← get_client cell'; request_with client args) merged

-- A poll of the future that sends the request: the first, where the answer is not there yet or is,
-- a later one without the answer, and the one that finds it. Where the answer is there, the poll also
-- runs the reactions to it, by the settling of the promise and by the microtask checkpoint, and the
-- functions that the worker's `then` registered tick in them: so often as the number says.
pub data Poll : Type 0 where
  sent : Poll
  sent_and_answered : ℕ → Poll
  still_waiting : Poll
  answered : ℕ → Poll

-- The ticks inside the poll: one before the future sends, one once it has the answer, and those of
-- the reactions.
unfoldable pub inner_ticks : Poll → ℕ
inner_ticks sent = 1
inner_ticks (sent_and_answered reactions) = 2 + reactions
inner_ticks still_waiting = 0
inner_ticks (answered reactions) = 1 + reactions

-- With those of `MonitoredFuture::poll` around them.
unfoldable pub poll_ticks : Poll → ℕ
unfolding inner_ticks
poll_ticks p = 1 + inner_ticks p + 1

module _ (js : Js) where
  -- What the script's promise gets of the answer, and the exception that is pending then.
  pub data Settled : Type 0 where
    resolved_null : Settled
    rejected_error : js.Value → Option js.Value → Settled

  rejected_by : js.Value × Option js.Value → Settled
  rejected_by (exc, waiting) = rejected_error exc waiting

  pub settle : Result (Unit {0}) Str → Outcome Settled
  unfolding rejected_by
  settle (ok resp) = returns resolved_null
  settle (err details) = bind (throw js (error details)) (λ thrown. returns (rejected_by thrown))
