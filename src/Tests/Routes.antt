-- ===== src/Tests/Routes.antt =====
-- Requests that come through the router.
use serverlessd.Prelude.{
  ◌≡◌, ◌≢◌, refl, ap, arith, List, [], ◌∷◌, Option, none, some, map, length, returns, inl, inr, ℕ,
  Bool, true, false, ◌≤◌, leb, ◌==◌, if◌then◌else◌,
}
use serverlessd.Prelude.Text.{Str, codes}
use serverlessd.App.{replied}
use serverlessd.CodeStore.{get_worker_code}
use serverlessd.Serverless.{Workers, Serverless, new, start_pods}
use serverlessd.Serverless.Invariant.{IsSound, start_pods-IsSound}
use serverlessd.App.Service.{view}
use serverlessd.Auth.{HttpRequest}
use serverlessd.Router.{
  to_worker_page, to_upload, to_remove, to_wildcard, Inbound, Response, route_requests, answer_of,
}
use serverlessd.Router.Integrity.{route_requests_keep, IsUnsigned}
use serverlessd.Router.Pages.{Exchange, route_requests-Exchange}
use serverlessd.Tests.Samples.{exact, regex, names, memory, files}
use serverlessd.Tests.Runtime.{
  hello, code, stored, toy_crypto, auth, signed, stops_on_error, stops, stops_errors, workers,
}

abbrev unsigned : HttpRequest
unsigned = record { authorization = none; payload = some code }

unsigned-IsUnsigned : IsUnsigned toy_crypto auth unsigned
unsigned-IsUnsigned claims authentic = absurd (let c = authentic.carried in cc)

abbrev other : Str
other = codes "hi"

other-apart : other ≢ hello
other-apart e = absurd (omega (arith, ap length e))

abbrev pub inbounds : List (Inbound × Workers)
inbounds =
    (record { route = to_upload hello; request = unsigned }, workers)
    ∷ (
      record { route = to_worker_page hello 7 (replied (codes "hi")); request = unsigned },
      workers,
    )
    ∷ (record { route = to_upload other; request = signed }, workers)
    ∷ (record { route = to_remove hello; request = unsigned }, workers)
    ∷ (record { route = to_remove other; request = signed }, workers)
    ∷ (record { route = to_wildcard; request = signed }, workers)
    ∷ []

abbrev pub before : Serverless exact regex memory
before = start_pods exact regex memory (new exact regex memory 2 3 stored)

route_requests_keep_example :
    (responses : List (Response exact regex memory toy_crypto stops_on_error)) × (after : Serverless
      exact regex memory)
    × (route_requests exact regex memory toy_crypto stops_on_error auth inbounds before
        ≡ returns (responses, after))
    × (length responses ≡ 6)
    × IsSound exact regex memory names files after
    × ((get_worker_code regex memory hello after.code_store).0
        ≡ (get_worker_code regex memory hello before.code_store).0)
route_requests_keep_example =
    route_requests_keep exact regex memory names files toy_crypto stops_on_error stops stops_errors
      auth hello inbounds before
      (start_pods-IsSound exact regex memory names files 2 3 stored (inr refl)) (omega arith)
      (
        inl unsigned-IsUnsigned,
        (
          tt,
          (inr other-apart, (inl unsigned-IsUnsigned, (inr (omega arith, other-apart), (tt, tt)))),
        ),
      )

abbrev pub reason_of : ℕ → Option Str
reason_of c = if c == 401 then some (codes "Unauthorized") else none

abbrev pub on_errors : Option ℕ → Bool
on_errors none = false
on_errors (some c) = leb 400 c

pub caught : (c : ℕ) → 400 ≤ c → on_errors (some c) ≡ true
caught c h = ground arith

route_requests-Exchange_example :
    (responses : List (Response exact regex memory toy_crypto stops_on_error)) × (after : Serverless
      exact regex memory)
    × (route_requests exact regex memory toy_crypto stops_on_error auth inbounds before
        ≡ returns (responses, after))
    × IsSound exact regex memory names files after
    × Exchange exact regex memory names files toy_crypto stops_on_error stops stops_errors reason_of
        on_errors caught auth
        (view exact regex memory before)
        (map (λ i. i.0) inbounds)
        (map (answer_of exact regex memory toy_crypto stops_on_error reason_of on_errors) responses)
        (view exact regex memory after)
route_requests-Exchange_example =
    route_requests-Exchange exact regex memory names files toy_crypto stops_on_error stops
      stops_errors reason_of on_errors caught auth inbounds before
      (start_pods-IsSound exact regex memory names files 2 3 stored (inr refl))
      (tt, (tt, (tt, (omega arith, (omega arith, (tt, tt))))))
