-- ===== src/Tests/Crowds.antt =====
-- Requests that come through the router at once.
use serverlessd.Prelude.{ℕ, refl, List, [], ◌∷◌, map, inr, arith}
use serverlessd.Serverless.{Workers}
use serverlessd.Serverless.Invariant.{start_pods-IsSound}
use serverlessd.Router.Arrivals.Crowd.{Crowd, run_stages-Crowd}
use serverlessd.Tests.Samples.{exact, regex, names, memory, files}
use serverlessd.Tests.Runtime.{
  stored, toy_crypto, auth, stops_on_error, stops, stops_errors, workers,
}
use serverlessd.Tests.Routes.{inbounds, before, reason_of, on_errors, caught}

-- A page is asked for, and before its request is sent to the worker an upload and a removal come in;
-- turns of requests that the middleware or the wildcard ended are empty.
abbrev turns : List (ℕ × Workers)
turns = (1, workers) ∷ (2, workers) ∷ (0, workers) ∷ (4, workers) ∷ (5, workers) ∷ (1, workers) ∷ []

run_stages-Crowd_example :
    Crowd exact regex memory names files toy_crypto stops_on_error stops stops_errors reason_of
      on_errors caught auth turns
      (map (λ i. i.0) inbounds)
      before
run_stages-Crowd_example =
    run_stages-Crowd exact regex memory names files toy_crypto stops_on_error stops stops_errors
      reason_of on_errors caught auth turns (map (λ i. i.0) inbounds) before
      (start_pods-IsSound exact regex memory names files 2 3 stored (inr refl))
      (tt, (tt, (tt, (omega arith, (omega arith, (tt, tt))))))
