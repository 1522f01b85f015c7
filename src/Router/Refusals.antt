-- ===== src/Router/Refusals.antt =====
-- What a request gets that the middleware of src/runtime/serverless/app_security.rs does not let
-- through to the handlers of app.rs.
use serverlessd.Prelude.{
  ℕ, ◌≤◌, ◌≡◌, refl, Bool, true, false, Option, none, some, Outcome, arith, inl, inr, Option-cases,
}
use serverlessd.Prelude.Text.{Str, codes}
use serverlessd.Pod.{Allocator}
use serverlessd.CodeStore.{RegexCrate, FileSystem}
use serverlessd.App.{Rendered, errored}
use serverlessd.Auth.{
  Claims, Crypto, AuthMiddleware, HttpRequest, Verdict, handle, refuse, mismatch, admit,
  unauthorized, bad_request,
}
use serverlessd.Auth.Gate.{
  IsAuthentic, IsUnverified, IsForged, admitted, unverified, forged, unreadable, handle-Ends,
}
use serverlessd.Router.{Response, stopped, goes_on, handle_error, status_or, reason_or, answer_of}

module _ (a : Allocator) (rx : RegexCrate) (fs : FileSystem) (crypto : Crypto)
    (resumes : Bool → Option ℕ → Bool)
    (skipped_stops : (status : Option ℕ) → resumes true status ≡ false)
    (error_stops : (skip : Bool) (code : ℕ) → 400 ≤ code → resumes skip (some code) ≡ false)
    (canonical_reason : ℕ → Option Str) (catches : Option ℕ → Bool)
    (errors_caught : (code : ℕ) → 400 ≤ code → catches (some code) ≡ true) where
  abbrev answer : Response a rx fs crypto resumes → Option (Rendered a rx fs)
  answer = answer_of a rx fs crypto resumes canonical_reason catches

  -- The error page of a status: with the name that the http crate has for it, or as unknown.
  pub data IsErrorPage (code : ℕ) (page : Rendered a rx fs) : Type 0 where
    named :
        {reason : Str}
        → canonical_reason code ≡ some reason
        → page ≡ errored reason
        → IsErrorPage code page
    unnamed :
        canonical_reason code ≡ none → page ≡ errored (codes "unknown") → IsErrorPage code page

  handle_error-IsErrorPage :
      (code : ℕ)
      → IsErrorPage code (handle_error a rx fs crypto resumes canonical_reason catches (some code))
  unfolding handle_error status_or reason_or
  handle_error-IsErrorPage code = elim (Option-cases (canonical_reason code)) [
    | inl e ↦ unnamed e (rw e)
    | inr (reason, e) ↦ named e (rw e)
  ]

  -- Without a token that verifies the client gets the error page of 401, with one that does not name
  -- the body that of 400, and nothing where the body could not be read.
  pub data Refusal (auth : AuthMiddleware crypto) (request : HttpRequest)
      : Option (Rendered a rx fs) → Type 0 where
    turned_away :
        {page : Rendered a rx fs}
        → IsUnverified crypto auth request
        → IsErrorPage unauthorized page
        → Refusal auth request (some page)
    mismatched :
        {page : Rendered a rx fs}
        → IsForged crypto auth request
        → IsErrorPage bad_request page
        → Refusal auth request (some page)
    cut_off : request.payload ≡ none → Refusal auth request none

  -- An authentic request goes on to the handler; any other is refused.
  pub data Gated (auth : AuthMiddleware crypto) (request : HttpRequest)
      : Outcome Verdict → Type 0 where
    passes :
        {verdict : Outcome Verdict} (claims : Claims)
        → IsAuthentic crypto auth request claims
        → goes_on a rx fs crypto resumes verdict ≡ true
        → Gated auth request verdict
    keeps_out :
        {verdict : Outcome Verdict}
        → Refusal auth request (answer (stopped verdict))
        → goes_on a rx fs crypto resumes verdict ≡ false
        → Gated auth request verdict

  pub handle-Gated :
      (auth : AuthMiddleware crypto) (request : HttpRequest)
      → Gated auth request (handle crypto auth request)
  unfolding goes_on admit refuse mismatch answer_of
  handle-Gated auth request = elim (handle-Ends crypto auth request) [
    | admitted claims authentic e ↦ rw e (passes claims authentic refl)
    | unverified why e ↦ rw e (
        keeps_out
          (rw (errors_caught unauthorized (omega arith))
            (turned_away why (handle_error-IsErrorPage unauthorized)))
          (skipped_stops (some unauthorized)))
    | forged why e ↦ rw e (
        keeps_out
          (rw (errors_caught bad_request (omega arith))
            (mismatched why (handle_error-IsErrorPage bad_request)))
          (error_stops false bad_request (omega arith)))
    | unreadable none_read e ↦ rw e (keeps_out (cut_off none_read) refl)
  ]
