-- ===== src/Auth/Bearer.antt =====
-- The header's "Bearer " prefix in src/runtime/serverless/app_security.rs.
use serverlessd.Prelude.{ℕ, ◌≡◌, ap, ◌∙◌, sym, ◌++◌, List, Option, none, some}
use serverlessd.Prelude.Text.{Str, strip_prefix, repeat, trim_start_matches-repeat}
use serverlessd.Auth.{Crypto, AuthMiddleware, bearer, handle, check_token}

-- However often "Bearer " stands in front of a token, none included, the request is treated alike:
-- `trim_start_matches` takes the prefix off as often as it stands there.
pub handle_any_bearer :
    (crypto : Crypto) (auth : AuthMiddleware crypto) (n : ℕ) (token : Str)
    (payload : Option (List ℕ))
    → strip_prefix bearer token ≡ none
    → handle crypto auth
        (record { authorization = some (repeat n bearer ++ token); payload = payload })
      ≡ handle crypto auth (record { authorization = some token; payload = payload })
unfolding handle
handle_any_bearer crypto auth n token payload e =
    ap (λ t. check_token crypto (crypto.decode t auth.key) payload)
      (trim_start_matches-repeat _ _ n token e ∙ sym (trim_start_matches-repeat _ _ 0 token e))
