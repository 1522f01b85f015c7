-- ===== src/Auth.antt =====
-- src/runtime/serverless/app_security.rs: the handler in front of the upload and remove routes.
pub mod Gate
pub mod Bearer
use serverlessd.Prelude.{
  ℕ, Bool, true, false, ◌||◌, not, List, [], ◌∷◌, Option, none, some, if◌then◌else◌, Outcome,
  returns, panics,
}
use serverlessd.Prelude.Text.{Str, codes, str_eq, trim_start_matches}

-- What a token says. `for_` is the claim "for".
pub record Claims : Type 0 where
  pub sub : Str
  pub for_ : Str
  pub hash : Str
  pub iat : ℕ
  pub exp : ℕ
  pub jti : Str

-- `jsonwebtoken` and `sha2` with `hex`: `decode` gives the claims of a token that verifies under
-- the key, by HS256 and within its time.
pub record Crypto : Type 1 where
  pub DecodingKey : Type 0
  pub from_secret : Str → DecodingKey
  pub decode : Str → DecodingKey → Option Claims
  pub digest : List ℕ → Str

-- What the handler reads of a request: the header, and the body unless reading it fails.
pub record HttpRequest : Type 0 where
  pub authorization : Option Str
  pub payload : Option (List ℕ)

abbrev pub unauthorized : ℕ
unauthorized = 401

abbrev pub bad_request : ℕ
bad_request = 400

-- What the handler did: the status that it set, whether it skipped the rest, what it put into the
-- depot, and whether it called the next handler.
pub record Verdict : Type 0 where
  pub status : Option ℕ
  pub skip_rest : Bool
  pub claims : Option Claims
  pub called_next : Bool

abbrev pub bearer : Str
bearer = codes "Bearer "

unfoldable pub refuse : Verdict
refuse = record { status = some unauthorized; skip_rest = true; claims = none; called_next = false }

unfoldable pub mismatch : Verdict
mismatch = record {
  status = some bad_request;
  skip_rest = false;
  claims = none;
  called_next = false;
}

unfoldable pub admit : Claims → Verdict
admit claims = record { status = none; skip_rest = false; claims = some claims; called_next = true }

module _ (crypto : Crypto) where
  open crypto use {DecodingKey, from_secret, decode, digest}

  pub record AuthMiddleware : Type 0 where
    pub key : DecodingKey

  pub new : Str → AuthMiddleware
  new secret = record { key = from_secret secret }

  -- `payload().await.unwrap()`, then the comparison of the digests.
  check_hash : Claims → Option (List ℕ) → Outcome Verdict
  unfolding mismatch admit
  check_hash claims none = panics
  check_hash claims (some body) =
      if not (str_eq claims.hash (digest body)) then returns mismatch else returns (admit claims)

  check_token : Option Claims → Option (List ℕ) → Outcome Verdict
  unfolding check_hash refuse
  check_token none payload = returns refuse
  check_token (some claims) payload = check_hash claims payload

  unfoldable pub handle : AuthMiddleware → HttpRequest → Outcome Verdict
  unfolding check_token
  handle auth req = elim req.authorization [
    | none ↦ returns refuse
    | some token ↦ check_token (decode (trim_start_matches bearer token) auth.key) req.payload
  ]
