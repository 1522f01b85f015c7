-- ===== src/Auth/Gate.antt =====
-- Who gets past src/runtime/serverless/app_security.rs.
use serverlessd.Prelude.{
  ap, Outcome, panics, ◌||◌, ap, ◌≤◌, subst, Bool-cases, Option-cases, ℕ, ◌≡◌, refl, true, false,
  List, none, some, ◌↔◌, ◌⊎◌, inl, inr, arith, returns, panics,
}
use serverlessd.Prelude.Text.{Str, str_eq, str_eq_refl, eq_of_str_eq, trim_start_matches}
use serverlessd.Auth.{
  bad_request, unauthorized, Outcome, Option, Bool, Claims, Crypto, HttpRequest, Verdict,
  AuthMiddleware, bearer, handle, refuse, mismatch, admit,
}

module _ (crypto : Crypto) where
  -- The request carries a token that verifies, and a body whose digest the token names.
  pub record IsAuthentic (auth : AuthMiddleware crypto) (req : HttpRequest) (claims : Claims)
      : Type 0 where
    pub token : Str
    pub body : List ℕ
    pub carried : req.authorization ≡ some token
    pub verified : crypto.decode (trim_start_matches bearer token) auth.key ≡ some claims
    pub read : req.payload ≡ some body
    pub named : claims.hash ≡ crypto.digest body

  handle-admits :
      (auth : AuthMiddleware crypto) (req : HttpRequest) (claims : Claims)
      → IsAuthentic auth req claims
      → handle crypto auth req ≡ returns (admit claims)
  unfolding handle
  handle-admits auth req claims v = ground (arith, str_eq_refl (crypto.digest v.body))

  -- Why a request is not let in: no token that verifies, or a body that the token does not name.
  abbrev pub IsUnverified : AuthMiddleware crypto → HttpRequest → Type 0
  IsUnverified auth req =
      (req.authorization ≡ none)
      ⊎ ((token : Str) × (req.authorization ≡ some token)
          × (crypto.decode (trim_start_matches bearer token) auth.key ≡ none))

  pub record IsForged (auth : AuthMiddleware crypto) (req : HttpRequest) : Type 0 where
    pub claims : Claims
    pub token : Str
    pub body : List ℕ
    pub carried : req.authorization ≡ some token
    pub verified : crypto.decode (trim_start_matches bearer token) auth.key ≡ some claims
    pub read : req.payload ≡ some body
    pub differs : str_eq claims.hash (crypto.digest body) ≡ false

  -- The handler's four ends, each with the requests that lead there.
  pub data Ends (auth : AuthMiddleware crypto) (req : HttpRequest) : Type 0 where
    admitted :
        (claims : Claims)
        → IsAuthentic auth req claims
        → handle crypto auth req ≡ returns (admit claims)
        → Ends auth req
    unverified : IsUnverified auth req → handle crypto auth req ≡ returns refuse → Ends auth req
    forged : IsForged auth req → handle crypto auth req ≡ returns mismatch → Ends auth req
    unreadable : req.payload ≡ none → handle crypto auth req ≡ panics → Ends auth req

  compare_hash :
      (auth : AuthMiddleware crypto) (req : HttpRequest) (token : Str) (claims : Claims)
      (body : List ℕ)
      → req.authorization ≡ some token
      → crypto.decode (trim_start_matches bearer token) auth.key ≡ some claims
      → req.payload ≡ some body
      → Ends auth req
  unfolding handle
  compare_hash auth req token claims body c v r =
      elim (Bool-cases (str_eq claims.hash (crypto.digest body))) [
        | inl same ↦
            let named = eq_of_str_eq claims.hash (crypto.digest body) same in
            let authentic : IsAuthentic auth req claims = record {
              token = token;
              body = body;
              carried = c;
              verified = v;
              read = r;
              named = named;
            } in
            admitted claims authentic (handle-admits auth req claims authentic)
        | inr e ↦
            forged
              (record {
                claims = claims;
                token = token;
                body = body;
                carried = c;
                verified = v;
                read = r;
                differs = e;
              })
              (ground arith)
      ]

  -- Every request comes to one of the four.
  pub handle-Ends : (auth : AuthMiddleware crypto) (req : HttpRequest) → Ends auth req
  unfolding handle
  handle-Ends auth req = elim (Option-cases req.authorization) [
    | inl e ↦ unverified (inl e) (ground arith)
    | inr (token, c) ↦
        elim (Option-cases (crypto.decode (trim_start_matches bearer token) auth.key)) [
          | inl e ↦ unverified (inr (token, c, e)) (ground arith)
          | inr (claims, v) ↦ elim (Option-cases req.payload) [
            | inl e ↦ unreadable e (ground arith)
            | inr (body, r) ↦ compare_hash auth req token claims body c v r
          ]
        ]
  ]

  -- The next handler is called if and only if the request is authentic, and it then finds the
  -- token's claims.
  handle_calls_next :
      (auth : AuthMiddleware crypto) (req : HttpRequest) (claims : Claims)
      → ((v : Verdict) × (handle crypto auth req ≡ returns v)
          × (v.called_next ≡ true)
          × (v.claims ≡ some claims))
        ↔ IsAuthentic auth req claims
  unfolding admit refuse mismatch
  handle_calls_next auth req claims = (
    λ (v, e, n, c). called v e n c,
    λ authentic. (admit claims, handle-admits auth req claims authentic, refl, refl),
  )
    where
      called :
          (v : Verdict)
          → handle crypto auth req ≡ returns v
          → v.called_next ≡ true
          → v.claims ≡ some claims
          → IsAuthentic auth req claims
      called v e n c = elim (handle-Ends auth req) [
        | admitted cs authentic e' ↦ subst (IsAuthentic auth req) (ground arith) authentic
        | unverified _ e' ↦ absurd (ground arith)
        | forged _ e' ↦ absurd (ground arith)
        | unreadable _ e' ↦ absurd (ground arith)
      ]

-- salvo goes on to the next handler after one that did not call it, as `resumes` says from the
-- skip and the status. It documents that a skip stops it, and a response stamped with an error
-- status too.
module _ (crypto : Crypto) (resumes : Bool → Option ℕ → Bool)
    (skipped_stops : (status : Option ℕ) → resumes true status ≡ false)
    (error_stops : (skip : Bool) (code : ℕ) → 400 ≤ code → resumes skip (some code) ≡ false) where
  -- Whether a handler behind the middleware runs.
  abbrev pub reaches : Outcome Verdict → Bool
  reaches (returns v) = v.called_next || resumes v.skip_rest v.status
  reaches _ = false

  -- Only an authentic request reaches the handlers behind the middleware, also on the branch that
  -- returns without skipping them.
  pub reaches-IsAuthentic :
      (auth : AuthMiddleware crypto) (req : HttpRequest)
      → reaches (handle crypto auth req) ≡ true
      → (claims : Claims) × IsAuthentic crypto auth req claims
  unfolding refuse mismatch
  reaches-IsAuthentic auth req h = elim (handle-Ends crypto auth req) [
    | admitted claims authentic e ↦ (claims, authentic)
    | unverified _ e ↦ absurd (ground (arith, ap reaches e, skipped_stops (some unauthorized)))
    | forged _ e ↦
        absurd (ground (arith, ap reaches e, error_stops false bad_request (omega arith)))
    | unreadable _ e ↦ absurd (ground (arith, ap reaches e))
  ]
