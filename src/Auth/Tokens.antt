-- ===== src/Auth/Tokens.antt =====
-- The tokens of pkg/auth/jwt.go at AuthMiddleware of rbac.go.
use Prim.Native.String.{◌++◌, len, slice}
use text.Mathlib.TextPositions.{len-append, slice-append_right, starts_with-append}
use opc_platform.Prelude.{
  ℕ, ◌+◌, String, false, ◌≡◌, ap, ◌∙◌, inl, inr, some, [], ◌∷◌, arith, if◌then◌else◌, str_eq,
  eq_iff, ltb, Bool-cases,
}
use opc_platform.Auth.{
  Context, next, abort, Codec, JwtManager, new_claims, signing_input, generate_token, three_parts,
  read_claims, validate_token, bearer, trim_bearer, auth_middleware, token_expired,
}

trim_bearer-bearer : (token : String) → trim_bearer (bearer ++ token) ≡ token
unfolding trim_bearer
trim_bearer-bearer token =
    rw (starts_with-append bearer token, trim_bearer)
      (ap (slice (bearer ++ token) (len bearer)) (len-append bearer token)
        ∙ slice-append_right bearer token)

-- A header is longer than its token.
longer : (token : String) → str_eq token (bearer ++ token) ≡ false
longer token = elim (Bool-cases (str_eq token (bearer ++ token))) [
  | inl same ↦
      let path : token ≡ bearer ++ token = (eq_iff token (bearer ++ token)).0 same in
      absurd (omega (arith, ap len path, len-append bearer token))
  | inr other ↦ other
]

not_empty : (token : String) → str_eq (bearer ++ token) "" ≡ false
not_empty token = elim (Bool-cases (str_eq (bearer ++ token) "")) [
  | inl same ↦
      let path : bearer ++ token ≡ "" = (eq_iff (bearer ++ token) "").0 same in
      absurd (omega (arith, ap len path, len-append bearer token))
  | inr other ↦ other
]

-- A token that GenerateToken made at some time. The hypotheses are that the standard library reads back
-- what it wrote: the split at the dots, which base64 does not have, base64, and JSON of the claims.
module _ (codec : Codec) (m : JwtManager) (issued : ℕ) (user_id username role tenant_id : String)
    (splits : codec.split_dots (generate_token codec m issued user_id username role tenant_id)
      ≡ codec.encode codec.header_json
        ∷ codec.encode (codec.marshal (new_claims m issued user_id username role tenant_id))
        ∷ codec.encode (
            codec.hmac m.secret
              (signing_input codec (new_claims m issued user_id username role tenant_id)))
        ∷ [])
    (decodes : (text : String) → codec.decode (codec.encode text) ≡ some text)
    (unmarshals : codec.unmarshal
        (codec.marshal (new_claims m issued user_id username role tenant_id))
      ≡ some (new_claims m issued user_id username role tenant_id)) where
  validate_token-generate_token :
      (now : ℕ)
      → validate_token codec m now (generate_token codec m issued user_id username role tenant_id)
        ≡ (if ltb (issued + m.expiration) now
            then inl token_expired
            else inr (new_claims m issued user_id username role tenant_id))
  unfolding validate_token three_parts read_claims
  validate_token-generate_token now =
      let claims = new_claims m issued user_id username role tenant_id in
      let mac = codec.hmac m.secret (signing_input codec claims) in
      ground
        (arith, splits, decodes mac, decodes (codec.marshal claims), unmarshals, eq_iff mac mac)

  abbrev pub passed : Context → Context
  passed c = record c {
    claims = some (new_claims m issued user_id username role tenant_id);
    user_id = some user_id;
    username = some username;
    role = some role;
    tenant_id = some tenant_id;
  }

  -- A request with a bearer token of GenerateToken passes AuthMiddleware until the token has expired,
  -- with the user, the role and the tenant that the token was made for, and is aborted then.
  pub auth_middleware-generate_token :
      (now : ℕ) (c : Context)
      → c.authorization ≡ bearer ++ generate_token codec m issued user_id username role tenant_id
      → auth_middleware codec m now c
        ≡ (if ltb (issued + m.expiration) now then abort 401 "token expired" else next (passed c))
  unfolding auth_middleware
  auth_middleware-generate_token now c sent =
      let token = generate_token codec m issued user_id username role tenant_id in
      elim (Bool-cases (ltb (issued + m.expiration) now)) [
        | inl late ↦ ground (
          arith,
          late,
          sent,
          not_empty token,
          longer token,
          trim_bearer-bearer token,
          validate_token-generate_token now,
        )
        | inr early ↦ ground (
          arith,
          early,
          sent,
          not_empty token,
          longer token,
          trim_bearer-bearer token,
          validate_token-generate_token now,
        )
      ]
