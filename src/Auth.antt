-- ===== src/Auth.antt =====
-- pkg/auth: jwt.go and rbac.go, and the middleware of pkg/tenant/tenant.go: tokens, the permissions of
-- the roles, and the functions that let a request pass or abort it. HMAC, base64 and JSON are parameters,
-- and so is the split of a text at its dots. Times are in seconds, and the expiration is a whole number
-- of them.
pub mod Tokens
pub mod Requests
use Prim.Native.String.{◌++◌, len, slice}
use text.Mathlib.Text.{starts_with}
use opc_platform.Prelude.{
  ◌+◌, ltb, ◌⊎◌, inl, inr, ℕ, String, Bool, true, false, not, ◌&&◌, Option, none, some, List, [],
  ◌∷◌, if◌then◌else◌, str_eq, Map, lookup,
}

abbrev pub role_admin : String
role_admin = "admin"

abbrev pub role_operator : String
role_operator = "operator"

abbrev pub role_viewer : String
role_viewer = "viewer"

abbrev pub admin_permissions : Map (List String)
admin_permissions =
    ("agents", "read" ∷ "write" ∷ "delete" ∷ [])
    ∷ ("tasks", "read" ∷ "write" ∷ "delete" ∷ [])
    ∷ ("workflows", "read" ∷ "write" ∷ "delete" ∷ [])
    ∷ ("costs", "read" ∷ [])
    ∷ ("logs", "read" ∷ [])
    ∷ ("auth", "read" ∷ "write" ∷ [])
    ∷ ("tenants", "read" ∷ "write" ∷ "delete" ∷ [])
    ∷ []

abbrev pub operator_permissions : Map (List String)
operator_permissions =
    ("agents", "read" ∷ "write" ∷ [])
    ∷ ("tasks", "read" ∷ "write" ∷ [])
    ∷ ("workflows", "read" ∷ "write" ∷ [])
    ∷ ("costs", "read" ∷ [])
    ∷ ("logs", "read" ∷ [])
    ∷ []

abbrev pub viewer_permissions : Map (List String)
viewer_permissions =
    ("agents", "read" ∷ [])
    ∷ ("tasks", "read" ∷ [])
    ∷ ("workflows", "read" ∷ [])
    ∷ ("costs", "read" ∷ [])
    ∷ ("logs", "read" ∷ [])
    ∷ []

abbrev pub role_permissions : Map (Map (List String))
role_permissions =
    (role_admin, admin_permissions)
    ∷ (role_operator, operator_permissions)
    ∷ (role_viewer, viewer_permissions)
    ∷ []

-- The loop over the actions of a resource.
unfoldable pub allows : List String → String → Bool
allows [] action = false
allows (a ∷ actions) action =
    let rest = allows actions action in if str_eq a action then true else rest

unfoldable pub has_permission : String → String → String → Bool
unfolding allows lookup
has_permission role resource action = elim (lookup role role_permissions) [
  | none ↦ false
  | some resources ↦ elim (lookup resource resources) [
    | none ↦ false
    | some actions ↦ allows actions action
  ]
]

pub record Claims : Type 0 where
  pub sub : String
  pub username : String
  pub role : String
  pub tenant_id : String
  pub exp : ℕ
  pub iat : ℕ

-- What the middleware reads and sets of a `gin.Context`, and the tenant in the request's context.
pub record Context : Type 0 where
  pub authorization : String
  pub claims : Option Claims
  pub user_id : Option String
  pub username : Option String
  pub role : Option String
  pub tenant_id : Option String
  pub request_tenant : Option String

-- A request passes with a context, or is answered with a status.
pub data Reply : Type 0 where
  next : Context → Reply
  abort : ℕ → String → Reply

-- What jwt.go takes from the standard library: JSON of the header and of claims, base64, HMAC of a text
-- under a secret, and `strings.Split(token, ".")`. Bytes are texts here.
pub record Codec : Type 0 where
  pub header_json : String
  pub marshal : Claims → String
  pub unmarshal : String → Option Claims
  pub encode : String → String
  pub decode : String → Option String
  pub hmac : String → String → String
  pub split_dots : String → List String

pub record JwtManager : Type 0 where
  pub secret : String
  pub expiration : ℕ

pub data TokenError : Type 0 where
  token_malformed token_invalid token_expired : TokenError

abbrev pub dotted : String → String → String
dotted first second = first ++ ("." ++ second)

abbrev pub new_claims : JwtManager → ℕ → String → String → String → String → Claims
new_claims m now user_id username role tenant_id = record {
  sub = user_id;
  username = username;
  role = role;
  tenant_id = tenant_id;
  exp = now + m.expiration;
  iat = now;
}

-- The token of claims; it would fail where JSON does, which texts and numbers do not make it.
abbrev pub signing_input : Codec → Claims → String
signing_input codec claims =
    dotted (codec.encode codec.header_json) (codec.encode (codec.marshal claims))

unfoldable pub generate_token : Codec → JwtManager → ℕ → String → String → String → String → String
generate_token codec m now user_id username role tenant_id =
    let input = signing_input codec (new_claims m now user_id username role tenant_id) in
    dotted input (codec.encode (codec.hmac m.secret input))

-- The three parts of a token.
unfoldable pub three_parts : List String → Option (String × String × String)
three_parts [] = none
three_parts (a ∷ []) = none
three_parts (a ∷ b ∷ []) = none
three_parts (a ∷ b ∷ c ∷ []) = some (a, b, c)
three_parts (a ∷ b ∷ c ∷ d ∷ more) = none

unfoldable pub read_claims : Codec → ℕ → String → TokenError ⊎ Claims
read_claims codec now payload = elim (codec.decode payload) [
  | none ↦ inl token_malformed
  | some json ↦ elim (codec.unmarshal json) [
    | none ↦ inl token_malformed
    | some claims ↦ if ltb claims.exp now then inl token_expired else inr claims
  ]
]

unfoldable pub validate_token : Codec → JwtManager → ℕ → String → TokenError ⊎ Claims
unfolding three_parts read_claims
validate_token codec m now token = elim (three_parts (codec.split_dots token)) [
  | none ↦ inl token_malformed
  | some (header, payload, signature) ↦ elim (codec.decode signature) [
    | none ↦ inl token_malformed
    | some mac ↦
        if str_eq mac (codec.hmac m.secret (dotted header payload))
        then read_claims codec now payload
        else inl token_invalid
  ]
]

abbrev pub bearer : String
bearer = "Bearer "

-- `strings.TrimPrefix(header, "Bearer ")`
unfoldable pub trim_bearer : String → String
trim_bearer header =
    if starts_with header bearer then slice header (len bearer) (len header) else header

abbrev pub error_text : TokenError → String
error_text token_malformed = "malformed token"
error_text token_invalid = "invalid token"
error_text token_expired = "token expired"

unfoldable pub auth_middleware : Codec → JwtManager → ℕ → Context → Reply
auth_middleware codec m now c =
    let token = trim_bearer c.authorization in
    if str_eq c.authorization ""
    then abort 401 "missing authorization header"
    else if str_eq token c.authorization
    then abort 401 "invalid authorization format"
    else (elim (validate_token codec m now token) [
      | inl error ↦ abort 401 (error_text error)
      | inr claims ↦ next (record c {
        claims = some claims;
        user_id = some claims.sub;
        username = some claims.username;
        role = some claims.role;
        tenant_id = some claims.tenant_id;
      })
    ])

unfoldable pub isolation_middleware : Context → Reply
isolation_middleware c = elim c.tenant_id [
  | none ↦ abort 403 "tenant context required"
  | some id ↦
      if str_eq id ""
      then abort 403 "tenant context required"
      else next (record c { request_tenant = some id })
]

unfoldable pub require_permission : String → String → Context → Reply
unfolding has_permission
require_permission resource action c = elim c.role [
  | none ↦ abort 403 "no role found"
  | some role ↦
      if has_permission role resource action then next c else abort 403 "insufficient permissions"
]

-- `TenantIDFromContext`
unfoldable pub tenant_id_from_context : Context → String
tenant_id_from_context c = elim c.request_tenant [ none ↦ "" | some id ↦ id ]
