-- ===== src/Tests/Requests.antt =====
-- A request of an operator of a tenant.
use opc_platform.Prelude.{
  ltb, String, true, false, not, ◌&&◌, ◌≡◌, refl, ◌⊎◌, none, some, [], ◌∷◌, if◌then◌else◌, lookup,
}
use opc_platform.Auth.{
  Context, Codec, JwtManager, next, abort, new_claims, generate_token, three_parts, read_claims,
  validate_token, trim_bearer, role_admin, role_operator, role_viewer, allows, has_permission,
  auth_middleware,
}
use opc_platform.Auth.Requests.{has_permission-roles}
use opc_platform.Auth.Tokens.{auth_middleware-generate_token}

requests : Unit {0}
unfolding lookup allows has_permission generate_token three_parts read_claims validate_token
    trim_bearer auth_middleware
requests = tt

operators_write : has_permission role_operator "tasks" "write" ≡ true
unfolding requests
operators_write = refl

operators_keep_tenants : has_permission role_operator "tenants" "read" ≡ false
unfolding requests
operators_keep_tenants = refl

has_permission-roles_example :
    ((has_permission role_viewer "tasks" "write"
        && not (has_permission role_operator "tasks" "write"))
      ≡ false)
    × ((has_permission role_operator "tasks" "write"
          && not (has_permission role_admin "tasks" "write"))
        ≡ false)
    × ((has_permission "guest" "tasks" "write" ≡ false)
        ⊎ ((◌≡◌ {A = String} "guest" role_admin)
            ⊎ ((◌≡◌ {A = String} "guest" role_operator) ⊎ (◌≡◌ {A = String} "guest" role_viewer))))
has_permission-roles_example = has_permission-roles "guest" "tasks" "write"

abbrev manager : JwtManager
manager = record { secret = "secret"; expiration = 3600 }

-- A library whose only token is of these parts.
abbrev codec : Codec
codec = record {
  header_json = "h";
  marshal = λ c. "c";
  unmarshal = λ t. some (new_claims manager 100 "1" "ann" role_operator "t1");
  encode = λ t. t;
  decode = λ t. some t;
  hmac = λ secret text. "s";
  split_dots = λ token. "h" ∷ "c" ∷ "s" ∷ [];
}

abbrev token : String
unfolding requests
token = generate_token codec manager 100 "1" "ann" role_operator "t1"

token_text : token ≡ "h.c.s"
unfolding requests token
token_text = refl

abbrev request : Context
request = record {
  authorization = "Bearer h.c.s";
  claims = none;
  user_id = none;
  username = none;
  role = none;
  tenant_id = none;
  request_tenant = none;
}

auth_middleware-generate_token_example : auth_middleware codec manager 200 request ≡ (
    if ltb 3700 200
    then abort 401 "token expired"
    else next (record request {
      claims = some (new_claims manager 100 "1" "ann" role_operator "t1");
      user_id = some "1";
      username = some "ann";
      role = some role_operator;
      tenant_id = some "t1";
    }))
unfolding requests
auth_middleware-generate_token_example =
    auth_middleware-generate_token codec manager 100 "1" "ann" role_operator "t1" refl
      (λ text. refl) refl 200 request refl

wrong_scheme :
    auth_middleware codec manager 200 (record request { authorization = "Basic h.c.s" })
    ≡ abort 401 "invalid authorization format"
unfolding requests
wrong_scheme = refl
