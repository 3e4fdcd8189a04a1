-- ===== src/Api/Auth.antt =====
-- backend/api/dependencies.py and `get_token` of backend/api/routes.py: the tokens. The library that
-- signs and checks them is a parameter, and so are the key files and the clock.
pub mod Tokens
use ai_lead_qualifier.Prelude.{
  ℕ, ◌+◌, ◌<◌, ◌≤◌, String, Bool, Option, none, some, ◌≡◌, not, if◌then◌else◌, [], ◌∷◌,
}
use ai_lead_qualifier.Core.Text.{f_string, is_empty_text}
use ai_lead_qualifier.Core.Exceptions.{
  Answer, ok, raised, Exc, Kind, file_not_found_error, runtime_error, expired_signature_error,
  jwt_error, validation_error, http_error, ◌>>=◌,
}
use ai_lead_qualifier.Core.Config.{Settings}

-- The claims of a token; the times are in seconds.
pub record Claims : Type 0 where
  pub sub : Option String
  pub iat : ℕ
  pub exp : ℕ

-- `jwt.encode(payload, key, "RS256")`, and `jwt.decode(token, key, ["RS256"])` at a time.
pub record Jwt : Type 0 where
  pub encode : Claims → String → Answer String
  pub decode : String → String → ℕ → Answer Claims

-- A token that was signed with the private key of a pair is valid from `iat` until before `exp`, and
-- expired from then on.
pub record JwtLaws (jwt : Jwt) (private_key public_key : String) : Type 0 where
  pub decode-encode :
      (claims : Claims) (token : String) (now : ℕ)
      → jwt.encode claims private_key ≡ ok token
      → claims.iat ≤ now
      → now < claims.exp
      → jwt.decode token public_key now ≡ ok claims
  pub decode_expired :
      (claims : Claims) (token : String) (now : ℕ)
      → jwt.encode claims private_key ≡ ok token
      → claims.exp ≤ now
      → (e : Exc) × (e.kind ≡ expired_signature_error)
        × (jwt.decode token public_key now ≡ raised e)

-- `except FileNotFoundError`, with the message for the key.
missing_key : String → Exc → Answer String
missing_key message e = elim e.kind [
  | file_not_found_error ↦ raised (record { kind = runtime_error; message = message })
  | _ ↦ raised e
]

pub load_public_key : String → Answer String → Answer String
unfolding missing_key
load_public_key path (ok key) = ok key
load_public_key path (raised e) =
    missing_key
      (f_string (
        "JWT public key not found at '" ∷ path
        ∷ "'. Generate keys with: openssl genrsa -out keys/private.pem 2048 && openssl rsa -in keys/private.pem -pubout -out keys/public.pem"
        ∷ []))
      e

pub load_private_key : String → Answer String → Answer String
unfolding missing_key
load_private_key path (ok key) = ok key
load_private_key path (raised e) =
    missing_key
      (f_string (
        "JWT private key not found at '" ∷ path
        ∷ "'. Used only by the /token mock endpoint (dev/test)." ∷ []))
      e

-- `except jwt.ExpiredSignatureError` and `except jwt.PyJWTError`
pub refuse_token : Exc → Exc
refuse_token e = elim e.kind [
  | expired_signature_error ↦ http_error 401 "Token JWT scaduto."
  | jwt_error ↦ http_error 401 "Token JWT non valido o scaduto."
  | _ ↦ e
]

tenant_of : Option String → Answer String
tenant_of none = raised (http_error 401 "Token JWT privo del claim 'sub' (tenant_id).")
tenant_of (some tenant_id) =
    if is_empty_text tenant_id
    then raised (http_error 401 "Token JWT privo del claim 'sub' (tenant_id).")
    else ok tenant_id

check_payload : Answer Claims → Answer String
unfolding tenant_of refuse_token
check_payload (ok claims) = tenant_of claims.sub
check_payload (raised e) = raised (refuse_token e)

-- The public key's path and what reading it gives, the token, and the time. The load stands in the
-- `try` too, and its RuntimeError passes both `except` clauses.
unfoldable pub get_current_tenant_id : Jwt → String → Answer String → String → ℕ → Answer String
unfolding check_payload load_public_key
get_current_tenant_id jwt path file credentials now =
    check_payload (load_public_key path file >>= λ key. jwt.decode credentials key now)

unfoldable pub create_access_token : Jwt → String → Answer String → String → ℕ → ℕ → Answer String
unfolding load_private_key
create_access_token jwt path file tenant_id expires_delta_seconds now = do
  key ← load_private_key path file
  jwt.encode (record { sub = some tenant_id; iat = now; exp = now + expires_delta_seconds }) key

-- The request's `username` has at least one character.
unfoldable pub get_token :
    {W : Type 0} → Settings W → Jwt → String → Answer String → String → ℕ → Answer String
unfolding create_access_token
get_token settings jwt path file username now =
    if is_empty_text username
    then raised (record { kind = validation_error; message = "username" })
    else if not settings.token_endpoint_enabled
    then raised (http_error 404 "Not found.")
    else create_access_token jwt path file username 3600 now
