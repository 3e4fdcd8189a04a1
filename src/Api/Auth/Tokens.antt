-- ===== src/Api/Auth/Tokens.antt =====
-- A token that was issued is the tenant's until it expires.
use ai_lead_qualifier.Prelude.{
  ℕ, ◌+◌, ◌≤◌, String, true, false, some, ◌≡◌, refl, inl, inr, ltb, arith, if◌then◌else◌,
  Bool-cases,
}
use ai_lead_qualifier.Core.Exceptions.{ok, raised, http_error}
use ai_lead_qualifier.Core.Text.{is_empty_text}
use ai_lead_qualifier.Core.Config.{Settings}
use ai_lead_qualifier.Api.Auth.{Claims, Jwt, JwtLaws, get_current_tenant_id, get_token}

module _ {W : Type 0} (jwt : Jwt) (private_key public_key : String)
    (laws : JwtLaws jwt private_key public_key) where
  get_token_lem :
      (settings : Settings W) (path username token : String) (now : ℕ)
      → get_token settings jwt path (ok private_key) username now ≡ ok token
      → (is_empty_text username ≡ false)
        × (settings.token_endpoint_enabled ≡ true)
        × (jwt.encode (record { sub = some username; iat = now; exp = now + 3600 }) private_key
            ≡ ok token)
  unfolding get_token
  get_token_lem settings path username token now h = ground arith

  -- By the laws of a pair of keys: a token is issued only where the endpoint is enabled. From then
  -- on it authenticates the user that it was issued for, for 3600 seconds, and afterwards it is
  -- refused with 401.
  pub get_current_tenant_id-get_token :
      (settings : Settings W) (path path' username token : String) (now later : ℕ)
      → get_token settings jwt path (ok private_key) username now ≡ ok token
      → now ≤ later
      → (settings.token_endpoint_enabled ≡ true)
        × (get_current_tenant_id jwt path' (ok public_key) token later ≡ (
            if ltb later (now + 3600)
            then ok username
            else raised (http_error 401 "Token JWT scaduto.")))
  unfolding get_current_tenant_id
  get_current_tenant_id-get_token settings path path' username token now later h after =
      let (named, enabled, signed) = get_token_lem settings path username token now h in
      let claims : Claims = record { sub = some username; iat = now; exp = now + 3600 } in
      elim (Bool-cases (ltb later (now + 3600))) [
        | inl valid ↦ rw valid (
          enabled,
          rw (laws.decode-encode claims token later signed after (ground arith)) (rw named refl),
        )
        | inr expired ↦
            let (e, k, d) = laws.decode_expired claims token later signed (ground arith) in
            rw expired (enabled, rw d (rw k refl))
      ]
