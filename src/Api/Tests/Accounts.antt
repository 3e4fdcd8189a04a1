-- ===== src/Api/Tests/Accounts.antt =====
-- Tokens, uploads and profiles of the tenant "acme", with libraries that meet their laws.
use ai_lead_qualifier.Prelude.{
  ℕ, ◌+◌, ◌*◌, ◌/◌, String, Bool, true, false, Option, none, some, [], ◌∷◌, ◌≡◌, refl, sym, ◌∙◌, ap,
  ◌==◌, ◌&&◌, ltb, str_eq, eq_iff, if◌then◌else◌, arith, Option-cases, inl, inr,
}
use ai_lead_qualifier.Float.{Fixed, fixed_float}
use ai_lead_qualifier.Core.Text.{f_string}
use ai_lead_qualifier.Core.Json.{Json, Dict, boolean, number, text, lookup, insert, without}
use ai_lead_qualifier.Core.Json.Lookups.{lookup-insert, lookup-insert_self, lookup-without}
use ai_lead_qualifier.Core.Exceptions.{
  Answer, ok, raised, http_error, client_error, validation_error, ok-injective, jwt_error,
  expired_signature_error,
}
use ai_lead_qualifier.Agents.Fixtures.{settings}
use ai_lead_qualifier.Services.Storage.{S3, S3Laws, is_safe, keep_safe}
use ai_lead_qualifier.Services.Storage.{download_file}
use ai_lead_qualifier.Ingestion.State.{Services, make_initial_state}
use ai_lead_qualifier.Ingestion.Nodes.{reader, chunker_node}
use ai_lead_qualifier.Ingestion.Nodes.Reading.{IsChunked}
use ai_lead_qualifier.Ingestion.Fixtures.{services, row}
use ai_lead_qualifier.Api.Uploads.Reading.{chunker_node-upload_catalogue}
use ai_lead_qualifier.Database.Profiles.{Profiles, Jsonb, JsonbLaws}
use ai_lead_qualifier.Api.Auth.{Claims, Jwt, JwtLaws, get_current_tenant_id, get_token}
use ai_lead_qualifier.Api.Auth.Tokens.{get_current_tenant_id-get_token}
use ai_lead_qualifier.Api.Uploads.{UploadResponse, upload_catalogue}
use ai_lead_qualifier.Api.Uploads.Storing.{IsStored, upload_catalogue-IsStored}
use ai_lead_qualifier.Api.Tenants.{
  TenantProfile, Coercion, CoercionLaws, is_valid_profile, get_tenant_profile, put_tenant_profile,
}
use ai_lead_qualifier.Api.Tenants.Profile.{get_tenant_profile-put_tenant_profile}

abbrev acme : String
acme = "acme"

-- A library that signs one payload.
abbrev known : Claims
known = record { sub = some "acme"; iat = 7; exp = 3607 }

abbrev is_known : Claims → Bool
is_known claims = elim claims.sub [
  | none ↦ false
  | some sub ↦ str_eq sub "acme" && (claims.iat == 7 && claims.exp == 3607)
]

abbrev jwt : Jwt
jwt = record {
  encode = λ claims key.
      if is_known claims
      then ok "token"
      else raised (record { kind = jwt_error; message = "unknown" });
  decode = λ token key now.
      if ltb now 3607
      then ok known
      else raised (record { kind = expired_signature_error; message = "expired" });
}

known_lem :
    (claims : Claims) (token : String) → jwt.encode claims "private" ≡ ok token → claims ≡ known
known_lem claims token h = elim (Option-cases claims.sub) [
  | inl n ↦ absurd (ground arith)
  | inr (sub, p) ↦ ground (arith, eq_iff sub "acme")
]

jwt_laws : JwtLaws jwt "private" "public"
jwt_laws = record {
  decode-encode = λ claims token now h i e.
      let k = known_lem claims token h in ground (arith, k, ap (λ c. c.exp) k);
  decode_expired = λ claims token now h e.
      let k : claims.exp ≡ 3607 = ap (λ c. c.exp) (known_lem claims token h) in
      (record { kind = expired_signature_error; message = "expired" }, refl, ground arith);
}

issued : get_token settings jwt "keys/private.pem" (ok "private") "acme" 7 ≡ ok "token"
unfolding get_token
issued = refl

get_current_tenant_id-get_token_example :
    (settings.token_endpoint_enabled ≡ true)
    × (get_current_tenant_id jwt "keys/public.pem" (ok "public") "token" 9
        ≡ (if ltb 9 (7 + 3600) then ok "acme" else raised (http_error 401 "Token JWT scaduto.")))
get_current_tenant_id-get_token_example =
    get_current_tenant_id-get_token jwt "private" "public" jwt_laws settings "keys/private.pem"
      "keys/public.pem" "acme" "token" 7 9 issued (omega arith)

-- A bucket that is a dict.
abbrev answer : Option String → Answer String
answer none = raised (record { kind = client_error; message = "NoSuchKey" })
answer (some body) = ok body

abbrev get : String → Dict String → Answer String
get k b = answer (lookup k b)

abbrev s3 : S3 (Dict String)
s3 = record {
  put_object = λ k body content_type b. ok (insert k body b);
  get_object = get;
  delete_object = λ k b. ok (without k b);
  generate_presigned_url = λ k expires_in b. ok (f_string ("https://s3/" ∷ k ∷ []));
}

s3_laws : S3Laws (Dict String) s3
s3_laws = record {
  get-put = λ k body content_type b b' h.
      let w : insert k body b ≡ b' = ok-injective h in
      ap (get k) (sym w) ∙ ap answer (lookup-insert_self k body b);
  get-put_other = λ k j body content_type b b' h n.
      let w : insert k body b ≡ b' = ok-injective h in
      let m : str_eq k j ≡ false = ground (arith, eq_iff k j) in
      ap (get j) (sym w)
      ∙ ap answer (lookup-insert k j body b ∙ ap (λ t. if t then some body else lookup j b) m);
  get-delete_other = λ k j b b' h n.
      let w : without k b ≡ b' = ok-injective h in
      let m : str_eq k j ≡ false = ground (arith, eq_iff k j) in
      ap (get j) (sym w)
      ∙ ap answer (lookup-without k j b ∙ ap (λ t. if t then none else lookup j b) m);
}

uploaded :
    (b : Dict String) × (r : UploadResponse) × (upload_catalogue s3 settings
        (λ t. t)
        (some "listino.csv")
        "nome"
        "ac.me"
        "0f"
        []
      ≡ ok (r, b))
unfolding upload_catalogue insert f_string
uploaded = (_, _, refl)

upload_catalogue-IsStored_example :
    IsStored s3 s3_laws settings (λ t. t) (some "listino.csv") "nome" "ac.me" uploaded.1 uploaded.0
unfolding is_safe
upload_catalogue-IsStored_example =
    upload_catalogue-IsStored s3 s3_laws settings (λ t. t) (some "listino.csv") "nome" "ac.me" "0f"
      [] uploaded.0 uploaded.1 refl uploaded.2

abbrev reading : Services Fixed
reading = record services { download_file = λ k. download_file s3 k uploaded.0 }

chunker_node-upload_catalogue_example :
    IsChunked reading settings
      (make_initial_state "ac.me" uploaded.1.object_key "csv" none)
      (row ∷ row ∷ row ∷ [])
      (chunker_node reading settings (make_initial_state "ac.me" uploaded.1.object_key "csv" none))
unfolding is_safe reader uploaded
chunker_node-upload_catalogue_example =
    chunker_node-upload_catalogue s3 s3_laws settings reading (λ t. t) (some "listino.csv") "nome"
      "ac.me" "0f" [] uploaded.0 uploaded.1 none (λ content. ok (row ∷ row ∷ row ∷ []))
      (row ∷ row ∷ row ∷ []) refl (omega arith) uploaded.2 refl refl refl

-- A column that keeps a dict as it is, and values that are of their field's type already.
abbrev jsonb : Jsonb Fixed
jsonb = record { convert = λ d. ok d }

column_laws : JsonbLaws Fixed jsonb
column_laws = record { lookup-convert = λ d d' k h. ap (lookup k) (sym (ok-injective h)) }

abbrev mistyped : {A : Type 0} → Answer A
mistyped = raised (record { kind = validation_error; message = "type" })

abbrev as_text : Json Fixed → Answer String
as_text (text s) = ok s
as_text _ = mistyped

abbrev as_bool : Json Fixed → Answer Bool
as_bool (boolean b) = ok b
as_bool _ = mistyped

abbrev as_float : Json Fixed → Answer Fixed
as_float (number x) = ok x
as_float _ = mistyped

abbrev as_int : Json Fixed → Answer ℕ
as_int (number x) = ok (x / 10000)
as_int _ = mistyped

abbrev coercion : Coercion Fixed
coercion = record { as_text = as_text; as_bool = as_bool; as_float = as_float; as_int = as_int }

coercion_laws : CoercionLaws Fixed coercion
coercion_laws = record {
  text_lem = λ s. refl;
  bool_lem = λ b. refl;
  float_lem = λ x. refl;
  int_lem = λ n. let e : n * 10000 / 10000 ≡ n = omega arith in ap ok e;
}

abbrev profile : TenantProfile Fixed
profile = record {
  tenant_id = "";
  company_name = "Acme Srl";
  vat_number = "";
  tax_code = "";
  address = "";
  sender_name = "";
  iban = "";
  payment_terms = "";
  notes = "";
  vat_enabled = true;
  vat_rate = 2200;
  validity_days = 30;
  logo_data_url = "";
}

put :
    (after : Profiles Fixed) × (put_tenant_profile settings jsonb
        (λ d. 100)
        "acme"
        profile
        "acme"
        []
      ≡ ok (record profile { tenant_id = "acme" }, after))
unfolding put_tenant_profile keep_safe
put = (_, refl)

-- The two ids have the same safe characters.
get_tenant_profile-put_tenant_profile_example :
    (acme ≡ acme)
    × (record profile { tenant_id = "acme" } ≡ record profile { tenant_id = keep_safe "acme" })
    × (get_tenant_profile coercion (ok tt) "ac.me" "ac.me" put.0 ≡ (
        if str_eq (keep_safe "acme") (keep_safe "ac.me")
        then ok (record profile { tenant_id = "acme" })
        else get_tenant_profile coercion (ok tt) "ac.me" "ac.me" []))
unfolding is_valid_profile
get_tenant_profile-put_tenant_profile_example =
    get_tenant_profile-put_tenant_profile coercion jsonb column_laws settings (λ d. 100)
      coercion_laws acme acme "ac.me" profile (record profile { tenant_id = "acme" }) [] put.0 refl
      put.1
