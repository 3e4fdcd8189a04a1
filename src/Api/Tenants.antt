-- ===== src/Api/Tenants.antt =====
-- backend/api/routes.py: the profile of a tenant, and the deletion of its catalogue.
pub mod Profile
pub mod Wiping
use ai_lead_qualifier.Prelude.{
  ℕ, ◌<◌, ◌≡◌, String, Bool, true, false, Option, none, some, [], ◌∷◌, ◌&&◌, ◌||◌, not, ltb, leb,
  str_eq, starts_with, if◌then◌else◌,
}
use ai_lead_qualifier.Float.{Float}
use ai_lead_qualifier.Core.Text.{f_string, is_empty_text, show}
use ai_lead_qualifier.Core.Json.{Json, boolean, number, text, Dict, lookup, insert}
use ai_lead_qualifier.Core.Exceptions.{Answer, ok, raised, Exc, validation_error, http_error, ◌>>=◌}
use ai_lead_qualifier.Core.Config.{Settings}
use ai_lead_qualifier.Services.Storage.{keep_safe}
use ai_lead_qualifier.Database.Catalogue.{Table, wipe_tenant}
use ai_lead_qualifier.Database.Profiles.{Profiles, Jsonb, get_profile, upsert_profile}

pub record TenantProfile (W : Type 0) : Type 0 where
  pub tenant_id : String
  pub company_name : String
  pub vat_number : String
  pub tax_code : String
  pub address : String
  pub sender_name : String
  pub iban : String
  pub payment_terms : String
  pub notes : String
  pub vat_enabled : Bool
  pub vat_rate : W
  pub validity_days : ℕ
  pub logo_data_url : String

pub record WipeTenantResponse : Type 0 where
  pub tenant_id : String
  pub rows_deleted : ℕ
  pub message : String

-- How Pydantic reads a value for a field of a type; it takes a value of the type itself as it is.
pub record Coercion (W : Type 0) : Type 0 where
  pub as_text : Json W → Answer String
  pub as_bool : Json W → Answer Bool
  pub as_float : Json W → Answer W
  pub as_int : Json W → Answer ℕ

pub record CoercionLaws (W : Type 0) ⦃fl : Float W⦄ (coercion : Coercion W) : Type 0 where
  pub text_lem : (s : String) → coercion.as_text (text s) ≡ ok s
  pub bool_lem : (b : Bool) → coercion.as_bool (boolean b) ≡ ok b
  pub float_lem : (x : W) → coercion.as_float (number x) ≡ ok x
  pub int_lem : (n : ℕ) → coercion.as_int (number (fl.of_nat n)) ≡ ok n

-- A field that is given is read, and has its default otherwise.
abbrev pub field : {W A : Type 0} → (Json W → Answer A) → A → Option (Json W) → Answer A
field read default none = ok default
field read default (some v) = read v

-- The pattern of `re.sub` is that of the object keys.
unfoldable pub safe_tenant_dirname : String → Answer String
unfolding keep_safe
safe_tenant_dirname tenant_id =
    if is_empty_text (keep_safe tenant_id)
    then raised (http_error 400 "tenant_id non valido.")
    else ok (keep_safe tenant_id)

module _ {W : Type 0} ⦃fl : Float W⦄ where
  -- The bounds that `Field` declares: `literal 22` is the default 0.22.
  unfoldable pub is_valid_profile : TenantProfile W → Bool
  is_valid_profile profile =
      fl.le (fl.literal 0) profile.vat_rate
      && fl.le profile.vat_rate (fl.literal 100)
      && ltb 0 profile.validity_days
      && leb profile.validity_days 3650

  check_profile : TenantProfile W → Answer (TenantProfile W)
  unfolding is_valid_profile
  check_profile profile =
      if is_valid_profile profile
      then ok profile
      else raised (record { kind = validation_error; message = "TenantProfile" })

  -- `TenantProfile(**data)`
  unfoldable pub tenant_profile : Coercion W → Dict (Json W) → Answer (TenantProfile W)
  unfolding check_profile lookup
  tenant_profile coercion stored = do
    tenant_id ← field coercion.as_text "" (lookup "tenant_id" stored)
    company_name ← field coercion.as_text "" (lookup "company_name" stored)
    vat_number ← field coercion.as_text "" (lookup "vat_number" stored)
    tax_code ← field coercion.as_text "" (lookup "tax_code" stored)
    address ← field coercion.as_text "" (lookup "address" stored)
    sender_name ← field coercion.as_text "" (lookup "sender_name" stored)
    iban ← field coercion.as_text "" (lookup "iban" stored)
    payment_terms ← field coercion.as_text "" (lookup "payment_terms" stored)
    notes ← field coercion.as_text "" (lookup "notes" stored)
    vat_enabled ← field coercion.as_bool true (lookup "vat_enabled" stored)
    vat_rate ← field coercion.as_float (fl.literal 22) (lookup "vat_rate" stored)
    validity_days ← field coercion.as_int 30 (lookup "validity_days" stored)
    logo_data_url ← field coercion.as_text "" (lookup "logo_data_url" stored)
    check_profile (record {
      tenant_id = tenant_id;
      company_name = company_name;
      vat_number = vat_number;
      tax_code = tax_code;
      address = address;
      sender_name = sender_name;
      iban = iban;
      payment_terms = payment_terms;
      notes = notes;
      vat_enabled = vat_enabled;
      vat_rate = vat_rate;
      validity_days = validity_days;
      logo_data_url = logo_data_url;
    })

  -- `profile.model_dump()`
  unfoldable pub model_dump : TenantProfile W → Dict (Json W)
  model_dump profile =
      ("tenant_id", text profile.tenant_id)
      ∷ ("company_name", text profile.company_name)
      ∷ ("vat_number", text profile.vat_number)
      ∷ ("tax_code", text profile.tax_code)
      ∷ ("address", text profile.address)
      ∷ ("sender_name", text profile.sender_name)
      ∷ ("iban", text profile.iban)
      ∷ ("payment_terms", text profile.payment_terms)
      ∷ ("notes", text profile.notes)
      ∷ ("vat_enabled", boolean profile.vat_enabled)
      ∷ ("vat_rate", number profile.vat_rate)
      ∷ ("validity_days", number (fl.of_nat profile.validity_days))
      ∷ ("logo_data_url", text profile.logo_data_url)
      ∷ []

  -- `TenantProfile(tenant_id=safe)` where there is no profile.
  read_profile : Coercion W → String → Option (Dict (Json W)) → Answer (TenantProfile W)
  unfolding tenant_profile insert
  read_profile coercion safe none = tenant_profile coercion (("tenant_id", text safe) ∷ [])
  read_profile coercion safe (some stored) =
      tenant_profile coercion (insert "tenant_id" (text safe) stored)

  -- `query` is what the database raises, if it does.
  unfoldable pub get_tenant_profile :
      Coercion W → Answer (Unit {0}) → String → String → Profiles W → Answer (TenantProfile W)
  unfolding read_profile get_profile safe_tenant_dirname
  get_tenant_profile coercion query tenant_id jwt_tenant profiles =
      if not (str_eq jwt_tenant tenant_id)
      then raised (http_error 403 "Accesso negato.")
      else safe_tenant_dirname tenant_id >>= λ safe. elim query [
        | raised e ↦ raised (http_error 500 "Errore lettura profilo.")
        | ok done ↦ read_profile coercion safe (get_profile safe profiles)
      ]

  after_upsert : TenantProfile W → Answer (Profiles W) → Answer (TenantProfile W × Profiles W)
  after_upsert body (ok profiles) = ok (body, profiles)
  after_upsert body (raised e) = raised (http_error 500 "Impossibile salvare il profilo.")

  -- On a body whose `tenant_id` is the safe name; `size` is that of the dumped dict in UTF-8.
  store_profile :
      Settings W
      → Jsonb W
      → (Dict (Json W) → ℕ)
      → TenantProfile W
      → Profiles W
      → Answer (TenantProfile W × Profiles W)
  unfolding after_upsert model_dump upsert_profile
  store_profile settings jsonb size body profiles =
      if not (is_empty_text body.logo_data_url)
        && not (starts_with body.logo_data_url "data:image/")
      then raised (http_error 400 "logo_data_url deve essere un data URL immagine.")
      else if ltb settings.profile_max_bytes (size (model_dump body))
      then raised (http_error 413 "Profilo troppo grande.")
      else after_upsert body (upsert_profile jsonb body.tenant_id (model_dump body) profiles)

  -- The body is one that Pydantic read. The response, and the table after the call.
  unfoldable pub put_tenant_profile :
      Settings W
      → Jsonb W
      → (Dict (Json W) → ℕ)
      → String
      → TenantProfile W
      → String
      → Profiles W
      → Answer (TenantProfile W × Profiles W)
  unfolding store_profile safe_tenant_dirname
  put_tenant_profile settings jsonb size tenant_id body jwt_tenant profiles =
      if not (str_eq jwt_tenant tenant_id)
      then raised (http_error 403 "Accesso negato.")
      else safe_tenant_dirname tenant_id >>= λ safe.
          store_profile settings jsonb size (record body { tenant_id = safe }) profiles

module _ {W : Type 0} where
  -- `commit` is the database's answer to the deletion.
  unfoldable pub wipe_tenant_vector_data :
      Answer (Unit {0}) → String → Bool → String → Table W → Answer (WipeTenantResponse × Table W)
  unfolding wipe_tenant
  wipe_tenant_vector_data commit tenant_id confirm_wipe jwt_tenant table =
      if not (str_eq jwt_tenant tenant_id)
      then raised (http_error 403 "Accesso negato.")
      else if not confirm_wipe
      then raised (http_error 400 "confirm_wipe deve essere true per procedere.")
      else elim commit [
        | raised e ↦ raised (http_error 500 "Errore durante il wipe.")
        | ok done ↦
            let (table', rows_deleted) = wipe_tenant tenant_id table in
            ok (
              record {
                tenant_id = tenant_id;
                rows_deleted = rows_deleted;
                message = f_string (
                    "Eliminati "
                    ∷ show rows_deleted
                    ∷ " item vettoriali per il tenant '"
                    ∷ tenant_id
                    ∷ "'."
                    ∷ []);
              },
              table',
            )
      ]
