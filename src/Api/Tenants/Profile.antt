-- ===== src/Api/Tenants/Profile.antt =====
-- A profile that was put is the one that its tenant gets.
use ai_lead_qualifier.Prelude.{
  ℕ, some, if◌then◌else◌, String, true, false, ◌≡◌, refl, sym, ◌∙◌, ap, str_eq, eq_iff, arith,
  Bool-cases, inl, inr,
}
use ai_lead_qualifier.Float.{Float}
use ai_lead_qualifier.Core.Text.{is_empty_text}
use ai_lead_qualifier.Core.Json.Lookups.{lookup-insert, lookup-insert_self}
use ai_lead_qualifier.Core.Json.{Json, text, Dict, lookup, insert}
use ai_lead_qualifier.Core.Exceptions.{ok, Answer-cases}
use ai_lead_qualifier.Core.Config.{Settings}
use ai_lead_qualifier.Database.Profiles.{Profiles, Jsonb, JsonbLaws}
use ai_lead_qualifier.Services.Storage.{keep_safe}
use ai_lead_qualifier.Api.Tenants.{
  TenantProfile, Coercion, CoercionLaws, is_valid_profile, tenant_profile, model_dump,
  get_tenant_profile, put_tenant_profile, store_profile, check_profile,
}

module _ {W : Type 0} ⦃fl : Float W⦄ (coercion : Coercion W) where
  -- Reading a profile looks its fields up, and does nothing else with the dict.
  tenant_profile_ext :
      (d e : Dict (Json W))
      → ((k : String) → lookup k d ≡ lookup k e)
      → tenant_profile coercion d ≡ tenant_profile coercion e
  unfolding tenant_profile
  tenant_profile_ext d e h =
      rw
        (
          h "tenant_id",
          h "company_name",
          h "vat_number",
          h "tax_code",
          h "address",
          h "sender_name",
          h "iban",
          h "payment_terms",
          h "notes",
          h "vat_enabled",
          h "vat_rate",
          h "validity_days",
          h "logo_data_url",
        )
        refl

  check_profile_lem :
      (profile : TenantProfile W)
      → is_valid_profile profile ≡ true
      → check_profile profile ≡ ok profile
  unfolding check_profile
  check_profile_lem profile h = rw h refl

  tenant_profile-model_dump :
      CoercionLaws W coercion
      → (profile : TenantProfile W) → is_valid_profile profile ≡ true
      → tenant_profile coercion (model_dump profile) ≡ ok profile
  unfolding tenant_profile model_dump lookup
  tenant_profile-model_dump laws profile h =
      rw
        (
          laws.text_lem profile.tenant_id,
          laws.text_lem profile.company_name,
          laws.text_lem profile.vat_number,
          laws.text_lem profile.tax_code,
          laws.text_lem profile.address,
          laws.text_lem profile.sender_name,
          laws.text_lem profile.iban,
          laws.text_lem profile.payment_terms,
          laws.text_lem profile.notes,
          laws.bool_lem profile.vat_enabled,
          laws.float_lem profile.vat_rate,
          laws.int_lem profile.validity_days,
          laws.text_lem profile.logo_data_url,
        )
        (check_profile_lem profile h)

  module _ (jsonb : Jsonb W) (column : JsonbLaws W jsonb) (settings : Settings W)
      (size : Dict (Json W) → ℕ) (laws : CoercionLaws W coercion) where
    store_profile_lem :
        (body body' : TenantProfile W) (before after : Profiles W)
        → store_profile settings jsonb size body before ≡ ok (body', after)
        → (body' ≡ body)
          × ((stored : Dict (Json W)) × (jsonb.convert (model_dump body) ≡ ok stored)
              × (after ≡ insert body.tenant_id stored before))
    unfolding store_profile
    store_profile_lem body body' before after h =
        elim (Answer-cases (jsonb.convert (model_dump body))) [
          | inr (x, e) ↦ absurd (ground arith)
          | inl (stored, e) ↦ (ground arith, (stored, e, ground arith))
        ]

    put_tenant_profile_lem :
        (tenant_id jwt_tenant : String) (body body' : TenantProfile W) (before after : Profiles W)
        → put_tenant_profile settings jsonb size tenant_id body jwt_tenant before
          ≡ ok (body', after)
        → (jwt_tenant ≡ tenant_id)
          × (is_empty_text (keep_safe tenant_id) ≡ false)
          × (body' ≡ record body { tenant_id = keep_safe tenant_id })
          × ((stored : Dict (Json W)) × (jsonb.convert
                  (model_dump (record body { tenant_id = keep_safe tenant_id }))
                ≡ ok stored)
              × (after ≡ insert (keep_safe tenant_id) stored before))
    unfolding put_tenant_profile
    put_tenant_profile_lem tenant_id jwt_tenant body body' before after h =
        let safe = keep_safe tenant_id in
        let same : str_eq jwt_tenant tenant_id ≡ true = ground arith in
        let named : is_empty_text safe ≡ false = ground arith in
        let (kept, written) =
          store_profile_lem (record body { tenant_id = safe }) body' before after (ground arith) in
        ((eq_iff jwt_tenant tenant_id).0 same, named, kept, written)

    stored_fields :
        (safe : String) (profile : TenantProfile W) (stored : Dict (Json W))
        → profile.tenant_id ≡ safe
        → jsonb.convert (model_dump profile) ≡ ok stored
        → (k : String)
        → lookup k (insert "tenant_id" (text safe) stored) ≡ lookup k (model_dump profile)
    unfolding model_dump lookup
    stored_fields safe profile stored t c k =
        lookup-insert "tenant_id" k (text safe) stored
        ∙ ap (λ o. if str_eq "tenant_id" k then some (text safe) else o)
            (column.lookup-convert (model_dump profile) stored k c)
        ∙ ground arith

    put_get :
        (tenant_id : String) (profile : TenantProfile W) (stored : Dict (Json W))
        (before : Profiles W)
        → is_empty_text (keep_safe tenant_id) ≡ false
        → is_valid_profile profile ≡ true
        → profile.tenant_id ≡ keep_safe tenant_id
        → jsonb.convert (model_dump profile) ≡ ok stored
        → get_tenant_profile coercion
            (ok tt)
            tenant_id
            tenant_id
            (insert (keep_safe tenant_id) stored before)
          ≡ ok profile
    unfolding get_tenant_profile
    put_get tenant_id profile stored before e v t c =
        let safe = keep_safe tenant_id in
        let fields : (k : String)
            → lookup k (insert "tenant_id" (text safe) stored) ≡ lookup k (model_dump profile) =
          stored_fields safe profile stored t c in
        rw ((eq_iff tenant_id tenant_id).1 refl, e)
          (rw (lookup-insert_self safe stored before) (
            tenant_profile_ext (insert "tenant_id" (text safe) stored) (model_dump profile) fields
            ∙ tenant_profile-model_dump laws profile v))

    -- Writing a profile changes nothing for a tenant with another safe name.
    get_other :
        (u safe : String) (stored : Dict (Json W)) (before : Profiles W)
        → str_eq safe (keep_safe u) ≡ false
        → get_tenant_profile coercion (ok tt) u u (insert safe stored before)
          ≡ get_tenant_profile coercion (ok tt) u u before
    unfolding get_tenant_profile
    get_other u safe stored before differ = elim (Bool-cases (is_empty_text (keep_safe u))) [
      | inl e ↦ rw ((eq_iff u u).1 refl, e) refl
      | inr e ↦
          rw ((eq_iff u u).1 refl, e)
            (rw (lookup-insert safe (keep_safe u) stored before, differ) refl)
    ]

    get_written :
        (u safe : String) (profile : TenantProfile W) (stored : Dict (Json W)) (before : Profiles W)
        → is_empty_text safe ≡ false
        → is_valid_profile profile ≡ true
        → profile.tenant_id ≡ safe
        → jsonb.convert (model_dump profile) ≡ ok stored
        → get_tenant_profile coercion (ok tt) u u (insert safe stored before) ≡ (
            if str_eq safe (keep_safe u)
            then ok profile
            else get_tenant_profile coercion (ok tt) u u before)
    get_written u safe profile stored before e v t c =
        elim (Bool-cases (str_eq safe (keep_safe u))) [
          | inl same ↦
              let p : safe ≡ keep_safe u = (eq_iff safe (keep_safe u)).0 same in
              rw same (
                ap (λ s. get_tenant_profile coercion (ok tt) u u (insert s stored before)) p
                ∙ put_get u profile stored before (ap is_empty_text (sym p) ∙ e) v (t ∙ p) c)
          | inr differ ↦ rw differ (get_other u safe stored before differ)
        ]

    is_valid_profile-renamed :
        (body : TenantProfile W) (safe : String)
        → is_valid_profile (record body { tenant_id = safe }) ≡ is_valid_profile body
    unfolding is_valid_profile
    is_valid_profile-renamed body safe = refl

    -- By the laws of the JSONB column and of Pydantic, on a body within the bounds of its fields: a
    -- profile that was put, by the tenant itself, comes back with the id reduced to its safe
    -- characters, and every tenant whose id reduces to the same gets it from then on; the others get
    -- what they got before.
    pub get_tenant_profile-put_tenant_profile :
        (tenant_id jwt_tenant u : String) (body body' : TenantProfile W) (before after : Profiles W)
        → is_valid_profile body ≡ true
        → put_tenant_profile settings jsonb size tenant_id body jwt_tenant before
          ≡ ok (body', after)
        → (jwt_tenant ≡ tenant_id)
          × (body' ≡ record body { tenant_id = keep_safe tenant_id })
          × (get_tenant_profile coercion (ok tt) u u after ≡ (
              if str_eq (keep_safe tenant_id) (keep_safe u)
              then ok body'
              else get_tenant_profile coercion (ok tt) u u before))
    get_tenant_profile-put_tenant_profile tenant_id jwt_tenant u body body' before after v h =
        let (caller, named, kept, (stored, c, written)) =
          put_tenant_profile_lem tenant_id jwt_tenant body body' before after h in
        let safe = keep_safe tenant_id in
        let profile = record body { tenant_id = safe } in
        (
          caller,
          kept,
          ap (λ a. get_tenant_profile coercion (ok tt) u u a) written
              ∙ get_written u safe profile stored before named
                  (is_valid_profile-renamed body safe ∙ v) refl c
              ∙ ap
                  (λ p.
                    if str_eq safe (keep_safe u)
                    then ok p
                    else get_tenant_profile coercion (ok tt) u u before)
                  (sym kept),
        )
