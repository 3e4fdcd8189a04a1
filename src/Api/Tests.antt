-- ===== src/Api/Tests.antt =====
-- The routes on concrete requests of the tenant "acme".
mod Accounts
mod Runs
use ai_lead_qualifier.Prelude.{
  Permᴰ, perm_refl, ℕ, ◌+◌, String, Bool, true, false, Option, none, some, List, [], ◌∷◌, ◌≡◌, ◌≢◌,
  refl, ◌⊎◌, inl, inr, length, ltb, str_eq, if◌then◌else◌, arith, map,
}
use ai_lead_qualifier.Float.{Fixed, fixed_float}
use ai_lead_qualifier.Core.Text.{f_string, show, is_empty_text}
use ai_lead_qualifier.Core.Json.{Json, Dict, null, boolean, number, text, lookup, insert}
use ai_lead_qualifier.Core.Exceptions.{Answer, ok, raised, http_error, validation_error}
use ai_lead_qualifier.Agents.Fixtures.{settings}
use ai_lead_qualifier.Ingestion.Items.{PriceType, fixed, variable}
use ai_lead_qualifier.Database.Catalogue.{Row, Table, wipe_tenant}
use ai_lead_qualifier.Database.Catalogue.Isolation.{others, own}
use ai_lead_qualifier.Api.Catalogue.{
  StoredRow, Store, CatalogueItemPatch, chk_hybrid_pricing_logic, CatalogueItemPatchResponse,
  AuditRow, fetch_item,
}
use ai_lead_qualifier.Api.Catalogue.Constraints
use ai_lead_qualifier.Api.Catalogue.Constraints.{is_priced, IsTable}
use ai_lead_qualifier.Api.Catalogue.Editing.{Calls, patch_catalogue_item}
use ai_lead_qualifier.Api.Catalogue.Editing.Pricing.{patch_catalogue_item-IsTable}
use ai_lead_qualifier.Api.Catalogue.Editing.Failures.{patch_catalogue_item_raised}
use ai_lead_qualifier.Api.Catalogue.Editing.Answers.{IsEdited, patch_catalogue_item-IsEdited}
use ai_lead_qualifier.Api.Catalogue.Listing.{to_item_response}
use ai_lead_qualifier.Api.Catalogue.Listing.Pages.{collect, collect_all}
use ai_lead_qualifier.Api.Tenants.{WipeTenantResponse, wipe_tenant_vector_data}
use ai_lead_qualifier.Api.Tenants.Wiping.{wipe_tenant_vector_data_ok}

abbrev logo : StoredRow Fixed
logo = record {
  id = "1";
  row = record {
    tenant_id = "acme";
    service = "Logo";
    price = some 500000;
    price_type = "FIXED";
    description = "";
    embedding = [];
    metadata = [];
  };
}

abbrev foreign : StoredRow Fixed
foreign = record {
  id = "2";
  row = record {
    tenant_id = "other";
    service = "Logo";
    price = none;
    price_type = "VARIABLE";
    description = "";
    embedding = [];
    metadata = [];
  };
}

abbrev store : Store Fixed
store = record { items = logo ∷ foreign ∷ []; audit_log = []; jobs = [] }

store-IsTable : IsTable store.items
unfolding is_priced
store-IsTable = record {
  ids = (refl, (refl, tt));
  keys = (refl, (refl, tt));
  priced = (refl, (refl, tt));
}

abbrev calls : Calls
calls = record { parse_uuid = λ id. ok id; commit = ok tt; enqueue_job = ok tt }

abbrev on_request : CatalogueItemPatch Fixed
on_request = record {
  service = some "Logo";
  price = none;
  price_type = some variable;
  description = some "Su misura";
}

patch_catalogue_item-IsTable_example :
    IsTable (patch_catalogue_item show calls "1" on_request "acme" store.items store).0.items
    × (Constraints.others "acme"
          (patch_catalogue_item show calls "1" on_request "acme" store.items store).0.items
        ≡ Constraints.others "acme" store.items)
patch_catalogue_item-IsTable_example =
    patch_catalogue_item-IsTable show calls "1" "acme" on_request store.items store store-IsTable

patched :
    (s : Store Fixed) × (r : CatalogueItemPatchResponse Fixed) × (patch_catalogue_item show calls
        "1" on_request "acme" store.items store
      ≡ (s, ok r))
unfolding patch_catalogue_item fetch_item chk_hybrid_pricing_logic
patched = (_, _, refl)

-- The name is the same, and has no row.
patched_log :
    map {B = String × String} (λ a. (a.field_changed, a.new_value)) patched.0.audit_log
    ≡ ("price_type", "PriceType.VARIABLE") ∷ ("description", "Su misura") ∷ ("price", "None") ∷ []
unfolding patched patch_catalogue_item f_string show
patched_log = refl

patch_catalogue_item-IsEdited_example :
    IsEdited show calls "1" "acme" on_request store patched.0 patched.1
patch_catalogue_item-IsEdited_example =
    patch_catalogue_item-IsEdited show calls "1" "acme" on_request store patched.0 patched.1
      patched.2

abbrev free_of_charge : CatalogueItemPatch Fixed
free_of_charge = record {
  service = none;
  price = none;
  price_type = some fixed;
  description = none;
}

-- The other tenant's service has no price to fix.
refused :
    patch_catalogue_item show calls "2" free_of_charge "other" store.items store
    ≡ (store, raised (http_error 422 "Combinazione price / price_type non valida."))
unfolding patch_catalogue_item fetch_item chk_hybrid_pricing_logic
refused = refl

patch_catalogue_item_raised_example :
    (store ≡ store)
    ⊎ (calls.enqueue_job ≡ raised (http_error 422 "Combinazione price / price_type non valida."))
patch_catalogue_item_raised_example =
    patch_catalogue_item_raised show calls "2" "other" free_of_charge store.items store store
      (http_error 422 "Combinazione price / price_type non valida.") refused

collect_all_example :
    Permᴰ (collect (λ rows. rows) 2 0 20 "acme" store.items) (map to_item_response (logo ∷ []))
    × (collect (λ rows. rows) 2 0 20 "acme" store.items ≡ map to_item_response (logo ∷ []))
collect_all_example = collect_all (λ rows. rows) perm_refl 20 "acme" store.items refl

abbrev table : Table Fixed
table = logo.row ∷ foreign.row ∷ []

abbrev acme : String
acme = "acme"

abbrev wiped : WipeTenantResponse
wiped = record {
  tenant_id = "acme";
  rows_deleted = 1;
  message = "Eliminati 1 item vettoriali per il tenant 'acme'.";
}

wipes : wipe_tenant_vector_data (ok tt) "acme" true "acme" table ≡ ok (wiped, foreign.row ∷ [])
unfolding wipe_tenant_vector_data f_string show
wipes = refl

wipe_tenant_vector_data_ok_example :
    (acme ≡ acme)
    × (true ≡ true)
    × (foreign.row ∷ [] ≡ others "acme" table)
    × (wiped.rows_deleted ≡ length (own "acme" table))
wipe_tenant_vector_data_ok_example =
    wipe_tenant_vector_data_ok (ok tt) acme acme true table (foreign.row ∷ []) wiped wipes

-- The CHECK admits a free row without a price.
admits_null :
    chk_hybrid_pricing_logic (record logo.row { price = none; price_type = "FREE" }) ≡ true
unfolding chk_hybrid_pricing_logic
admits_null = refl
