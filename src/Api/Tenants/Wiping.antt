-- ===== src/Api/Tenants/Wiping.antt =====
-- A wipe reaches the caller's own rows only, and only when it is confirmed.
use ai_lead_qualifier.Prelude.{String, Bool, true, [], ◌≡◌, str_eq, eq_iff, length, arith}
use ai_lead_qualifier.Core.Exceptions.{Answer, ok}
use ai_lead_qualifier.Database.Catalogue.{Table}
use ai_lead_qualifier.Database.Catalogue.Isolation.{others, own, wipe_tenant_isolated}
use ai_lead_qualifier.Api.Tenants.{WipeTenantResponse, wipe_tenant_vector_data}

-- A wipe that succeeds was confirmed by the tenant itself. It leaves the rows of the other tenants, in
-- order, and no others, and reports how many rows the tenant had.
pub wipe_tenant_vector_data_ok :
    {W : Type 0} (commit : Answer (Unit {0})) (tenant_id jwt_tenant : String) (confirm_wipe : Bool)
    (table table' : Table W) (r : WipeTenantResponse)
    → wipe_tenant_vector_data commit tenant_id confirm_wipe jwt_tenant table ≡ ok (r, table')
    → (jwt_tenant ≡ tenant_id)
      × (confirm_wipe ≡ true)
      × (table' ≡ others tenant_id table)
      × (r.rows_deleted ≡ length (own tenant_id table))
unfolding wipe_tenant_vector_data
wipe_tenant_vector_data_ok commit tenant_id jwt_tenant confirm_wipe table table' r h =
    let (upserted, kept, deleted) = wipe_tenant_isolated tenant_id [] table in
    let same : str_eq jwt_tenant tenant_id ≡ true = ground arith in
    ((eq_iff jwt_tenant tenant_id).0 same, ground arith, ground arith, ground arith)
