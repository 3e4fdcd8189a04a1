-- ===== src/Database/Catalogue.antt =====
-- backend/database/vector_store.py: `upsert_items` and `wipe_tenant`, on the rows of the table
-- catalogue_items. Its key is the tenant and the service; `executemany` runs in one transaction.
pub mod Keys
pub mod Isolation
use ai_lead_qualifier.Prelude.{
  ℕ, suc, String, Bool, true, false, Option, none, some, List, [], ◌∷◌, ◌&&◌, not, or_else, length,
  str_eq, if◌then◌else◌,
}
use ai_lead_qualifier.Core.Json.{Json, Dict}

pub record Row (W : Type 0) : Type 0 where
  pub tenant_id : String
  pub service : String
  pub price : Option W
  pub price_type : String
  pub description : String
  pub embedding : List W
  pub metadata : Dict (Json W)

-- The dict of an item; `none` is a key that is missing.
pub record Item (W : Type 0) : Type 0 where
  pub service : String
  pub price : Option W
  pub price_type : String
  pub description : Option String
  pub embedding : List W
  pub metadata : Option (Dict (Json W))

abbrev pub Table : Type 0 → Type 0
Table W = List (Row W)

module _ {W : Type 0} where
  abbrev pub has_key : String → String → Row W → Bool
  has_key tenant_id service row = str_eq row.tenant_id tenant_id && str_eq row.service service

  -- `WHERE tenant_id = $1 AND service = $2`
  unfoldable pub find_row : String → String → Table W → Option (Row W)
  find_row tenant_id service [] = none
  find_row tenant_id service (row ∷ rows) =
      let rest = find_row tenant_id service rows in
      if has_key tenant_id service row then some row else rest

  -- `INSERT … ON CONFLICT (tenant_id, service) DO UPDATE`
  pub upsert_row : Row W → Table W → Table W
  upsert_row new [] = new ∷ []
  upsert_row new (row ∷ rows) =
      let rest = upsert_row new rows in
      if has_key new.tenant_id new.service row then new ∷ rows else row ∷ rest

  abbrev pub to_row : String → Item W → Row W
  to_row tenant_id item = record {
    tenant_id = tenant_id;
    service = item.service;
    price = item.price;
    price_type = item.price_type;
    description = or_else item.description "";
    embedding = item.embedding;
    metadata = or_else item.metadata [];
  }

  pub upsert_all : String → List (Item W) → Table W → Table W
  upsert_all tenant_id [] table = table
  upsert_all tenant_id (item ∷ items) table =
      upsert_all tenant_id items (upsert_row (to_row tenant_id item) table)

  -- The table after the call, and the number that it returns.
  unfoldable pub upsert_items : List (Item W) → String → Table W → Table W × ℕ
  unfolding upsert_all upsert_row
  upsert_items items tenant_id table = (upsert_all tenant_id items table, length items)

  abbrev pub owned_by : String → Row W → Bool
  owned_by tenant_id row = str_eq row.tenant_id tenant_id

  pub delete_rows : String → Table W → Table W × ℕ
  delete_rows tenant_id [] = ([], 0)
  delete_rows tenant_id (row ∷ rows) =
      let (kept, deleted) = delete_rows tenant_id rows in
      if owned_by tenant_id row then (kept, suc deleted) else (row ∷ kept, deleted)

  -- `DELETE FROM catalogue_items WHERE tenant_id = $1`
  unfoldable pub wipe_tenant : String → Table W → Table W × ℕ
  unfolding delete_rows
  wipe_tenant tenant_id table = delete_rows tenant_id table
