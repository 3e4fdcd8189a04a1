-- ===== src/Api/Catalogue/Listing.antt =====
-- backend/api/catalogue_routes.py: `list_catalogue_items`. `order_by_service` is the database's
-- ORDER BY, whose collation is not the program's. A price type is kept as its text: `PriceType(…)` of
-- a row that the constraint of the table admits does not raise.
pub mod Pages
use ai_lead_qualifier.Prelude.{
  ℕ, ◌+◌, zero, suc, String, Bool, Option, List, [], ◌∷◌, ◌++◌, ◌≡◌, ◌&&◌, leb, take, drop, length,
  map, str_eq, if◌then◌else◌,
}
use ai_lead_qualifier.Core.Json.{Json, Dict}
use ai_lead_qualifier.Core.Exceptions.{Answer, ok, raised, validation_error}
use ai_lead_qualifier.Database.Catalogue.{Row}
use ai_lead_qualifier.Api.Catalogue.{StoredRow}

pub record CatalogueItemResponse (W : Type 0) : Type 0 where
  pub id : String
  pub service : String
  pub price : Option W
  pub price_type : String
  pub description : String
  pub metadata : Dict (Json W)

pub record CatalogueListResponse (W : Type 0) : Type 0 where
  pub items : List (CatalogueItemResponse W)
  pub total : ℕ
  pub skip : ℕ
  pub limit : ℕ

module _ {W : Type 0} where
  abbrev pub to_item_response : StoredRow W → CatalogueItemResponse W
  to_item_response stored = record {
    id = stored.id;
    service = stored.row.service;
    price = stored.row.price;
    price_type = stored.row.price_type;
    description = stored.row.description;
    metadata = stored.row.metadata;
  }

  -- `WHERE tenant_id = $1`
  unfoldable pub items_of : String → List (StoredRow W) → List (StoredRow W)
  items_of tenant_id [] = []
  items_of tenant_id (stored ∷ items) =
      let rest = items_of tenant_id items in
      if str_eq stored.row.tenant_id tenant_id then stored ∷ rest else rest

  -- The bounds of `limit` are those of the query's parameter.
  unfoldable pub list_catalogue_items :
      (List (StoredRow W) → List (StoredRow W))
      → ℕ
      → ℕ
      → String
      → List (StoredRow W)
      → Answer (CatalogueListResponse W)
  unfolding items_of
  list_catalogue_items order_by_service skip limit tenant_id items =
      if leb 1 limit && leb limit 100
      then ok (record {
        items =
            map to_item_response
              (take limit (drop skip (order_by_service (items_of tenant_id items))));
        total = length (items_of tenant_id items);
        skip = skip;
        limit = limit;
      })
      else raised (record { kind = validation_error; message = "limit" })
