-- ===== src/Api/Catalogue.antt =====
-- backend/api/catalogue_routes.py: the list of a tenant's items and their update. The rows of the
-- table are those of Database/Catalogue.antt with their ids; the text that asyncpg makes of a UUID,
-- `repr` of a float and the order of the rows by service are parameters.
pub mod Constraints
pub mod Editing
pub mod Listing
use ai_lead_qualifier.Prelude.{
  ℕ, String, Bool, true, false, Option, none, some, List, [], ◌∷◌, ◌++◌, ◌≡◌, ◌&&◌, ◌||◌, not, any,
  map, str_eq, if◌then◌else◌,
}
use ai_lead_qualifier.Float.{Float, float_eq, float_lt}
use ai_lead_qualifier.Core.Text.{f_string, is_empty_text}
use ai_lead_qualifier.Core.Exceptions.{
  Answer, ok, raised, validation_error, check_violation_error, unique_violation_error, http_error,
  ◌>>=◌,
}
use ai_lead_qualifier.Ingestion.Items.{PriceType, fixed, free, variable, price_type_value}
use ai_lead_qualifier.Database.Catalogue.{Row, has_key}

pub record StoredRow (W : Type 0) : Type 0 where
  pub id : String
  pub row : Row W

-- `item_id`, `field_changed`, `old_value` and `new_value` of audit_log.
pub record AuditRow : Type 0 where
  pub item_id : String
  pub field_changed : String
  pub old_value : Option String
  pub new_value : String

-- The database, and the jobs of the queue with their item and tenant.
pub record Store (W : Type 0) : Type 0 where
  pub items : List (StoredRow W)
  pub audit_log : List AuditRow
  pub jobs : List (String × String)

pub record CatalogueItemPatch (W : Type 0) : Type 0 where
  pub service : Option String
  pub price : Option W
  pub price_type : Option PriceType
  pub description : Option String

-- An entry of the dict of updates.
pub data Update (W : Type 0) : Type 0 where
  set_service : String → Update W
  set_price : Option W → Update W
  set_price_type : PriceType → Update W
  set_description : String → Update W

abbrev patchable_columns : List String
patchable_columns = "service" ∷ "price" ∷ "description" ∷ "price_type" ∷ []

abbrev embedding_trigger_columns : List String
embedding_trigger_columns = "service" ∷ "description" ∷ []

module _ {W : Type 0} where
  abbrev pub column : Update W → String
  column (set_service v) = "service"
  column (set_price v) = "price"
  column (set_price_type v) = "price_type"
  column (set_description v) = "description"

  -- `WHERE id = $1::uuid AND tenant_id = $2`
  abbrev pub is_item : String → String → StoredRow W → Bool
  is_item item_id tenant_id stored =
      str_eq stored.id item_id && str_eq stored.row.tenant_id tenant_id

  unfoldable pub fetch_item : String → String → List (StoredRow W) → Option (Row W)
  fetch_item item_id tenant_id [] = none
  fetch_item item_id tenant_id (stored ∷ items) =
      let rest = fetch_item item_id tenant_id items in
      if is_item item_id tenant_id stored then some stored.row else rest

  -- `field = value`
  abbrev pub set_column : Update W → Row W → Row W
  set_column (set_service v) row = record row { service = v }
  set_column (set_price v) row = record row { price = v }
  set_column (set_price_type v) row = record row { price_type = price_type_value v }
  set_column (set_description v) row = record row { description = v }

  pub set_columns : List (Update W) → Row W → Row W
  set_columns [] row = row
  set_columns (u ∷ us) row = set_columns us (set_column u row)

  pub update_items : String → String → List (Update W) → List (StoredRow W) → List (StoredRow W)
  unfolding set_columns
  update_items item_id tenant_id us [] = []
  update_items item_id tenant_id us (stored ∷ items) =
      let rest = update_items item_id tenant_id us items in
      if is_item item_id tenant_id stored
      then record stored { row = set_columns us stored.row } ∷ rest
      else stored ∷ rest

  -- The UNIQUE constraint: another row has the key of the row.
  pub has_duplicate : String → Row W → List (StoredRow W) → Bool
  has_duplicate item_id row items =
      any (λ stored. not (str_eq stored.id item_id) && has_key row.tenant_id row.service stored.row)
        items

  -- `field not in _PATCHABLE_COLUMNS`
  pub patchable : List (Update W) → List (Update W)
  patchable [] = []
  patchable (u ∷ us) =
      let rest = patchable us in
      if any (str_eq (column u)) patchable_columns then u ∷ rest else rest

  -- `any(f in _EMBEDDING_TRIGGER_COLUMNS for f in updates)`
  pub needs_reembedding : List (Update W) → Bool
  needs_reembedding us = any (λ u. any (str_eq (column u)) embedding_trigger_columns) us

module _ {W : Type 0} where
  abbrev pub given : {A : Type 0} → (A → Update W) → Option A → List (Update W)
  given set none = []
  given set (some v) = set v ∷ []

  -- `updates["price"] = None`, on a dict that has no price.
  abbrev pub clear_price : Option PriceType → List (Update W)
  clear_price (some variable) = set_price none ∷ []
  clear_price _ = []

-- AND and OR of SQL, where `none` is NULL.
abbrev sql_and : Option Bool → Option Bool → Option Bool
sql_and (some false) b = some false
sql_and (some true) b = b
sql_and none (some false) = some false
sql_and none _ = none

abbrev sql_or : Option Bool → Option Bool → Option Bool
sql_or (some true) b = some true
sql_or (some false) b = b
sql_or none (some true) = some true
sql_or none _ = none

abbrev admits : Option Bool → Bool
admits (some b) = b
admits none = true

abbrev is_unnamed : Option String → Bool
is_unnamed none = false
is_unnamed (some service) = is_empty_text service

module _ {W : Type 0} ⦃fl : Float W⦄ where
  -- A comparison with a column that may be NULL.
  abbrev compare_price : (W → Bool) → Option W → Option Bool
  compare_price test none = none
  compare_price test (some price) = some (test price)

  abbrev is_null : Option W → Bool
  is_null none = true
  is_null (some price) = false

  -- The constraint chk_hybrid_pricing_logic, which like every CHECK admits what it cannot decide.
  unfoldable pub chk_hybrid_pricing_logic : Row W → Bool
  chk_hybrid_pricing_logic row =
      let price_type : String → Option Bool = λ t. some (str_eq row.price_type t) in
      admits (
        sql_or
          (sql_or
            (sql_and (price_type "FREE")
              (compare_price (λ price. float_eq price (fl.literal 0)) row.price))
            (sql_and (sql_and (price_type "FIXED") (some (not (is_null row.price))))
              (compare_price (λ price. fl.le (fl.literal 0) price) row.price)))
          (sql_and (price_type "VARIABLE") (some (is_null row.price))))

  abbrev pub coerce_price : Option PriceType → Option W → Option W
  coerce_price none price = price
  coerce_price (some free) price = some (fl.literal 0)
  coerce_price (some variable) price = none
  coerce_price (some fixed) price = price

  pub coerce_price_for_price_type : CatalogueItemPatch W → CatalogueItemPatch W
  coerce_price_for_price_type body = record body { price = coerce_price body.price_type body.price }

  abbrev is_negative : Option W → Bool
  is_negative none = false
  is_negative (some price) = not (fl.le (fl.literal 0) price)

  -- The body as Pydantic reads it: the bounds of the fields, then the validator of the model.
  pub read_patch : CatalogueItemPatch W → Answer (CatalogueItemPatch W)
  unfolding coerce_price_for_price_type
  read_patch body =
      if is_unnamed body.service || is_negative body.price
      then raised (record { kind = validation_error; message = "CatalogueItemPatch" })
      else ok (coerce_price_for_price_type body)

  -- `body.model_dump(exclude_none=True)`, and the price of a VARIABLE.
  pub updates_of : CatalogueItemPatch W → List (Update W)
  updates_of body =
      given set_service body.service
      ++ given (λ price. set_price (some price)) body.price
      ++ given set_price_type body.price_type
      ++ given set_description body.description
      ++ clear_price body.price_type

pub record CatalogueItemPatchResponse (W : Type 0) : Type 0 where
  pub id : String
  pub service : String
  pub price : Option W
  pub price_type : String
  pub description : String
  pub embedding_sync : String

-- `str` of a value that may be None.
abbrev pub or_none : Option String → String
or_none none = "None"
or_none (some t) = t

module _ {W : Type 0} (repr : W → String) where
  abbrev pub str_price : Option W → String
  str_price none = "None"
  str_price (some price) = repr price

  -- `str(existing[field])`, and `None` where the column is NULL.
  abbrev pub old_text : Update W → Row W → Option String
  old_text (set_service v) row = some row.service
  old_text (set_price v) row = elim row.price [ none ↦ none | some price ↦ some (repr price) ]
  old_text (set_price_type v) row = some row.price_type
  old_text (set_description v) row = some row.description

  -- `str(new_val)`; that of an enum's member names the class.
  abbrev pub new_text : Update W → String
  new_text (set_service v) = v
  new_text (set_price v) = str_price v
  new_text (set_price_type v) = f_string ("PriceType." ∷ price_type_value v ∷ [])
  new_text (set_description v) = v

  pub audit_rows : String → Row W → List (Update W) → List AuditRow
  audit_rows item_id existing [] = []
  audit_rows item_id existing (u ∷ us) =
      let rest = audit_rows item_id existing us in
      if str_eq (or_none (old_text u existing)) (new_text u)
      then rest
      else record {
        item_id = item_id;
        field_changed = column u;
        old_value = old_text u existing;
        new_value = new_text u;
      }
        ∷ rest
