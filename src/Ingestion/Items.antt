-- ===== src/Ingestion/Items.antt =====
-- backend/ingestion/models.py: PriceType, ServiceItem and its validators. What Pydantic makes of the
-- values of an entry, before the validators of the model run, is a parameter.
pub mod Pricing
use ai_lead_qualifier.Prelude.{
  ℕ, String, Bool, true, false, Option, none, some, ◌==◌, ◌&&◌, not, or_else, if◌then◌else◌, [],
  ◌∷◌,
}
use ai_lead_qualifier.Float.{Float, float_lt}
use ai_lead_qualifier.Core.Text.{f_string, is_empty_text, strip, text_length}
use ai_lead_qualifier.Core.Json.{Json, Dict}
use ai_lead_qualifier.Core.Exceptions.{Answer, ok, raised, validation_error, ◌>>=◌}

pub data PriceType : Type 0 where
  fixed free variable : PriceType

-- `PriceType.value`
abbrev pub price_type_value : PriceType → String
price_type_value fixed = "FIXED"
price_type_value free = "FREE"
price_type_value variable = "VARIABLE"

pub record ServiceItem (W : Type 0) : Type 0 where
  pub id : String
  pub tenant_id : String
  pub name : String
  pub description : Option String
  pub category : Option String
  pub price : Option W
  pub price_type : PriceType
  pub currency : String
  pub unit : Option String
  pub confidence : W
  pub raw_data : Dict (Json W)
  pub flagged : Bool
  pub flag_reason : Option String
  pub ingested_at : String

-- The fields as Pydantic coerced them; `none` is a key that was not given, and for `price_type` also
-- one whose value is falsy.
pub record ItemFields (W : Type 0) : Type 0 where
  pub id : Option String
  pub name : String
  pub description : Option String
  pub category : Option String
  pub price : Option (Option W)
  pub price_type : Option PriceType
  pub currency : Option String
  pub unit : Option String
  pub confidence : Option W
  pub flagged : Bool
  pub flag_reason : Option String
  pub ingested_at : Option String

-- `coerce` raises where a value does not fit its field; `describe` is the text of a ValidationError
-- with a validator's message. `upper` and `lower` are those of `str`, and `uuid4` and `now` the
-- default factories.
pub record Pydantic (W : Type 0) : Type 0 where
  pub coerce : Dict (Json W) → Answer (ItemFields W)
  pub describe : String → String
  pub upper : String → String
  pub lower : String → String
  pub uuid4 : ℕ → String
  pub now : ℕ → String

module _ {W : Type 0} ⦃fl : Float W⦄ (pydantic : Pydantic W) where
  -- A field's constraint or a validator that raises.
  abbrev require : Bool → String → Answer (Unit {0})
  require true message = ok tt
  require false message =
      raised (record { kind = validation_error; message = pydantic.describe message })

  -- Validators do not run on a default.
  pub price_non_negative : Option (Option W) → Answer (Option W)
  price_non_negative none = ok (some (fl.literal 0))
  price_non_negative (some none) = ok none
  price_non_negative (some (some v)) = do
    _ ← require (not (float_lt v (fl.literal 0))) "price must be ≥ 0"
    ok (some (fl.round 4 v))

  pub currency_uppercase : Option String → Answer String
  currency_uppercase none = ok "EUR"
  currency_uppercase (some v) = do
    _ ←
        require (text_length (pydantic.upper (strip v)) == 3)
          "currency must be a 3-letter ISO 4217 code"
    ok (pydantic.upper (strip v))

  pub unit_lowercase : Option String → Option String
  unit_lowercase none = none
  unit_lowercase (some v) = if is_empty_text v then none else some (pydantic.lower (strip v))

  pub confidence_field : Option W → Answer W
  confidence_field none = ok (fl.literal 100)
  confidence_field (some c) = do
    _ ← require (fl.le (fl.literal 0) c && fl.le c (fl.literal 100)) "confidence out of range"
    ok c

  -- The inference looks at `values.get("price")`, where a missing price is None too.
  pub infer_price_type : Option PriceType → Option (Option W) → PriceType
  infer_price_type (some t) price = t
  infer_price_type none (some (some v)) = fixed
  infer_price_type none _ = variable

  pub enforce_hybrid_pricing_invariant : PriceType → Option W → Answer (Option W)
  enforce_hybrid_pricing_invariant free price = ok (some (fl.literal 0))
  enforce_hybrid_pricing_invariant variable price = ok none
  enforce_hybrid_pricing_invariant fixed none =
      require false
        "price_type=FIXED richiede un prezzo non-None e >= 0. Usa price_type=VARIABLE per i prezzi su richiesta."
      >>= λ _. ok none
  enforce_hybrid_pricing_invariant fixed (some v) = ok (some v)

  pub auto_flag_low_confidence : ServiceItem W → ServiceItem W
  auto_flag_low_confidence item =
      if float_lt item.confidence (fl.literal 50) && not item.flagged
      then record item {
        flagged = true;
        flag_reason =
            some
              (f_string ("Auto-flagged: confidence " ∷ fl.format item.confidence ∷ " < 0.5" ∷ []));
      }
      else item

  -- The fields of the model, with the validated ones given and the factories' defaults.
  abbrev pub new_item :
      ℕ → String → Dict (Json W) → ItemFields W → String → W → Option W → ServiceItem W
  new_item i tenant_id raw_data fields currency confidence price = record {
    id = or_else fields.id (pydantic.uuid4 i);
    tenant_id = tenant_id;
    name = fields.name;
    description = fields.description;
    category = fields.category;
    price = price;
    price_type = infer_price_type fields.price_type fields.price;
    currency = currency;
    unit = unit_lowercase fields.unit;
    confidence = confidence;
    raw_data = raw_data;
    flagged = fields.flagged;
    flag_reason = fields.flag_reason;
    ingested_at = or_else fields.ingested_at (pydantic.now i);
  }

  -- `ServiceItem(tenant_id=…, raw_data=…, **fields)`; `i` numbers the items, for the factories.
  unfoldable pub service_item : ℕ → String → Dict (Json W) → ItemFields W → Answer (ServiceItem W)
  unfolding price_non_negative currency_uppercase unit_lowercase confidence_field infer_price_type
      enforce_hybrid_pricing_invariant auto_flag_low_confidence
  service_item i tenant_id raw_data fields = do
    _ ← require (not (is_empty_text tenant_id)) "tenant_id"
    _ ← require (not (is_empty_text fields.name)) "name"
    given ← price_non_negative fields.price
    currency ← currency_uppercase fields.currency
    confidence ← confidence_field fields.confidence
    price ← enforce_hybrid_pricing_invariant (infer_price_type fields.price_type fields.price) given
    ok (auto_flag_low_confidence (new_item i tenant_id raw_data fields currency confidence price))
