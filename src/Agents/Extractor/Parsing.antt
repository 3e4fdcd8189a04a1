-- ===== src/Agents/Extractor/Parsing.antt =====
-- What `_parse_services` lets through.
use ai_lead_qualifier.Prelude.{String, ◌≡◌, false, List, [], ◌∷◌, arith, All, none, some}
use ai_lead_qualifier.Core.Text.{is_empty_text, strip, strip-strip}
use ai_lead_qualifier.Core.Json.{Json, array, elements}
use ai_lead_qualifier.Agents.Extractor.{
  JsonLibrary, strip_fence, loads_reply, services_of, services_of_json, parse_services,
}

-- A service name that is not empty and has no space at either end.
pub record IsTrimmed (s : String) : Type 0 where
  pub present : is_empty_text s ≡ false
  pub trimmed : strip s ≡ s

module _ {W : Type 0} (json : JsonLibrary W) where
  services_of-IsTrimmed : (items : List (Json W)) → All IsTrimmed (services_of json items)
  unfolding services_of
  services_of-IsTrimmed [] = tt
  services_of-IsTrimmed (item ∷ items) =
      ground (arith, services_of-IsTrimmed items, strip-strip (json.str item))

  -- Whatever the model replies, fenced, malformed or no JSON at all, every extracted service name is
  -- nonempty and has no white space at its ends.
  pub parse_services-IsTrimmed : (raw : String) → All IsTrimmed (parse_services json raw)
  unfolding parse_services
  parse_services-IsTrimmed raw =
      elim (loads_reply json (strip_fence raw)) as (λ r. All IsTrimmed (services_of_json json r)) [
        | some (array items) ↦ services_of-IsTrimmed (elements items)
        | some _ ↦ tt
        | none ↦ tt
      ]
