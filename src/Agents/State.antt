-- ===== src/Agents/State.antt =====
-- backend/core/state.py: the state that the nodes of the qualification graph share. What a node
-- returns replaces the fields that it names; no node writes `messages`, whose reducer appends.
use ai_lead_qualifier.Prelude.{ℕ, String, Bool, Option, List}
use ai_lead_qualifier.Core.Json.{Json, Dict}
use ai_lead_qualifier.Database.Documents.{Document}

pub record LeadContext : Type 0 where
  pub lead_id : String
  pub tenant_id : String
  pub raw_payload : Dict String
  pub metadata : Dict String

pub data Status : Type 0 where
  queued processing pending_review completed error : Status

pub data DeliveryStatus : Type 0 where
  pending success failed : DeliveryStatus

-- The dict that MapperNode builds for a service.
pub record MappedService (W : Type 0) : Type 0 where
  pub service : String
  pub matched_name : String
  pub price : Option W
  pub unit : Json W
  pub price_type : String
  pub distance : W
  pub query : String

pub record AgentState (W : Type 0) : Type 0 where
  pub lead : LeadContext
  pub messages : List String
  pub retrieved_docs : List (Document W)
  pub confidence_score : W
  pub human_approved : Option Bool
  pub review_feedback : Option String
  pub status : Status
  pub error_detail : Option String
  pub sanitized_text : String
  pub extracted_services : List String
  pub mapped_services : List (MappedService W)
  pub total_quote : W
  pub on_request_services : List String
  pub retry_count : ℕ
  pub delivery_status : DeliveryStatus
  pub delivery_attempts : ℕ
  pub delivery_error : Option String
