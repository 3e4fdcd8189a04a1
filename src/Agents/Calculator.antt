-- ===== src/Agents/Calculator.antt =====
-- backend/agents/calculator.py
pub mod Quote
use ai_lead_qualifier.Prelude.{
  String, Bool, Option, none, some, List, [], ◌∷◌, str_eq, if◌then◌else◌,
}
use ai_lead_qualifier.Float.{Float}
use ai_lead_qualifier.Core.Text.{f_string}
use ai_lead_qualifier.Core.Exceptions.{Answer, ok, raised, type_error, ◌>>=◌}
use ai_lead_qualifier.Agents.State.{AgentState, MappedService, Status}

-- `float(x)` of a number or None.
unfoldable pub to_float : {W : Type 0} → Option W → Answer W
to_float (some x) = ok x
to_float none = raised (record {
  kind = type_error;
  message = "float() argument must be a string or a real number, not 'NoneType'";
})

-- `entry.get("price_type") == "VARIABLE"`
abbrev pub is_variable : {W : Type 0} → MappedService W → Bool
is_variable entry = str_eq entry.price_type "VARIABLE"

module _ {W : Type 0} ⦃fl : Float W⦄ where
  unfoldable pub sum_loop : W → List (MappedService W) → Answer W
  unfolding to_float
  sum_loop total [] = ok (fl.round 2 total)
  sum_loop total (entry ∷ entries) =
      let counted = to_float entry.price >>= λ price. sum_loop (fl.add total price) entries in
      let skipped = sum_loop total entries in if is_variable entry then skipped else counted

  unfoldable pub sum_prices : List (MappedService W) → Answer W
  unfolding sum_loop
  sum_prices mapped_services = sum_loop (fl.literal 0) mapped_services

  unfoldable pub on_request : List (MappedService W) → List String
  on_request [] = []
  on_request (entry ∷ entries) =
      let rest = on_request entries in if is_variable entry then entry.matched_name ∷ rest else rest

  unfoldable pub calculator_node : AgentState W → AgentState W
  calculator_node state = elim (sum_prices state.mapped_services) [
    | ok total ↦ record state {
      total_quote = total;
      on_request_services = on_request state.mapped_services;
      status = Status.processing;
      error_detail = none;
    }
    | raised exc ↦ record state {
      total_quote = fl.literal 0;
      status = Status.error;
      error_detail = some (f_string ("Price calculation error: " ∷ exc.message ∷ []));
    }
  ]
