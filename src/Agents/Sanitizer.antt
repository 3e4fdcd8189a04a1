-- ===== src/Agents/Sanitizer.antt =====
-- backend/agents/sanitizer.py. The regular expressions are those of Python's `re`: `findall` and
-- `sub` of each pattern are parameters. `sub` may raise, on a mask token with a bad escape.
pub mod Masking
use ai_lead_qualifier.Prelude.{
  ℕ, ◌+◌, String, Option, none, some, List, [], ◌∷◌, is_empty, length, or_else, if◌then◌else◌,
}
use ai_lead_qualifier.Core.Text.{f_string}
use ai_lead_qualifier.Core.Json.{lookup}
use ai_lead_qualifier.Core.Exceptions.{Answer, ok, raised, ◌>>=◌}
use ai_lead_qualifier.Core.Config.{Settings}
use ai_lead_qualifier.Agents.State.{AgentState, Status}

-- `_PII_PATTERNS`, in its order.
pub data PiiPattern : Type 0 where
  card fiscal_code ssn email phone iban : PiiPattern

abbrev pub pii_patterns : List PiiPattern
pii_patterns = card ∷ fiscal_code ∷ ssn ∷ email ∷ phone ∷ iban ∷ []

pub record Regex : Type 0 where
  pub findall : PiiPattern → String → List String
  pub sub : PiiPattern → String → String → Answer String

module _ (re : Regex) where
  -- One round of the loop of `_mask_pii`.
  pub apply_pattern : PiiPattern → String → String → ℕ → Answer (String × ℕ)
  apply_pattern p mask_token text count =
      let matches = re.findall p text in
      if is_empty matches
      then ok (text, count)
      else re.sub p mask_token text >>= λ masked. ok (masked, count + length matches)

  -- The loop, on the text and the count so far.
  pub mask_loop : List PiiPattern → String → String → ℕ → Answer (String × ℕ)
  mask_loop [] mask_token text count = ok (text, count)
  mask_loop (p ∷ ps) mask_token text count =
      apply_pattern p mask_token text count >>= λ (masked, n). mask_loop ps mask_token masked n

  unfoldable pub mask_pii : String → String → Answer (String × ℕ)
  unfolding mask_loop apply_pattern
  mask_pii text mask_token = mask_loop pii_patterns mask_token text 0

  unfoldable pub sanitizer_node : {W : Type 0} → Settings W → AgentState W → AgentState W
  sanitizer_node settings state =
      let raw_text = or_else (lookup "text" state.lead.raw_payload) "" in
      elim (mask_pii raw_text settings.pii_mask_token) [
        | ok (sanitized_text, redaction_count) ↦ record state {
          sanitized_text = sanitized_text;
          status = Status.processing;
          error_detail = none;
        }
        | raised exc ↦ record state {
          sanitized_text = "";
          status = Status.error;
          error_detail = some (f_string ("PII masking failed: " ∷ exc.message ∷ []));
        }
      ]
