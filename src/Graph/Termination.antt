-- ===== src/Graph/Termination.antt =====
-- A run ends within a bound on its supersteps, unless the sanitized text is empty.
use ai_lead_qualifier.Prelude.{ℕ, zero, suc, ◌+◌, ◌-◌, ◌*◌, ◌≤◌, ◌<◌, ◌≡◌, refl, false, arith}
use Prim.Native.Nat.{max}
use ai_lead_qualifier.Float.{Float}
use ai_lead_qualifier.Core.Text.{is_empty_text}
use ai_lead_qualifier.Core.Exceptions.{Answer, ok, raised, ok-injective}
use mathlib.Core.Path.{subst}
use ai_lead_qualifier.Core.Config.{Settings}
use ai_lead_qualifier.Agents.State.{AgentState}
use ai_lead_qualifier.Agents.Sanitizer.{sanitizer_node}
use ai_lead_qualifier.Agents.Extractor.{extractor_node}
use ai_lead_qualifier.Agents.Mapper.Frame.{mapper_node-IsSameRun}
use ai_lead_qualifier.Agents.Evaluator.{evaluator_node}
use ai_lead_qualifier.Agents.Calculator.{calculator_node}
use ai_lead_qualifier.Agents.Delivery.{delivery_node}
use ai_lead_qualifier.Graph.{
  World, Node, sanitizer, extractor, mapper, evaluator, calculator, delivery, hitl_interrupt,
  finish, Outcome, finished, interrupted, crashed, next, execute, advance, run, ainvoke,
}
use ai_lead_qualifier.Graph.Steps.{
  At, IsActive, sanitizes, extracts, maps, evaluates, calculates, delivers, step-At,
}

-- Calls that were made leave no more of them.
shrinks : (m r d : ℕ) → 3 * max 1 (m - r) + (1 + d) < 1 + 3 * max 1 m + (1 + d)
shrinks m r d = ground arith

module _ {W : Type 0} ⦃fl : Float W⦄ (settings : Settings W) where
  -- The calculator and every delivery attempt; the review takes one superstep too.
  abbrev tail_steps : ℕ
  tail_steps = 1 + settings.delivery_max_attempts

  -- An upper bound on the supersteps that are left.
  abbrev pub bound : Node → AgentState W → ℕ
  bound sanitizer s = 1 + 3 * max 1 settings.max_retry_count + tail_steps
  bound extractor s = 3 * max 1 (settings.max_retry_count - s.retry_count) + tail_steps
  bound mapper s = 2 + 3 * (settings.max_retry_count - s.retry_count) + tail_steps
  bound evaluator s = 1 + 3 * (settings.max_retry_count - s.retry_count) + tail_steps
  bound calculator s = tail_steps
  bound delivery s = settings.delivery_max_attempts - s.delivery_attempts
  bound hitl_interrupt s = 1
  bound finish s = 0

  -- Past the sanitizer, which does not run twice, the text is there.
  abbrev pub HasText : Node → AgentState W → Type 0
  HasText sanitizer s = ⊥
  HasText extractor s = is_empty_text s.sanitized_text ≡ false
  HasText mapper s = is_empty_text s.sanitized_text ≡ false
  HasText evaluator s = is_empty_text s.sanitized_text ≡ false
  HasText _ s = Unit

  module _ (world : World W) (i : ℕ) (s s' : AgentState W) where
    sanitizer_falls :
        At settings sanitizer s
        → is_empty_text (sanitizer_node world.re settings s).sanitized_text ≡ false
        → execute settings world i sanitizer s ≡ ok s'
        → HasText extractor s' × (bound extractor s' < bound sanitizer s)
    unfolding execute
    sanitizer_falls h t e =
        subst (λ r. HasText extractor r × (bound extractor r < bound sanitizer s)) (ok-injective e)
          (
            t,
            shrinks settings.max_retry_count (sanitizer_node world.re settings s).retry_count
                settings.delivery_max_attempts,
          )

    extractor_falls :
        At settings extractor s
        → HasText extractor s
        → execute settings world i extractor s ≡ ok s'
        → HasText mapper s' × (bound mapper s' < bound extractor s)
    unfolding execute extractor_node
    extractor_falls h t e = ground arith

    mapper_falls :
        HasText mapper s
        → execute settings world i mapper s ≡ ok s'
        → HasText evaluator s' × (bound evaluator s' < bound mapper s)
    unfolding execute
    mapper_falls t e =
        ground (arith, mapper_node-IsSameRun settings (world.embeddings i) (world.fetch i) e)

    evaluator_falls :
        At settings evaluator s
        → HasText evaluator s
        → execute settings world i evaluator s ≡ ok s'
        → HasText (next settings evaluator s') s'
          × (bound (next settings evaluator s') s' < bound evaluator s)
    unfolding execute evaluator_node next
    evaluator_falls h t e = ground arith

    calculator_falls :
        At settings calculator s
        → execute settings world i calculator s ≡ ok s'
        → bound delivery s' < bound calculator s
    unfolding execute calculator_node
    calculator_falls h e = ground arith

    delivery_falls :
        At settings delivery s
        → execute settings world i delivery s ≡ ok s'
        → HasText (next settings delivery s') s'
          × (bound (next settings delivery s') s' < bound delivery s)
    unfolding execute delivery_node next
    delivery_falls h e = ground arith

  -- The text stays, and the bound falls, in every superstep past the sanitizer.
  abbrev Falls : Node → AgentState W → AgentState W → Type 0
  Falls n s s' = HasText (next settings n s') s' × (bound (next settings n s') s' < bound n s)

  -- A run that ended well, or because a node raised.
  abbrev pub EndsProperly : World W → Outcome W → Type 0
  EndsProperly world (finished s) = Unit
  EndsProperly world (interrupted s payload) = Unit
  EndsProperly world (crashed exc s) =
      (i : ℕ) × (n : Node) × IsActive n × (execute settings world i n s ≡ raised exc)

  module _ (world : World W) (attempts : 0 < settings.delivery_max_attempts) where
    -- What the induction below gives for the rest of a run.
    abbrev pub Rest : ℕ → Type 0
    Rest left =
        (i : ℕ) (n : Node) (s : AgentState W)
        → At settings n s
        → HasText n s
        → bound n s ≤ left
        → EndsProperly world (run settings world left i n s)

    advance-EndsProperly :
        (left i : ℕ) (n : Node) (s : AgentState W) (r : Answer (AgentState W))
        → IsActive n
        → At settings n s
        → execute settings world i n s ≡ r
        → ((s' : AgentState W) → execute settings world i n s ≡ ok s' → Falls n s s')
        → bound n s ≤ suc left
        → Rest left
        → EndsProperly world (advance settings (run settings world left (suc i)) s n r)
    advance-EndsProperly left i n s (raised exc) active h e falls room rest = (i, n, active, e)
    advance-EndsProperly left i n s (ok s') active h e falls room rest =
        let (t, less) = falls s' e in
        rest (suc i) (next settings n s') s' (step-At settings world i attempts s s' active h e) t
          (omega arith)

    pub run-EndsProperly : (left : ℕ) → Rest left
    unfolding run next
    run-EndsProperly zero i finish s h t b = tt
    run-EndsProperly (suc left) i finish s h t b = tt
    run-EndsProperly (suc left) i hitl_interrupt s h t b = tt
    run-EndsProperly zero i sanitizer s h t b = absurd t
    run-EndsProperly zero i extractor s h t b = absurd (omega arith)
    run-EndsProperly zero i mapper s h t b = absurd (omega arith)
    run-EndsProperly zero i evaluator s h t b = absurd (omega arith)
    run-EndsProperly zero i calculator s h t b = absurd (omega arith)
    run-EndsProperly zero i delivery s h t b = absurd (omega arith)
    run-EndsProperly zero i hitl_interrupt s h t b = absurd (omega arith)
    run-EndsProperly (suc left) i sanitizer s h t b = absurd t
    run-EndsProperly (suc left) i extractor s h t b =
        advance-EndsProperly left i extractor s (execute settings world i extractor s) extracts h
          refl (λ s' e. extractor_falls world i s s' h t e) b (run-EndsProperly left)
    run-EndsProperly (suc left) i mapper s h t b =
        advance-EndsProperly left i mapper s (execute settings world i mapper s) maps h refl
          (λ s' e. mapper_falls world i s s' t e) b (run-EndsProperly left)
    run-EndsProperly (suc left) i evaluator s h t b =
        advance-EndsProperly left i evaluator s (execute settings world i evaluator s) evaluates h
          refl (λ s' e. evaluator_falls world i s s' h t e) b (run-EndsProperly left)
    run-EndsProperly (suc left) i calculator s h t b =
        advance-EndsProperly left i calculator s (execute settings world i calculator s) calculates
          h refl (λ s' e. (tt, calculator_falls world i s s' h e)) b (run-EndsProperly left)
    run-EndsProperly (suc left) i delivery s h t b =
        advance-EndsProperly left i delivery s (execute settings world i delivery s) delivers h refl
          (λ s' e. delivery_falls world i s s' h e) b (run-EndsProperly left)

    -- Let delivery_max_attempts be positive, and the counters of the initial state 0. If masking
    -- leaves some text, a run with a recursion limit of at least 3 * max(1, max_retry_count) +
    -- delivery_max_attempts + 2 finishes, or is suspended for review, or passes on what a node
    -- raised: it does not meet the limit.
    pub ainvoke-EndsProperly :
        (limit : ℕ) (s₀ : AgentState W)
        → (s₀.retry_count ≡ 0) × (s₀.delivery_attempts ≡ 0)
        → is_empty_text (sanitizer_node world.re settings s₀).sanitized_text ≡ false
        → 3 * max 1 settings.max_retry_count + settings.delivery_max_attempts + 2 ≤ limit
        → EndsProperly world (ainvoke settings world limit s₀)
    unfolding ainvoke next execute
    ainvoke-EndsProperly zero s₀ h t b = absurd (omega arith)
    ainvoke-EndsProperly (suc left) s₀ h t b =
        advance-EndsProperly left 0 sanitizer s₀ (execute settings world 0 sanitizer s₀) sanitizes h
          refl (λ s' e. sanitizer_falls world 0 s₀ s' h t e) (omega arith) (run-EndsProperly left)
