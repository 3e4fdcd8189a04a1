-- ===== src/Graph/Livelock.antt =====
-- An empty sanitized text: the extractor returns early and counts no call, so its retry budget never
-- runs out.
use ai_lead_qualifier.Prelude.{
  ℕ, zero, suc, ◌<◌, ◌≡◌, inl, refl, sym, ◌∙◌, true, false, some, [], arith,
}
use mathlib.Core.Path.{subst}
use ai_lead_qualifier.Float.{Float}
use ai_lead_qualifier.Core.Text.{is_empty_text}
use ai_lead_qualifier.Core.Exceptions.{ok}
use ai_lead_qualifier.Core.Config.{Settings}
use ai_lead_qualifier.Agents.State.{AgentState}
use ai_lead_qualifier.Agents.Sanitizer.{sanitizer_node}
use ai_lead_qualifier.Agents.Extractor.{extractor_node}
use ai_lead_qualifier.Agents.Mapper.{mapper_node}
use ai_lead_qualifier.Agents.Evaluator.{evaluator_node}
use ai_lead_qualifier.Agents.Evaluator.Score.{evaluator_node-hard_zero}
use ai_lead_qualifier.Graph.{
  World, Node, sanitizer, extractor, mapper, evaluator, calculator, delivery, hitl_interrupt,
  finish, Outcome, crashed, recursion_failure, next, execute, advance, run, ainvoke,
}

module _ {W : Type 0} ⦃fl : Float W⦄ (settings : Settings W) (world : World W) where
  -- The text is empty and no call was counted.
  abbrev IsStuck : AgentState W → Type 0
  IsStuck s = (is_empty_text s.sanitized_text ≡ true) × (s.retry_count ≡ 0)

  -- A run that the recursion limit ends.
  abbrev pub RunsOut : Outcome W → Type 0
  RunsOut o = (s : AgentState W) × (o ≡ crashed recursion_failure s)

  -- The states that the loop passes through.
  abbrev Loops : Node → AgentState W → Type 0
  Loops extractor s = IsStuck s
  Loops mapper s = IsStuck s × (s.extracted_services ≡ [])
  Loops evaluator s = IsStuck s × (s.extracted_services ≡ [])
  Loops _ s = ⊥

  -- A superstep stays in the loop.
  abbrev Stays : ℕ → Node → AgentState W → Type 0
  Stays i n s =
      (s' : AgentState W) × (execute settings world i n s ≡ ok s') × Loops (next settings n s') s'

  module _ (budget : 0 < settings.max_retry_count)
      (high : fl.le settings.evaluator_threshold (fl.literal 0) ≡ false) where
    extractor-Stays : (i : ℕ) (s : AgentState W) → Loops extractor s → Stays i extractor s
    unfolding execute extractor_node next
    extractor-Stays i s h = (
      record s { extracted_services = []; error_detail = some "sanitized_text is empty" },
      ground arith,
      ground arith,
    )

    mapper-Stays : (i : ℕ) (s : AgentState W) → Loops mapper s → Stays i mapper s
    unfolding execute mapper_node next
    mapper-Stays i s h =
        (record s { mapped_services = []; retrieved_docs = [] }, ground arith, ground arith)

    sanitizer_count :
        (s : AgentState W) → (sanitizer_node world.re settings s).retry_count ≡ s.retry_count
    unfolding sanitizer_node
    sanitizer_count s = ground arith

    sanitizer-Stays :
        (s : AgentState W)
        → s.retry_count ≡ 0
        → is_empty_text (sanitizer_node world.re settings s).sanitized_text ≡ true
        → Stays 0 sanitizer s
    unfolding execute next
    sanitizer-Stays s h t = (sanitizer_node world.re settings s, refl, (t, sanitizer_count s ∙ h))

    evaluator-IsStuck : (s : AgentState W) → Loops evaluator s → IsStuck (evaluator_node settings s)
    unfolding evaluator_node
    evaluator-IsStuck s h = ground arith

    evaluator_again :
        (s : AgentState W)
        → Loops evaluator s
        → next settings evaluator (evaluator_node settings s) ≡ extractor
    unfolding next
    evaluator_again s h =
        let (stuck, none_extracted) = h in
        ground
          (arith, evaluator-IsStuck s h, evaluator_node-hard_zero settings s (inl none_extracted))

    evaluator-Stays : (i : ℕ) (s : AgentState W) → Loops evaluator s → Stays i evaluator s
    unfolding execute
    evaluator-Stays i s h =
        let s' = evaluator_node settings s in
        (s', refl, subst (λ n. Loops n s') (sym (evaluator_again s h)) (evaluator-IsStuck s h))

    -- One superstep, and the run after it.
    advance-RunsOut :
        (left i : ℕ) (n : Node) (s : AgentState W)
        → Stays i n s
        → ((s' : AgentState W)
            → Loops (next settings n s') s'
            → RunsOut (run settings world left (suc i) (next settings n s') s'))
        → RunsOut
            (advance settings (run settings world left (suc i)) s n (execute settings world i n s))
    advance-RunsOut left i n s (s', e, h) rest =
        subst (λ r. RunsOut (advance settings (run settings world left (suc i)) s n r)) (sym e)
          (rest s' h)

    run-RunsOut :
        (left i : ℕ) (n : Node) (s : AgentState W)
        → Loops n s
        → RunsOut (run settings world left i n s)
    unfolding run
    run-RunsOut left i sanitizer s h = absurd h
    run-RunsOut left i calculator s h = absurd h
    run-RunsOut left i delivery s h = absurd h
    run-RunsOut left i hitl_interrupt s h = absurd h
    run-RunsOut left i finish s h = absurd h
    run-RunsOut zero i extractor s h = (s, refl)
    run-RunsOut zero i mapper s h = (s, refl)
    run-RunsOut zero i evaluator s h = (s, refl)
    run-RunsOut (suc left) i extractor s h =
        advance-RunsOut left i extractor s (extractor-Stays i s h)
          (λ s'. run-RunsOut left (suc i) (next settings extractor s') s')
    run-RunsOut (suc left) i mapper s h =
        advance-RunsOut left i mapper s (mapper-Stays i s h)
          (λ s'. run-RunsOut left (suc i) (next settings mapper s') s')
    run-RunsOut (suc left) i evaluator s h =
        advance-RunsOut left i evaluator s (evaluator-Stays i s h)
          (λ s'. run-RunsOut left (suc i) (next settings evaluator s') s')

    -- If masking leaves no text, as it does when it fails, the retry count starts at 0, and a retry
    -- budget and a threshold above 0.0 are set, then no recursion limit is enough for the run: it
    -- ends with the recursion error.
    pub ainvoke-RunsOut :
        (limit : ℕ) (s₀ : AgentState W)
        → s₀.retry_count ≡ 0
        → is_empty_text (sanitizer_node world.re settings s₀).sanitized_text ≡ true
        → RunsOut (ainvoke settings world limit s₀)
    unfolding ainvoke
    ainvoke-RunsOut zero s₀ h t = (s₀, refl)
    ainvoke-RunsOut (suc left) s₀ h t =
        advance-RunsOut left 0 sanitizer s₀ (sanitizer-Stays s₀ h t)
          (λ s'. run-RunsOut left 1 (next settings sanitizer s') s')
