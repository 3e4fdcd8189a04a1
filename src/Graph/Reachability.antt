-- ===== src/Graph/Reachability.antt =====
-- The states that a run passes through, and what holds of every run that ends or is suspended.
use ai_lead_qualifier.Prelude.{ℕ, zero, suc, ◌<◌, ◌≡◌, refl}
use ai_lead_qualifier.Float.{Float}
use ai_lead_qualifier.Core.Exceptions.{Answer, ok, raised}
use ai_lead_qualifier.Core.Config.{Settings}
use ai_lead_qualifier.Agents.State.{AgentState}
use ai_lead_qualifier.Graph.{
  World, Node, sanitizer, extractor, mapper, evaluator, calculator, delivery, hitl_interrupt,
  finish, Outcome, finished, interrupted, crashed, next, execute, advance, run, ainvoke,
}
use ai_lead_qualifier.Graph.Steps.{
  At, IsActive, sanitizes, extracts, maps, evaluates, calculates, delivers, step-At,
}

module _ {W : Type 0} ⦃fl : Float W⦄ (settings : Settings W) (world : World W)
    (s₀ : AgentState W) where
  -- Superstep `i` finds the run before this node, in this state.
  pub data Reach : ℕ → Node → AgentState W → Type 0 where
    start : Reach 0 sanitizer s₀
    step :
        {i : ℕ} {n : Node} {s : AgentState W} (s' : AgentState W)
        → IsActive n
        → Reach i n s
        → execute settings world i n s ≡ ok s'
        → Reach (suc i) (next settings n s') s'

  module _ (attempts : 0 < settings.delivery_max_attempts) where
    -- Before every node of every run the state is as `At` says.
    pub Reach-At :
        At settings sanitizer s₀
        → {i : ℕ} {n : Node} {s : AgentState W} → Reach i n s
        → At settings n s
    Reach-At h start = h
    Reach-At h (step {i} {s} s' active r e) =
        step-At settings world i attempts s s' active (Reach-At h r) e

  -- A run ends in a state that it reached.
  abbrev pub EndsIn : Outcome W → Type 0
  EndsIn (finished s) = (i : ℕ) × Reach i finish s
  EndsIn (interrupted s payload) = (i : ℕ) × Reach i hitl_interrupt s
  EndsIn (crashed exc s) = (i : ℕ) × (n : Node) × Reach i n s

  advance-EndsIn :
      (left i : ℕ) {n : Node} (s : AgentState W) (r : Answer (AgentState W))
      → IsActive n
      → Reach i n s
      → execute settings world i n s ≡ r
      → ((s' : AgentState W)
          → Reach (suc i) (next settings n s') s'
          → EndsIn (run settings world left (suc i) (next settings n s') s'))
      → EndsIn (advance settings (run settings world left (suc i)) s n r)
  advance-EndsIn left i {n} s (raised exc) active r e rest = (i, n, r)
  advance-EndsIn left i s (ok s') active r e rest = rest s' (step s' active r e)

  run-EndsIn :
      (left i : ℕ) (n : Node) (s : AgentState W)
      → Reach i n s
      → EndsIn (run settings world left i n s)
  unfolding run
  run-EndsIn zero i finish s r = (i, r)
  run-EndsIn (suc left) i finish s r = (i, r)
  run-EndsIn zero i n s r = (i, n, r)
  run-EndsIn (suc left) i hitl_interrupt s r = (i, r)
  run-EndsIn (suc left) i sanitizer s r =
      advance-EndsIn left i s (execute settings world i sanitizer s) sanitizes r refl
        (λ s'. run-EndsIn left (suc i) (next settings sanitizer s') s')
  run-EndsIn (suc left) i extractor s r =
      advance-EndsIn left i s (execute settings world i extractor s) extracts r refl
        (λ s'. run-EndsIn left (suc i) (next settings extractor s') s')
  run-EndsIn (suc left) i mapper s r =
      advance-EndsIn left i s (execute settings world i mapper s) maps r refl
        (λ s'. run-EndsIn left (suc i) (next settings mapper s') s')
  run-EndsIn (suc left) i evaluator s r =
      advance-EndsIn left i s (execute settings world i evaluator s) evaluates r refl
        (λ s'. run-EndsIn left (suc i) (next settings evaluator s') s')
  run-EndsIn (suc left) i calculator s r =
      advance-EndsIn left i s (execute settings world i calculator s) calculates r refl
        (λ s'. run-EndsIn left (suc i) (next settings calculator s') s')
  run-EndsIn (suc left) i delivery s r =
      advance-EndsIn left i s (execute settings world i delivery s) delivers r refl
        (λ s'. run-EndsIn left (suc i) (next settings delivery s') s')

  pub ainvoke-EndsIn : (limit : ℕ) → EndsIn (ainvoke settings world limit s₀)
  unfolding ainvoke
  ainvoke-EndsIn limit = run-EndsIn limit 0 sanitizer s₀ start
