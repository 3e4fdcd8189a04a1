-- ===== src/Float/Defs.antt =====
-- The operations of Python's float that the program uses, and its min and max on two floats.
use ai_lead_qualifier.Prelude.{ℕ, String, ◌≡◌, Bool, true, not, ◌&&◌, if◌then◌else◌}

pub record Float (W : Type 0) : Type 0 where
  pub literal : ℕ → W
  pub of_nat : ℕ → W
  pub add : W → W → W
  pub sub : W → W → W
  pub mul : W → W → W
  pub div : W → W → W
  pub le : W → W → Bool
  pub round : ℕ → W → W
  -- f"{x:.2f}"
  pub format : W → String

module _ {W : Type 0} ⦃fl : Float W⦄ where
  -- 0.0 and 1.0
  abbrev pub float_zero : W
  float_zero = fl.literal 0

  abbrev pub float_one : W
  float_one = fl.literal 100

  abbrev pub float_lt : W → W → Bool
  float_lt x y = not (fl.le y x)

  abbrev pub float_eq : W → W → Bool
  float_eq x y = fl.le x y && fl.le y x

  -- min(x, y) and max(x, y) return their first argument unless the second is strictly better.
  abbrev pub float_min : W → W → W
  float_min x y = if float_lt y x then y else x

  abbrev pub float_max : W → W → W
  float_max x y = if float_lt x y then y else x

infix 4 ◌≼◌
abbrev pub ◌≼◌ : {W : Type 0} ⦃fl : Float W⦄ → W → W → Type 0
◌≼◌ ⦃fl⦄ x y = fl.le x y ≡ true
