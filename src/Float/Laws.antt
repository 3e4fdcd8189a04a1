-- ===== src/Float/Laws.antt =====
-- What Python documents of floats other than NaN, as far as the proofs rely on it.
use mathlib.Core.Path.{subst}
use ai_lead_qualifier.Prelude.{ℕ, ◌≤◌, ◌≡◌, ◌⊎◌, arith}
use ai_lead_qualifier.Float.Defs.{Float, ◌≼◌, float_min, float_max}

pub record FloatLaws (W : Type 0) ⦃fl : Float W⦄ : Type 0 where
  pub le_refl : (x : W) → x ≼ x
  pub le_trans : (x y z : W) → x ≼ y → y ≼ z → x ≼ z
  pub le_total : (x y : W) → (x ≼ y) ⊎ (y ≼ x)
  pub literal_mono : (m n : ℕ) → m ≤ n → fl.literal m ≼ fl.literal n
  pub round_mono : (k : ℕ) (x y : W) → x ≼ y → fl.round k x ≼ fl.round k y
  pub round-zero : (k : ℕ) → fl.round k (fl.literal 0) ≡ fl.literal 0
  pub round-one : (k : ℕ) → fl.round k (fl.literal 100) ≡ fl.literal 100
  pub add_nonneg : (x y : W) → fl.literal 0 ≼ x → fl.literal 0 ≼ y → fl.literal 0 ≼ fl.add x y

module _ {W : Type 0} ⦃fl : Float W⦄ (laws : FloatLaws W) where
  pub le-float_max : (x y : W) → y ≼ float_max x y
  le-float_max x y = ground (arith, laws.le_total x y, laws.le_refl y, laws.le_refl x)

  pub float_min-le : (x y : W) → float_min x y ≼ y
  float_min-le x y = ground (arith, laws.le_total x y, laws.le_refl y)

  pub le-float_min : (w x y : W) → w ≼ x → w ≼ y → w ≼ float_min x y
  le-float_min w x y p q = ground arith

  -- round(min(max(x, 0.0), 1.0), k) lies in [0, 1].
  pub clamp_bounds :
      (k : ℕ) (x : W)
      → let r = fl.round k (float_min (float_max x (fl.literal 0)) (fl.literal 100)) in
        (fl.literal 0 ≼ r) × (r ≼ fl.literal 100)
  clamp_bounds k x =
      let c = float_min (float_max x (fl.literal 0)) (fl.literal 100) in
      let low : fl.literal 0 ≼ c =
        le-float_min _ _ _ (le-float_max x _) (laws.literal_mono 0 100 (omega arith)) in
      (
        subst (λ o. o ≼ fl.round k c) (laws.round-zero k) (laws.round_mono k (fl.literal 0) c low),
        subst (λ o. fl.round k c ≼ o) (laws.round-one k)
            (laws.round_mono k c (fl.literal 100) (float_min-le _ _)),
      )
