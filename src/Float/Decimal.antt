-- ===== src/Float/Decimal.antt =====
-- The laws can be met: nonnegative decimals with four digits, as a count of 1 / 10000.
-- Its `format` writes whole cents.
use ai_lead_qualifier.Prelude.{◌≡◌, refl, ℕ, zero, suc, ◌+◌, ◌-◌, ◌*◌, ◌/◌, ◌≤◌, leb, arith}
use ai_lead_qualifier.Core.Text.{show}
use ai_lead_qualifier.Float.Defs.{Float}
use ai_lead_qualifier.Float.Laws.{FloatLaws}

abbrev pub Fixed : Type 0
Fixed = ℕ

abbrev fixed_round : ℕ → Fixed → Fixed
fixed_round zero x = (x + 5000) / 10000 * 10000
fixed_round (suc zero) x = (x + 500) / 1000 * 1000
fixed_round (suc (suc zero)) x = (x + 50) / 100 * 100
fixed_round (suc (suc (suc zero))) x = (x + 5) / 10 * 10
fixed_round (suc (suc (suc (suc k)))) x = x

instance abbrev pub fixed_float : Float Fixed
fixed_float = record {
  literal = λ n. n * 100;
  of_nat = λ n. n * 10000;
  add = λ x y. x + y;
  sub = λ x y. x - y;
  mul = λ x y. x * y / 10000;
  div = λ x y. x * 10000 / y;
  le = leb;
  round = fixed_round;
  format = λ x. show ((x + 50) / 100);
}

fixed_round_mono : (k : ℕ) (x y : ℕ) → x ≤ y → fixed_round k x ≤ fixed_round k y
fixed_round_mono zero x y h = omega arith
fixed_round_mono (suc zero) x y h = omega arith
fixed_round_mono (suc (suc zero)) x y h = omega arith
fixed_round_mono (suc (suc (suc zero))) x y h = omega arith
fixed_round_mono (suc (suc (suc (suc k)))) x y h = h

fixed_round-zero : (k : ℕ) → fixed_round k 0 ≡ 0
fixed_round-zero zero = refl
fixed_round-zero (suc zero) = refl
fixed_round-zero (suc (suc zero)) = refl
fixed_round-zero (suc (suc (suc zero))) = refl
fixed_round-zero (suc (suc (suc (suc k)))) = refl

fixed_round-one : (k : ℕ) → fixed_round k 10000 ≡ 10000
fixed_round-one zero = refl
fixed_round-one (suc zero) = refl
fixed_round-one (suc (suc zero)) = refl
fixed_round-one (suc (suc (suc zero))) = refl
fixed_round-one (suc (suc (suc (suc k)))) = refl

pub fixed_laws : FloatLaws Fixed
fixed_laws = record {
  le_refl = λ x. ground arith;
  le_trans = λ x y z p q. ground arith;
  le_total = λ x y. ground arith;
  literal_mono = λ m n h. ground arith;
  round_mono = λ k x y h. ground (arith, fixed_round_mono k x y);
  round-zero = fixed_round-zero;
  round-one = fixed_round-one;
  add_nonneg = λ x y p q. ground arith;
}
