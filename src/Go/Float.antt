-- ===== src/Go/Float.antt =====
-- float64 as the billing service uses it. The arithmetic is not defined here: it is an argument,
-- with the facts of IEEE 754 and of Go's conversions that the pricing rests on.
use llm_proxy_study_project.Prelude.{ℕ, Bool, true, false, ◌≡◌}
use llm_proxy_study_project.Prelude.Int.{ℤ, pos, ◌≤ℤ◌}
use llm_proxy_study_project.Go.Int64.{IsInt64}

pub record Float64 : Type 1 where
  pub Carrier : Type 0
  -- float64(n)
  pub of_int64 : ℤ → Carrier
  -- The constant m / 10^k of the source.
  pub literal : ℕ → ℕ → Carrier
  pub mul : Carrier → Carrier → Carrier
  pub div : Carrier → Carrier → Carrier
  -- math.Ceil
  pub ceil : Carrier → Carrier
  -- int64(x)
  pub to_int64 : Carrier → ℤ
  -- x == 0
  pub is_zero : Carrier → Bool

-- "Not negative" is said of NaN too; the conversion to int64 is defined by Go only for a value whose
-- integer part fits.
pub record FloatLaws (fl : Float64) : Type 1 where
  pub IsNonneg : fl.Carrier → Type 0
  pub Fits : fl.Carrier → Type 0
  pub of_int64-IsNonneg : (n : ℕ) → IsNonneg (fl.of_int64 (pos n))
  pub literal-IsNonneg : (m k : ℕ) → IsNonneg (fl.literal m k)
  pub mul-IsNonneg : (x y : fl.Carrier) → IsNonneg x → IsNonneg y → IsNonneg (fl.mul x y)
  pub div-IsNonneg : (x y : fl.Carrier) → IsNonneg x → IsNonneg y → IsNonneg (fl.div x y)
  pub ceil-IsNonneg : (x : fl.Carrier) → IsNonneg x → IsNonneg (fl.ceil x)
  pub to_int64-nonneg : (x : fl.Carrier) → IsNonneg x → Fits x → pos 0 ≤ℤ fl.to_int64 x
  pub to_int64-IsInt64 : (x : fl.Carrier) → IsInt64 (fl.to_int64 x)
  pub is_zero-zero : fl.is_zero (fl.literal 0 0) ≡ true
  pub is_zero-price : fl.is_zero (fl.literal 3 2) ≡ false
