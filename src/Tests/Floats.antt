-- ===== src/Tests/Floats.antt =====
-- An instance of the float64 parameter: exact signed fractions.
use llm_proxy_study_project.Prelude.{
  ℕ, ◌+◌, ◌-◌, ◌*◌, ◌/◌, ◌^◌, ◌≤◌, Bool, true, false, if◌then◌else◌, leb, eqb, ◌≡◌, refl, arith,
}
use llm_proxy_study_project.Prelude.Int.{ℤ, pos, negsuc, ◌≤ℤ◌}
use llm_proxy_study_project.Go.Int64.{IsInt64, min_int64}
use llm_proxy_study_project.Go.Float.{Float64, FloatLaws}

pub record Fraction : Type 0 where
  pub negative : Bool
  pub top : ℕ
  pub bottom : ℕ

abbrev differ : Bool → Bool → Bool
differ true true = false
differ true false = true
differ false b = b

abbrev of_int : ℤ → Fraction
of_int (pos n) = record { negative = false; top = n; bottom = 1 }
of_int (negsuc n) = record { negative = true; top = n + 1; bottom = 1 }

abbrev whole : Fraction → ℕ
whole x = x.top / x.bottom

abbrev round_up : Fraction → Fraction
round_up x =
    if x.negative
    then record { negative = true; top = x.top / x.bottom; bottom = 1 }
    else record { negative = false; top = (x.top + x.bottom - 1) / x.bottom; bottom = 1 }

abbrev clamp : Bool → ℕ → ℤ
clamp true n = if eqb n 0 then pos 0 else if leb n (2 ^ 63) then negsuc (n - 1) else min_int64
clamp false n = if leb n (2 ^ 63 - 1) then pos n else min_int64

abbrev pub fractions : Float64
fractions = record {
  Carrier = Fraction;
  of_int64 = of_int;
  literal = λ m k. record { negative = false; top = m; bottom = 10 ^ k };
  mul = λ x y. record {
    negative = differ x.negative y.negative;
    top = x.top * y.top;
    bottom = x.bottom * y.bottom;
  };
  div = λ x y. record {
    negative = differ x.negative y.negative;
    top = x.top * y.bottom;
    bottom = x.bottom * y.top;
  };
  ceil = round_up;
  to_int64 = λ x. clamp x.negative (whole x);
  is_zero = λ x. eqb x.top 0;
}

pub differ-nonneg : (a b : Bool) → a ≡ false → b ≡ false → differ a b ≡ false
differ-nonneg true b h k = cc
differ-nonneg false b h k = k

pub round_up-nonneg : (x : Fraction) → x.negative ≡ false → (round_up x).negative ≡ false
round_up-nonneg x h = ground arith

pub clamp-nonneg : (b : Bool) (n : ℕ) → b ≡ false → n ≤ 2 ^ 63 - 1 → pos 0 ≤ℤ clamp b n
clamp-nonneg true n h fits = cc
clamp-nonneg false n h fits = ground arith

pub clamp-IsInt64 : (b : Bool) (n : ℕ) → IsInt64 (clamp b n)
clamp-IsInt64 true n = ground arith
clamp-IsInt64 false n = ground arith

abbrev pub fraction_laws : FloatLaws fractions
fraction_laws = record {
  IsNonneg = λ x. x.negative ≡ false;
  Fits = λ x. whole x ≤ 2 ^ 63 - 1;
  of_int64-IsNonneg = λ n. refl;
  literal-IsNonneg = λ m k. refl;
  mul-IsNonneg = λ x y h k. differ-nonneg x.negative y.negative h k;
  div-IsNonneg = λ x y h k. differ-nonneg x.negative y.negative h k;
  ceil-IsNonneg = round_up-nonneg;
  to_int64-nonneg = λ x h fits. clamp-nonneg x.negative (whole x) h fits;
  to_int64-IsInt64 = λ x. clamp-IsInt64 x.negative (whole x);
  is_zero-zero = refl;
  is_zero-price = refl;
}
