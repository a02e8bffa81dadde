-- ===== src/Go/Int64.antt =====
-- Go's int64 (and int, which has 64 bits on the platforms that the services are built for), as
-- integers in a range: an operation of the source that can leave the range wraps around.
use llm_proxy_study_project.Prelude.{
  ℕ, ◌-◌, ◌%◌, ◌^◌, ◌≤◌, ◌<◌, ◌≡◌, Bool, ◌&&◌, ltb, leb, arith, if◌then◌else◌,
}
use llm_proxy_study_project.Prelude.Int.{ℤ, pos, negsuc, pos_part, neg_part, ◌+ℤ◌, ◌-ℤ◌, ◌≤ℤ◌}

abbrev pub min_int64 : ℤ
min_int64 = negsuc (2 ^ 63 - 1)

abbrev pub max_int64 : ℤ
max_int64 = pos (2 ^ 63 - 1)

abbrev pub IsInt64 : ℤ → Type 0
IsInt64 a = (pos_part a < 2 ^ 63) × (neg_part a ≤ 2 ^ 63)

abbrev pub is_int64 : ℤ → Bool
is_int64 a = ltb (pos_part a) (2 ^ 63) && leb (neg_part a) (2 ^ 63)

-- The bit pattern of an integer, as an unsigned number.
bits : ℤ → ℕ
bits (pos n) = n % 2 ^ 64
bits (negsuc n) = 2 ^ 64 - 1 - n % 2 ^ 64

-- The int64 with the bit pattern of an integer.
unfoldable pub wrap64 : ℤ → ℤ
unfolding bits
wrap64 a = let u = bits a in if ltb u (2 ^ 63) then pos u else negsuc (2 ^ 64 - 1 - u)

unfoldable pub add64 : ℤ → ℤ → ℤ
add64 a b = wrap64 (a +ℤ b)

unfoldable pub neg64 : ℤ → ℤ
neg64 a = wrap64 (pos 0 -ℤ a)

pub wrap64-IsInt64 : (a : ℤ) → IsInt64 (wrap64 a)
unfolding wrap64
wrap64-IsInt64 (pos n) = ground arith
wrap64-IsInt64 (negsuc n) = ground arith

-- In range, wrapping changes nothing.
pub wrap64_of_IsInt64 : (a : ℤ) → IsInt64 a → wrap64 a ≡ a
unfolding wrap64
wrap64_of_IsInt64 (pos n) h = ground arith
wrap64_of_IsInt64 (negsuc n) h = ground arith

pub add64_of_IsInt64 : (a b : ℤ) → IsInt64 (a +ℤ b) → add64 a b ≡ a +ℤ b
unfolding add64
add64_of_IsInt64 a b h = wrap64_of_IsInt64 (a +ℤ b) h

-- The negation of an amount of zero or more is exact.
pub neg64_of_nonneg : (a : ℤ) → IsInt64 a → pos 0 ≤ℤ a → neg64 a ≡ pos 0 -ℤ a
unfolding neg64 ◌-ℤ◌
neg64_of_nonneg a h p = wrap64_of_IsInt64 (pos 0 -ℤ a) (ground arith)
