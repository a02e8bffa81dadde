-- ===== src/Go/Strconv.antt =====
-- strconv.Atoi, where the program drops its error: the number that it returns.
use Prim.Native.Char.{code}
use llm_proxy_study_project.Prelude.{
  ℕ, ◌-◌, ◌^◌, ◌<◌, String, ◌==◌, Option, none, some, false, ◌≡◌, refl, eqb, ltb, leb,
  if◌then◌else◌, arith,
}
use llm_proxy_study_project.Prelude.Int.{ℤ, pos, negsuc}
use llm_proxy_study_project.Go.Int64.{min_int64, max_int64}
use llm_proxy_study_project.Go.Decimal.{number, decimal, number-decimal, decimal-nonempty}

-- A number without a sign, which has a digit at least.
unfoldable pub natural : String → Option ℕ
natural s = if s == "" then none else number s 0

-- A syntax error gives zero, and a number out of range the nearest one in it.
abbrev positive : Option ℕ → ℤ
positive none = pos 0
positive (some n) = if ltb n (2 ^ 63) then pos n else max_int64

abbrev negative : Option ℕ → ℤ
negative none = pos 0
negative (some n) = if eqb n 0 then pos 0 else if leb n (2 ^ 63) then negsuc (n - 1) else min_int64

unfoldable pub atoi : String → ℤ
unfolding natural
atoi String.[] = pos 0
atoi (String.◌∷◌ c s) =
    if eqb (code c) b'-'
    then negative (natural s)
    else if eqb (code c) b'+'
    then positive (natural s)
    else positive (natural (String.◌∷◌ c s))

atoi_lem :
    (s : String) (n : ℕ) → number s 0 ≡ some n → (s == "") ≡ false → n < 2 ^ 63 → atoi s ≡ pos n
unfolding atoi number natural
atoi_lem String.[] n h e b = absurd (ground arith)
atoi_lem (String.◌∷◌ c s) n h e b = ground (arith, h, e, b)

-- A number below 2^63 is read back.
pub atoi-decimal : (n : ℕ) → n < 2 ^ 63 → atoi (decimal n) ≡ pos n
atoi-decimal n h = atoi_lem (decimal n) n (number-decimal n) (decimal-nonempty n) h

test_atoi : atoi "300" ≡ pos 300
unfolding atoi natural number
test_atoi = refl

test_atoi_signed : atoi "-15" ≡ negsuc 14
unfolding atoi natural number
test_atoi_signed = refl

test_atoi_wrong : atoi "5m" ≡ pos 0
unfolding atoi natural number
test_atoi_wrong = refl
