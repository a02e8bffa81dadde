-- ===== src/Go/Decimal.antt =====
-- The verb %d of package fmt for a number of zero or more, and that it loses nothing.
use Prim.Native.Char.{Char, code}
use text.Mathlib.TextLemmas.{nil-append, cons-append}
use llm_proxy_study_project.Prelude.{
  ℕ, zero, suc, ◌+◌, ◌-◌, ◌*◌, ◌/◌, ◌%◌, ◌<◌, String, ◌<>◌, ◌≡◌, refl, sym, ap, ◌∙◌, ltb, arith,
  if◌then◌else◌, Bool-cases, inl, inr, Bool, ◌&&◌, leb, Option, some, none, ◌==◌, eq_iff, true,
  false,
}

digit : ℕ → String
digit zero = "0"
digit (suc zero) = "1"
digit (suc (suc zero)) = "2"
digit (suc (suc (suc zero))) = "3"
digit (suc (suc (suc (suc zero)))) = "4"
digit (suc (suc (suc (suc (suc zero))))) = "5"
digit (suc (suc (suc (suc (suc (suc zero)))))) = "6"
digit (suc (suc (suc (suc (suc (suc (suc zero))))))) = "7"
digit (suc (suc (suc (suc (suc (suc (suc (suc zero)))))))) = "8"
digit _ = "9"

-- The digits of a number in front of a text. The fuel is more than the number of digits.
emit : ℕ → ℕ → String → String
emit zero n out = out
emit (suc f) n out =
    let more = emit f (n / 10) (digit (n % 10) <> out) in if ltb n 10 then digit n <> out else more

-- fmt.Sprintf("%d", n)
unfoldable pub decimal : ℕ → String
unfolding emit digit
decimal n = emit (suc n) n ""

abbrev pub is_digit : Char → Bool
is_digit c = leb b'0' (code c) && leb (code c) b'9'

-- The number that a text of digits continues.
unfoldable pub number : String → ℕ → Option ℕ
number String.[] n = some n
number (String.◌∷◌ c s) n =
    let rest = number s (n * 10 + (code c - b'0')) in if is_digit c then rest else none

number-digit : (d n : ℕ) (s : String) → d < 10 → number (digit d <> s) n ≡ number s (n * 10 + d)
unfolding number digit
number-digit zero n s h = rw (cons-append, nil-append) refl
number-digit (suc zero) n s h = rw (cons-append, nil-append) refl
number-digit (suc (suc zero)) n s h = rw (cons-append, nil-append) refl
number-digit (suc (suc (suc zero))) n s h = rw (cons-append, nil-append) refl
number-digit (suc (suc (suc (suc zero)))) n s h = rw (cons-append, nil-append) refl
number-digit (suc (suc (suc (suc (suc zero))))) n s h = rw (cons-append, nil-append) refl
number-digit (suc (suc (suc (suc (suc (suc zero)))))) n s h = rw (cons-append, nil-append) refl
number-digit (suc (suc (suc (suc (suc (suc (suc zero))))))) n s h =
    rw (cons-append, nil-append) refl
number-digit (suc (suc (suc (suc (suc (suc (suc (suc zero)))))))) n s h =
    rw (cons-append, nil-append) refl
number-digit (suc (suc (suc (suc (suc (suc (suc (suc (suc zero))))))))) n s h =
    rw (cons-append, nil-append) refl
number-digit (suc (suc (suc (suc (suc (suc (suc (suc (suc (suc d)))))))))) n s h =
    absurd (omega arith)

number-emit : (f n : ℕ) (out : String) → n < f → number (emit f n out) 0 ≡ number out n
unfolding emit
number-emit zero n out h = elim h [ ]
number-emit (suc f) n out h = elim (Bool-cases (ltb n 10)) [
  | inl small ↦ rw small (number-digit n 0 out (ground arith) ∙ ap (number out) (omega arith))
  | inr large ↦ rw large (
      number-emit f (n / 10) (digit (n % 10) <> out) (ground arith)
      ∙ number-digit (n % 10) (n / 10) out (omega arith)
      ∙ ap (number out) (omega arith))
]

-- The text of a number is read back.
pub number-decimal : (n : ℕ) → number (decimal n) 0 ≡ some n
unfolding decimal number
number-decimal n = number-emit (suc n) n "" (omega arith)

-- Two numbers with the same text are equal.
pub decimal-injective : (m n : ℕ) → decimal m ≡ decimal n → m ≡ n
decimal-injective m n h =
    let same : some m ≡ some n =
      sym (number-decimal m) ∙ ap (λ s. number s 0) h ∙ number-decimal n in
    ground (arith, same)

pub decimal-nonempty : (n : ℕ) → (decimal n == "") ≡ false
unfolding decimal number
decimal-nonempty n = elim (Bool-cases (decimal n == "")) [
  | inl empty ↦
      let none_left : some n ≡ some 0 =
        sym (number-decimal n) ∙ ap (λ s. number s 0) ((eq_iff (decimal n) "").0 empty) in
      let zero_text : (decimal 0 == "") ≡ true =
        ap (λ m. decimal m == "") {x = 0} {y = n} (ground (arith, none_left)) ∙ empty in
      absurd (ground (arith, zero_text))
  | inr other ↦ other
]

test_decimal : decimal 402 ≡ "402"
unfolding decimal
test_decimal = refl
