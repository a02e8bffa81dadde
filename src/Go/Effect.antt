-- ===== src/Go/Effect.antt =====
-- A Go function that returns (A, error), over a state S that survives an error.
use llm_proxy_study_project.Prelude.{String, ◌<>◌, ◌≡◌, refl, ◌⊎◌, inl, inr}

-- The program reads nothing of an error but its text, `err.Error()`.
abbrev pub Error : Type 0
Error = String

pub data Result (A : Type 0) : Type 0 where
  ok : A → Result A
  err : Error → Result A

abbrev pub Op : Type 0 → Type 0 → Type 0
Op S A = S → Result A × S

module _ {S : Type 0} where
  abbrev pub pure : {A : Type 0} → A → Op S A
  pure a s = (ok a, s)

  abbrev pub fail : {A : Type 0} → Error → Op S A
  fail e s = (err e, s)

  -- What follows a call that has returned.
  abbrev pub then_run : {A B : Type 0} → (A → Op S B) → Result A × S → Result B × S
  then_run f (ok a, s) = f a s
  then_run f (err e, s) = (err e, s)

  infixl 5 ◌>>=◌ ◌>>◌
  abbrev pub ◌>>=◌ : {A B : Type 0} → Op S A → (A → Op S B) → Op S B
  ◌>>=◌ m f s = then_run f (m s)

  abbrev pub ◌>>◌ : {A B : Type 0} → Op S A → Op S B → Op S B
  m >> k = m >>= λ _. k

  abbrev pub on_error : {A : Type 0} → (Error → Result A) → Result A × S → Result A × S
  on_error f (ok a, s) = (ok a, s)
  on_error f (err e, s) = (f e, s)

  -- fmt.Errorf("...: %w", err) on the error of a call; the text before ": " is the first argument.
  abbrev pub wrap : {A : Type 0} → String → Op S A → Op S A
  wrap what m s = on_error (λ e. err (what <> ": " <> e)) (m s)

  -- A call whose error is replaced by another one.
  abbrev pub or_fail : {A : Type 0} → Op S A → Error → Op S A
  or_fail m e s = on_error (λ _. err e) (m s)

  -- A call whose error is replaced by a value.
  abbrev pub or_value : {A : Type 0} → Op S A → A → Op S A
  or_value m a s = on_error (λ _. ok a) (m s)

pub Result-cases :
    {A : Type 0} (r : Result A) → ((a : A) × (r ≡ ok a)) ⊎ ((e : Error) × (r ≡ err e))
Result-cases (ok a) = inl (a, refl)
Result-cases (err e) = inr (e, refl)
