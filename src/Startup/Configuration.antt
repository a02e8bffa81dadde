-- ===== src/Startup/Configuration.antt =====
-- What the programs read from their environment.
use llm_proxy_study_project.Prelude.{
  ℕ, suc, ◌-◌, ◌*◌, ◌^◌, ◌<◌, String, ◌==◌, Option, some, Bool, true, false, List, [], ◌∷◌, ◌≡◌,
  refl, ap, ◌∙◌, if◌then◌else◌, ◌||◌, arith,
}
use llm_proxy_study_project.Prelude.Int.{ℤ, pos, negsuc}
use llm_proxy_study_project.Go.Effect.{Error}
use llm_proxy_study_project.Go.Int64.{wrap64, wrap64_of_IsInt64}
use llm_proxy_study_project.Go.Decimal.{decimal, decimal-nonempty}
use llm_proxy_study_project.Go.Strconv.{atoi, atoi-decimal}
use llm_proxy_study_project.Go.Float.{Float64}
use llm_proxy_study_project.Billing.Service.{lookup, price_of, default_price}
use llm_proxy_study_project.Startup.{getenv}

-- time.Duration(seconds) * time.Second, an int64 of nanoseconds
unfoldable pub in_nanoseconds : ℤ → ℤ
in_nanoseconds (pos n) = wrap64 (pos (n * 10 ^ 9))
in_nanoseconds (negsuc n) = wrap64 (negsuc (suc n * 10 ^ 9 - 1))

-- cacheTTL of the proxy
unfoldable pub cache_ttl : (String → String) → ℤ
cache_ttl env = in_nanoseconds (atoi (getenv env "CACHE_TTL" "300"))

getenv_set :
    (env : String → String) (key def text : String)
    → env key ≡ text
    → (text == "") ≡ false
    → getenv env key def ≡ text
unfolding getenv
getenv_set env key def text set named =
    ap (λ t. if t == "" then def else t) set ∙ ap (λ b. if b then def else text) named

-- A CACHE_TTL in decimal digits is a number of seconds, as long as their nanoseconds fit in int64.
pub cache_ttl_exact :
    (env : String → String) (n : ℕ)
    → env "CACHE_TTL" ≡ decimal n
    → n * 10 ^ 9 < 2 ^ 63
    → cache_ttl env ≡ pos (n * 10 ^ 9)
unfolding cache_ttl in_nanoseconds
cache_ttl_exact env n set room =
    ap (λ t. in_nanoseconds (atoi t))
      (getenv_set env "CACHE_TTL" "300" (decimal n) set (decimal-nonempty n))
    ∙ ap in_nanoseconds (atoi-decimal n (omega arith))
    ∙ wrap64_of_IsInt64 (pos (n * 10 ^ 9)) (ground arith)

-- The argument beside the arithmetic is strconv.ParseFloat, with 64 bits: main drops its error.
module _ (fl : Float64) (parse_float : String → fl.Carrier × Option Error)
    (env : String → String) where
  abbrev pub price_gpt4 : fl.Carrier
  price_gpt4 = (parse_float (getenv env "PRICE_GPT4" "0.03")).0

  -- The prices of the billing service.
  unfoldable pub prices : List (String × fl.Carrier)
  prices = ("gpt-4", price_gpt4) ∷ ("gpt-4-turbo", price_gpt4) ∷ ("default", price_gpt4) ∷ []

  -- The models that main lists.
  abbrev pub is_listed : String → Bool
  is_listed model = "gpt-4" == model || ("gpt-4-turbo" == model || "default" == model)

  price_listed : (model : String) → is_listed model ≡ true → price_of fl prices model ≡ price_gpt4
  unfolding price_of prices lookup
  price_listed model h = ground (arith, h)

  price_unlisted :
      (model : String)
      → is_listed model ≡ false
      → price_of fl prices model ≡ default_price fl (some price_gpt4)
  unfolding price_of prices lookup
  price_unlisted model h = ground (arith, h)

  -- If PRICE_GPT4 is read as zero, as ParseFloat does with a text that is no number, the price of
  -- gpt-4 and gpt-4-turbo is zero, while that of a model that main does not list is 0.03.
  pub unreadable_price :
      (model : String)
      → fl.is_zero price_gpt4 ≡ true
      → is_listed model ≡ false
      → (fl.is_zero (price_of fl prices "gpt-4") ≡ true)
        × (fl.is_zero (price_of fl prices "gpt-4-turbo") ≡ true)
        × (price_of fl prices model ≡ fl.literal 3 2)
  unfolding default_price
  unreadable_price model zero_price unlisted = (
    rw (price_listed "gpt-4" refl) zero_price,
    rw (price_listed "gpt-4-turbo" refl) zero_price,
    price_unlisted model unlisted ∙ ap (λ b. if b then fl.literal 3 2 else price_gpt4) zero_price,
  )
