-- ===== src/Client/Keeping.antt =====
-- What a client's call leaves: the world that the exchange leaves, if there was one.
use llm_proxy_study_project.Prelude.{
  String, ◌<>◌, Option, none, some, Bool, true, false, eqb, if◌then◌else◌,
}
use llm_proxy_study_project.Go.Effect.{Result, ok, err, Op}
use llm_proxy_study_project.Go.Decimal.{decimal}
use llm_proxy_study_project.Go.Url.{Target, parse}
use llm_proxy_study_project.Go.Json.{Payload}
use llm_proxy_study_project.Go.Http.{Response}
use llm_proxy_study_project.Client.{
  HttpClient, body_of, decode_info, decode_balance, decoded, get_request, answer, with_url,
  validate, balance,
}

module _ {W : Type 0} (P : W → Type 0) (c : HttpClient W) where
  pub answer_keeps :
      {A : Type 0} (what : String) (decode : Payload → Option A) (x : Result Response × W)
      → P x.1
      → P (answer c what decode x).1
  answer_keeps what decode (err e, w) h = h
  answer_keeps {A} what decode (ok r, w) h = by_test (eqb r.status 200)
    where
      by_body :
          (o : Option A)
          → P
              (elim o as (λ _. Result A × W) [
                | none ↦ (err (c.body_error (body_of r.content)), w)
                | some a ↦ (ok a, w)
              ]).1
      by_body none = h
      by_body (some a) = h

      by_test :
          (b : Bool)
          → P
              (if b
                then decoded c decode (body_of r.content) w
                else (err (what <> ": status " <> decimal r.status), w)).1
      by_test true = by_body (decode (body_of r.content))
      by_test false = h

  with_url_keeps :
      {A : Type 0} (url : String) (next : Target → Op W A) (w : W)
      → P w
      → ((t : Target) → P (next t w).1)
      → P (with_url c url next w).1
  with_url_keeps {A} url next w unsent h = by_parse (parse url)
    where
      by_parse :
          (o : Option Target)
          → P
              (elim o as (λ _. Result A × W) [
                | none ↦ (err (c.url_error url), w)
                | some t ↦ next t w
              ]).1
      by_parse none = unsent
      by_parse (some t) = h t

  -- Validate and Balance send one GET request, or none.
  pub validate_keeps :
      (key : String) (w : W)
      → P w
      → ((t : Target) → P (c.do_request (get_request t) w).1)
      → P (validate c key w).1
  unfolding validate
  validate_keeps key w unsent h =
      with_url_keeps ("/auth/validate?api_key=" <> key)
        (λ t v. answer c "auth validate" decode_info (c.do_request (get_request t) v)) w unsent
        (λ t. answer_keeps "auth validate" decode_info (c.do_request (get_request t) w) (h t))

  pub balance_keeps :
      (user : String) (w : W)
      → P w
      → ((t : Target) → P (c.do_request (get_request t) w).1)
      → P (balance c user w).1
  unfolding balance
  balance_keeps user w unsent h =
      with_url_keeps ("/billing/balance/" <> user)
        (λ t v. answer c "billing balance" decode_balance (c.do_request (get_request t) v)) w unsent
        (λ t. answer_keeps "billing balance" decode_balance (c.do_request (get_request t) w) (h t))
