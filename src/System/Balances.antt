-- ===== src/System/Balances.antt =====
-- What the proxy is told of a balance: the HTTP client of pkg/client over the billing router.
use llm_proxy_study_project.Prelude.{
  suc, String, ◌<>◌, ◌==◌, Option, none, some, [], ◌∷◌, ◌≡◌, refl, sym, ap, ◌∙◌, arith, Bool-cases,
  inl, inr, eq_iff,
}
use llm_proxy_study_project.Prelude.Int.{ℤ}
use llm_proxy_study_project.Go.Effect.{Result, ok, err}
use llm_proxy_study_project.Go.Url.{Target, get}
use llm_proxy_study_project.Go.Url.Plain.{IsPlain, parse_balance}
use llm_proxy_study_project.Go.Http.{Request, Response, write_json, not_found}
use llm_proxy_study_project.Stats.{Stats, record_status, middleware}
use llm_proxy_study_project.Billing.Store.{Db}
use llm_proxy_study_project.Billing.Store.Laws.{read_balance}
use llm_proxy_study_project.Billing.Handler.{balance_json}
use llm_proxy_study_project.Billing.Handler as BillingHandler
use llm_proxy_study_project.Billing.Handler.Answers.{router_balance}
use llm_proxy_study_project.Client.{get_request, answer, decode_balance, balance}
use llm_proxy_study_project.System.{
  World, Setting, Fault, unsent, unanswered, received, exchange, billing_router, call_billing,
  billing_http,
}

module _ (e : Setting) where
  nameless :
      (r : Request) (s : Stats × Db)
      → r.path ≡ "billing" ∷ "balance" ∷ "" ∷ []
      → billing_router e r s ≡ (not_found, (record_status 404 s.0, s.1))
  unfolding BillingHandler.router BillingHandler.route middleware
  nameless r s path = rw (BillingHandler.router, path) refl

module _ {V : Type 0} (e : Setting) where
  told_balance :
      (user : String) (v b : ℤ) (w w' : World V)
      → answer
          (billing_http e)
          "billing balance"
          decode_balance
          (ok (write_json 200 (balance_json user v)), w)
        ≡ (ok b, w')
      → b ≡ v
  unfolding decode_balance
  told_balance user v b w w' h = ground arith

  -- Whatever the network does, a balance that the client is told of is the one that GetBalance of
  -- the billing service returns.
  pub balance_known :
      (user : String) (w w' : World V) (b : ℤ)
      → IsPlain user
      → balance (billing_http e) user w ≡ (ok b, w')
      → b ≡ read_balance user (w.billing).1
  unfolding balance
  balance_known user w w' b h done = by_network (e.network w.calls) (sym (parsed) ∙ done)
    where
      request : Request
      request =
          received (e.clock w.calls)
            (get_request (record { path = "billing" ∷ "balance" ∷ user ∷ []; query = get [] }))

      told : Option Fault → Result ℤ × World V
      told fault = answer (billing_http e) "billing balance" decode_balance (
          let (res, billing) = exchange fault (billing_router e) request w.billing in
          (res, record w { billing = billing; calls = suc w.calls }))

      reply_of : Response × (Stats × Db) → Result ℤ × World V
      reply_of x =
          answer (billing_http e) "billing balance" decode_balance
            (ok x.0, record w { billing = x.1; calls = suc w.calls })

      parsed : balance (billing_http e) user w ≡ told (e.network w.calls)
      parsed =
          ap
            (λ (t : Option Target). elim t as (λ _. Result ℤ × World V) [
              | none ↦ (err (e.url_error ("/billing/balance/" <> user)), w)
              | some t ↦
                  answer (billing_http e) "billing balance" decode_balance
                    (call_billing e (get_request t) w)
            ])
            (parse_balance user h)

      by_network :
          (fault : Option Fault) → told fault ≡ (ok b, w') → b ≡ read_balance user (w.billing).1
      by_network none k = elim (Bool-cases (user == "")) [
        | inl empty ↦
            let gone =
              nameless e request w.billing
                (ap (λ u. "billing" ∷ "balance" ∷ u ∷ []) ((eq_iff user "").0 empty)) in
            let wrong : reply_of (not_found, (record_status 404 (w.billing).0, (w.billing).1))
                ≡ (ok b, w') =
              sym (ap reply_of gone) ∙ k in
            absurd (ground arith)
        | inr named ↦ told_balance user (read_balance user (w.billing).1) b _ w' (
            sym (
              ap reply_of (
                router_balance e.format_time user request (w.billing).0 (w.billing).1 refl refl
                  named))
            ∙ k)
      ]
      by_network (some (unsent msg)) k = absurd (ground arith)
      by_network (some (unanswered msg)) k = absurd (ground arith)
