-- ===== src/LlmProxy/Handler/Statuses.antt =====
-- The statuses of the completions endpoint against what Complete did.
use llm_proxy_study_project.Prelude.{
  String, ◌<>◌, ◌==◌, Option, none, some, true, false, ◌≡◌, refl, sym, ap, ◌∙◌, inl, inr, arith,
  Option-cases, Bool-cases, if◌then◌else◌, contains, contains-append, trim_prefix,
}
use llm_proxy_study_project.Prelude.Int.{ℤ, ltb_ℤ}
use llm_proxy_study_project.Go.Effect.{Error, Result, ok, err}
use llm_proxy_study_project.Go.Http.{Request, Response, write_json, write_error}
use llm_proxy_study_project.Auth.Service.{UserInfo}
use llm_proxy_study_project.LlmProxy.Provider.{CompletionRequest, CompletionResponse}
use llm_proxy_study_project.LlmProxy.Service.{Service, min_balance, if_paid, if_known, complete}
use llm_proxy_study_project.LlmProxy.Service.Flow.{IsPaid, complete-IsPaid, complete_poor}
use llm_proxy_study_project.LlmProxy.Handler.{
  llm_service, decode_body, error_status, completion_json, written, completions,
}

-- The key that a request shows.
abbrev pub key_of : Request → String
key_of r = trim_prefix r.authorization "Bearer "

error_status-auth : (e : Error) → error_status ("auth: " <> e) ≡ 401
unfolding error_status contains
error_status-auth e =
    ap
      (λ b. if b then 401 else if contains ("auth: " <> e) "insufficient balance" then 402 else 500)
      (contains-append "auth: " "auth" e refl)

not-200 : (e : Error) → error_status e ≡ 200 → ⊥
unfolding error_status
not-200 e h = ground arith

module _ {W : Type 0} (s : Service W) where
  -- What stands behind an answer with status 200.
  pub record IsServed (r : Request) (w : W) (resp : Response) (w' : W) : Type 0 where
    pub keyed : (key_of r == "") ≡ false
    pub req : CompletionRequest
    pub decoded : decode_body r.body ≡ some req
    pub answer : CompletionResponse
    pub paid : IsPaid s (key_of r) req w answer w'
    pub shown : resp ≡ write_json 200 (completion_json answer)

  -- With a key and a body that decodes, the endpoint shows what Complete returned.
  completions-complete :
      (r : Request) (w : W) (req : CompletionRequest)
      → (key_of r == "") ≡ false
      → decode_body r.body ≡ some req
      → completions (llm_service s) r w ≡ written (llm_service s) (complete s (key_of r) req w)
  unfolding completions
  completions-complete r w req keyed decoded = rw (completions, keyed, decoded) refl

  written-200 :
      (r : Option (Result CompletionResponse × W)) (resp : Response) (w' : W)
      → written (llm_service s) r ≡ some (resp, w')
      → resp.status ≡ 200
      → (answer : CompletionResponse) × (r ≡ some (ok answer, w'))
        × (resp ≡ write_json 200 (completion_json answer))
  written-200 none resp w' h st = absurd (ground arith)
  written-200 (some (err e, w1)) resp w' h st =
      let same : write_error (error_status e) e ≡ resp = cc in
      absurd (not-200 e (ap (λ (x : Response). x.status) same ∙ st))
  written-200 (some (ok a, w1)) resp w' h st = (a, cc, cc)

  -- The completions endpoint answers with status 200 only if the request shows a key, its body
  -- decodes, and Complete has answered it: the auth service knows the key, the billing service gives
  -- its user a balance of 10 or more, and the answer shown is the cached one or the provider's.
  pub completions-IsServed :
      (r : Request) (w w' : W) (resp : Response)
      → completions (llm_service s) r w ≡ some (resp, w')
      → resp.status ≡ 200
      → IsServed r w resp w'
  unfolding completions
  completions-IsServed r w w' resp h st = elim (Bool-cases (key_of r == "")) [
    | inl keyless ↦
        let e : ◌≡◌ {A = Option (Response × W)} (some (write_error 401 "missing api key", w))
            (some (resp, w')) =
          rw keyless at h in
        absurd (ground arith)
    | inr keyed ↦ elim (Option-cases (decode_body r.body)) [
      | inl bad ↦
          let e : ◌≡◌ {A = Option (Response × W)} (some (write_error 400 "invalid body", w))
              (some (resp, w')) =
            rw (keyed, bad) at h in
          absurd (ground arith)
      | inr (req, decoded) ↦
          let (answer, run, shown) =
            written-200 (complete s (key_of r) req w) resp w'
              (sym (completions-complete r w req keyed decoded) ∙ h) st in
          record {
            keyed = keyed;
            req = req;
            decoded = decoded;
            answer = answer;
            paid = complete-IsPaid s (key_of r) req w w' answer run;
            shown = shown;
          }
    ]
  ]

  -- For a request with a key and a body that decodes, whatever error the auth service gives, an
  -- outage too, the endpoint answers with status 401, and no other service is called.
  pub completions_denied :
      (r : Request) (w known : W) (req : CompletionRequest) (e : Error)
      → (key_of r == "") ≡ false
      → decode_body r.body ≡ some req
      → s.auth_client.validate (key_of r) w ≡ (err e, known)
      → completions (llm_service s) r w ≡ some (write_error 401 ("auth: " <> e), known)
  unfolding complete
  completions_denied r w known req e keyed decoded denied =
      completions-complete r w req keyed decoded
      ∙ ap (λ v. written (llm_service s) (if_known s req v)) denied
      ∙ ap (λ n. some (write_error n ("auth: " <> e), known)) (error_status-auth e)

  -- For a request with a key and a body that decodes, a user with a balance below 10 gets status
  -- 402, and neither the cache nor the provider nor the queue is used.
  pub completions_poor :
      (r : Request) (w known paid : W) (req : CompletionRequest) (info : UserInfo) (balance : ℤ)
      → (key_of r == "") ≡ false
      → decode_body r.body ≡ some req
      → s.auth_client.validate (key_of r) w ≡ (ok info, known)
      → s.billing_client.balance info.user_id known ≡ (ok balance, paid)
      → ltb_ℤ balance min_balance ≡ true
      → completions (llm_service s) r w
        ≡ some (write_error 402 "insufficient balance: payment required", paid)
  unfolding error_status contains
  completions_poor r w known paid req info balance keyed decoded is_known is_paid poor =
      completions-complete r w req keyed decoded
      ∙ ap (written (llm_service s))
          (complete_poor s (key_of r) req w known paid info balance is_known is_paid poor)

  -- For a request with a key and a body that decodes, a user whose key is valid gets status 401
  -- when the billing service fails with an error that contains "auth".
  pub completions_misread :
      (r : Request) (w known paid : W) (req : CompletionRequest) (info : UserInfo) (e : Error)
      → (key_of r == "") ≡ false
      → decode_body r.body ≡ some req
      → s.auth_client.validate (key_of r) w ≡ (ok info, known)
      → s.billing_client.balance info.user_id known ≡ (err e, paid)
      → contains ("billing: " <> e) "auth" ≡ true
      → completions (llm_service s) r w ≡ some (write_error 401 ("billing: " <> e), paid)
  unfolding complete error_status
  completions_misread r w known paid req info e keyed decoded is_known failed auth =
      completions-complete r w req keyed decoded
      ∙ ap (λ v. written (llm_service s) (if_known s req v)) is_known
      ∙ ap (λ v. written (llm_service s) (if_paid s info.user_id req v)) failed
      ∙ ap
          (λ b. some (
            write_error
                (if b
                  then 401
                  else if contains ("billing: " <> e) "insufficient balance"
                  then 402
                  else 500)
                ("billing: " <> e),
            paid,
          ))
          auth
