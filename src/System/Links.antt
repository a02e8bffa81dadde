-- ===== src/System/Links.antt =====
-- What the HTTP clients get from the routers that they call.
use llm_proxy_study_project.Prelude.{
  ℕ, suc, String, ◌<>◌, ◌==◌, Option, none, some, [], ◌∷◌, ◌≡◌, refl, sym, ap, ◌∙◌, arith,
  Bool-cases, inl, inr, trim_prefix, eq_iff,
}
use llm_proxy_study_project.Go.Effect.{Error, Result, ok, err}
use llm_proxy_study_project.Go.Decimal.{decimal}
use llm_proxy_study_project.Go.Url.{Target, get}
use llm_proxy_study_project.Go.Url.Plain.{IsPlain, parse_validation}
use llm_proxy_study_project.Go.Http.{Request, Response}
use llm_proxy_study_project.Stats.{Stats, record_status, middleware}
use llm_proxy_study_project.Auth.Store
use llm_proxy_study_project.Auth.Service.{UserInfo, validate_api_key}
use llm_proxy_study_project.Auth.Handler
use llm_proxy_study_project.Auth.Handler.{shown_key, info_json, validated_answer}
use llm_proxy_study_project.Client.{get_request, answer, decode_info, validate}
use llm_proxy_study_project.System.{
  World, Setting, Fault, unsent, unanswered, received, exchange, auth_router, call_auth, auth_http,
}

decode-info_json : (info : UserInfo) → decode_info (some (info_json info)) ≡ some info
unfolding decode_info
decode-info_json info = ground arith

-- The request that the auth service gets for a validation.
abbrev validation : ℕ → String → Request
validation now key =
    received now (
      get_request (record { path = "auth" ∷ "validate" ∷ []; query = get (("api_key", key) ∷ []) }))

shown_lem : (now : ℕ) (key : String) → shown_key (validation now key) ≡ key
unfolding shown_key get trim_prefix
shown_lem now key = elim (Bool-cases (key == "")) [
  | inl empty ↦ rw empty (sym ((eq_iff key "").0 empty))
  | inr filled ↦ rw filled refl
]

-- What the client makes of a result of ValidateAPIKey: the text of an error is lost.
abbrev pub seen : Result UserInfo → Result UserInfo
seen (ok info) = ok info
seen (err _) = err "auth validate: status 401"

seen-ok : (res : Result UserInfo) (info : UserInfo) → seen res ≡ ok info → res ≡ ok info
seen-ok (ok a) info h = h
seen-ok (err msg) info h = cc

module _ (e : Setting) where
  -- An answer of a handler of the auth service, as the router passes it on.
  abbrev passed : {D : Type 0} → Stats → Response × D → Response × (Stats × D)
  passed st x = (x.0, (record_status (x.0).status st, x.1))

  validation_answer :
      (now : ℕ) (key : String) (s : Stats × Store.Db)
      → auth_router e (validation now key) s
        ≡ passed s.0 (
            validated_answer e.crypto e.jwt_secret e.format_time
              (validate_api_key e.crypto key s.1))
  unfolding Handler.router Handler.route Handler.validate middleware
  validation_answer now key s =
      ap
        (λ k.
          passed s.0 (
            validated_answer e.crypto e.jwt_secret e.format_time (validate_api_key e.crypto k s.1)))
        (shown_lem now key)

  -- The state of the auth service after a validation that reached it.
  abbrev pub validated_at : String → Stats × Store.Db → Stats × Store.Db
  validated_at key s =
      (passed s.0 (
        validated_answer e.crypto e.jwt_secret e.format_time (validate_api_key e.crypto key s.1))).1

module _ {V : Type 0} (e : Setting) where
  read_validation :
      (x : Result UserInfo × Store.Db) (w : World V)
      → answer
          (auth_http e)
          "auth validate"
          decode_info
          (ok (validated_answer e.crypto e.jwt_secret e.format_time x).0, w)
        ≡ (seen x.0, w)
  unfolding decimal
  read_validation (ok info, db) w =
      ap
        (λ (o : Option UserInfo). elim o as (λ _. Result UserInfo × World V) [
          | none ↦ (err (e.body_error (some (info_json info))), w)
          | some a ↦ (ok a, w)
        ])
        (decode-info_json info)
  read_validation (err msg, db) w = refl

  -- A validation whose URL parses as it was meant, by what the network does.
  abbrev by_fault : String → World V → Option Fault → Result UserInfo × World V
  by_fault key w none = (
    seen (validate_api_key e.crypto key w.auth.1).0,
    record w { auth = validated_at e key w.auth; calls = suc w.calls },
  )
  by_fault key w (some (unsent msg)) = (err msg, record w { calls = suc w.calls })
  by_fault key w (some (unanswered msg)) =
      (err msg, record w { auth = validated_at e key w.auth; calls = suc w.calls })

  exchange_lem :
      (key : String) (w : World V) (fault : Option Fault)
      → answer (auth_http e) "auth validate" decode_info (
          let (res, auth) =
            exchange fault (auth_router e) (validation (e.clock w.calls) key) w.auth in
          (res, record w { auth = auth; calls = suc w.calls }))
        ≡ by_fault key w fault
  exchange_lem key w none =
      ap
        (λ (x : Response × (Stats × Store.Db)).
          answer (auth_http e) "auth validate" decode_info
            (ok x.0, record w { auth = x.1; calls = suc w.calls }))
        (validation_answer e (e.clock w.calls) key w.auth)
      ∙ read_validation (validate_api_key e.crypto key w.auth.1)
          (record w { auth = validated_at e key w.auth; calls = suc w.calls })
  exchange_lem key w (some (unsent msg)) = refl
  exchange_lem key w (some (unanswered msg)) =
      ap
        (λ (x : Response × (Stats × Store.Db)).
          (err msg, record w { auth = x.1; calls = suc w.calls }))
        (validation_answer e (e.clock w.calls) key w.auth)

  -- The client's Validate over the network and the router, for a plain key.
  validate_lem :
      (key : String) (w : World V)
      → IsPlain key
      → validate (auth_http e) key w ≡ by_fault key w (e.network w.calls)
  unfolding validate
  validate_lem key w h =
      ap
        (λ (t : Option Target). elim t as (λ _. Result UserInfo × World V) [
          | none ↦ (err (e.url_error ("/auth/validate?api_key=" <> key)), w)
          | some t ↦
              answer (auth_http e) "auth validate" decode_info (call_auth e (get_request t) w)
        ])
        (parse_validation key h)
      ∙ exchange_lem key w (e.network w.calls)

  -- Where the network carries the call, Validate of the HTTP client is ValidateAPIKey of the auth
  -- service, for a key of letters, digits and hyphens: the same user, or an error in which only the
  -- status is left; the auth service's tables are those that ValidateAPIKey leaves.
  pub validate_through :
      (key : String) (w : World V)
      → IsPlain key
      → e.network w.calls ≡ none
      → let (res, db') = validate_api_key e.crypto key w.auth.1 in
        let (got, w') = validate (auth_http e) key w in
        (got ≡ seen res) × (w'.auth.1 ≡ db') × (w'.billing ≡ w.billing) × (w'.rest ≡ w.rest)
  validate_through key w h up =
      let step = validate_lem key w h ∙ ap (by_fault key w) up in
      rw step (refl, answer_state (validate_api_key e.crypto key w.auth.1), refl, refl)
    where
      answer_state :
          (x : Result UserInfo × Store.Db)
          → (validated_answer e.crypto e.jwt_secret e.format_time x).1 ≡ x.1
      answer_state (ok info, db) = refl
      answer_state (err msg, db) = refl

  by_fault-ok :
      (key : String) (w w' : World V) (info : UserInfo) (fault : Option Fault)
      → by_fault key w fault ≡ (ok info, w')
      → ((validate_api_key e.crypto key w.auth.1).0 ≡ ok info) × (w'.billing ≡ w.billing)
  by_fault-ok key w w' info none h =
      let got : seen (validate_api_key e.crypto key w.auth.1).0 ≡ ok info =
        ap (λ (x : Result UserInfo × World V). x.0) h in
      (seen-ok _ info got, sym (ap (λ (x : Result UserInfo × World V). x.1.billing) h))
  by_fault-ok key w w' info (some (unsent msg)) h = absurd (ground arith)
  by_fault-ok key w w' info (some (unanswered msg)) h = absurd (ground arith)

  -- Whatever the network does, a user that the client is told of is the one of ValidateAPIKey.
  pub validate_known :
      (key : String) (w w' : World V) (info : UserInfo)
      → IsPlain key
      → validate (auth_http e) key w ≡ (ok info, w')
      → ((validate_api_key e.crypto key w.auth.1).0 ≡ ok info) × (w'.billing ≡ w.billing)
  validate_known key w w' info h done =
      by_fault-ok key w w' info (e.network w.calls) (sym (validate_lem key w h) ∙ done)

  -- A client that has been refused, and the world that it leaves.
  pub record IsRefused (key : String) (w : World V) : Type 0 where
    pub msg : Error
    pub known : World V
    pub told : validate (auth_http e) key w ≡ (err msg, known)
    pub billing : known.billing ≡ w.billing
    pub rest : known.rest ≡ w.rest

  -- Whatever the network does, a key that ValidateAPIKey refuses is refused by the client.
  pub validate-IsRefused :
      (key : String) (w : World V) (m : Error)
      → IsPlain key
      → (validate_api_key e.crypto key w.auth.1).0 ≡ err m
      → IsRefused key w
  validate-IsRefused key w m h refused = by_network (e.network w.calls) (validate_lem key w h)
    where
      by_network :
          (fault : Option Fault)
          → validate (auth_http e) key w ≡ by_fault key w fault
          → IsRefused key w
      by_network none k = record {
        msg = "auth validate: status 401";
        known = (by_fault key w none).1;
        told =
            k
            ∙ ap
                (λ (x : Result UserInfo).
                  (seen x, record w { auth = validated_at e key w.auth; calls = suc w.calls }))
                refused;
        billing = refl;
        rest = refl;
      }
      by_network (some (unsent msg)) k = record {
        msg = msg;
        known = _;
        told = k;
        billing = refl;
        rest = refl;
      }
      by_network (some (unanswered msg)) k = record {
        msg = msg;
        known = _;
        told = k;
        billing = refl;
        rest = refl;
      }
