-- ===== src/Middleware.antt =====
-- pkg/middleware/middleware.go, over the ResponseWriter of net/http. A handler is what it does to
-- its writer, in order. Tracing is otelhttp.NewHandler, an argument.
use llm_proxy_study_project.Prelude.{
  ℕ, suc, ◌-◌, ◌/◌, String, Option, none, some, Bool, true, false, ◌&&◌, not, List, [], ◌∷◌, ◌≡◌,
  refl, sym, ap, if◌then◌else◌, leb, ltb, eqb, arith,
}
use llm_proxy_study_project.Go.Http.{Request}

pub data Action : Type 0 where
  write_header : ℕ → Action
  write : String → Action

-- The response that net/http sends: its status once that is fixed, and the texts written, the
-- latest first.
pub record Writer : Type 0 where
  pub sent : Option ℕ
  pub texts : List String

abbrev pub new_writer : Writer
new_writer = record { sent = none; texts = [] }

-- The codes that do not end the header.
abbrev pub is_informational : ℕ → Bool
is_informational code = leb 100 code && (ltb code 200 && not (eqb code 101))

-- The status of the response once the handler has returned.
abbrev pub status_of : Writer → ℕ
status_of w = elim w.sent [ none ↦ 200 | some code ↦ code ]

-- net/http: the first final code counts, and a text sends 200 if there is none.
abbrev fixed : ℕ → Option ℕ → Option ℕ
fixed code none = if is_informational code then none else some code
fixed code (some first) = some first

abbrev pub act : Action → Writer → Writer
act (write_header code) w = record w { sent = fixed code w.sent }
act (write text) w = record { sent = some (status_of w); texts = text ∷ w.texts }

unfoldable pub act_all : List Action → Writer → Writer
act_all [] w = w
act_all (a ∷ actions) w = act_all actions (act a w)

-- responseWriter, with the writer that it embeds
pub record ResponseWriter : Type 0 where
  pub response_writer : Writer
  pub status : ℕ

abbrev pub record_act : Action → ResponseWriter → ResponseWriter
record_act (write_header code) rw = record {
  response_writer = act (write_header code) rw.response_writer;
  status = code;
}
record_act (write text) rw = record rw { response_writer = act (write text) rw.response_writer }

unfoldable pub record_all : List Action → ResponseWriter → ResponseWriter
record_all [] rw = rw
record_all (a ∷ actions) rw = record_all actions (record_act a rw)

-- A handler over the state of its service.
abbrev pub HandlerFunc : Type 0 → Type 0
HandlerFunc S = Request → S → List Action × S

-- A line of the log; the path is in segments.
pub record Line : Type 0 where
  pub method : String
  pub path : List String
  pub status : ℕ
  pub duration_ms : ℕ

-- What OpenTelemetry has counted: requests, and their durations in microseconds.
pub record Meter : Type 0 where
  pub requests : ℕ
  pub durations : List ℕ

module _ {S : Type 0} (next : HandlerFunc S) where
  -- The writer that is left is that of the server. The handler ends at the second time, in
  -- microseconds.
  unfoldable pub logging : Request → ℕ → Writer × (S × List Line) → Writer × (S × List Line)
  logging r end (w, (s, log)) =
      let (actions, s') = next r s in
      let rw = record_all actions (record { response_writer = w; status = 200 }) in
      (
        rw.response_writer,
        (
          s',
          record {
            method = r.method;
            path = r.path;
            status = rw.status;
            duration_ms = (end - r.now) / 1000;
          }
              ∷ log,
        ),
      )

  unfoldable pub metrics : Request → ℕ → Writer × (S × Meter) → Writer × (S × Meter)
  metrics r end (w, (s, meter)) =
      let (actions, s') = next r s in
      let rw = record_all actions (record { response_writer = w; status = 200 }) in
      (
        rw.response_writer,
        (s', record { requests = suc meter.requests; durations = (end - r.now) ∷ meter.durations }),
      )

-- The wrapped writer passes everything on.
record_all-act_all :
    (actions : List Action) (rw : ResponseWriter)
    → (record_all actions rw).response_writer ≡ act_all actions rw.response_writer
unfolding record_all act_all
record_all-act_all [] rw = refl
record_all-act_all (write_header code ∷ actions) rw =
    record_all-act_all actions (record_act (write_header code) rw)
record_all-act_all (write text ∷ actions) rw =
    record_all-act_all actions (record_act (write text) rw)

-- Texts only.
unfoldable pub is_texts : List Action → Bool
is_texts [] = true
is_texts (write_header code ∷ actions) = false
is_texts (write text ∷ actions) = is_texts actions

-- A final status at most once, and before any text.
unfoldable pub is_orderly : List Action → Bool
unfolding is_texts
is_orderly (write_header code ∷ actions) = not (is_informational code) && is_texts actions
is_orderly actions = is_texts actions

texts_status :
    (actions : List Action) (rw : ResponseWriter)
    → is_texts actions ≡ true
    → rw.status ≡ status_of rw.response_writer
    → (record_all actions rw).status ≡ status_of (act_all actions rw.response_writer)
unfolding record_all act_all is_texts
texts_status [] rw h e = e
texts_status (write_header code ∷ actions) rw h e = cc
texts_status (write text ∷ actions) rw h e = texts_status actions (record_act (write text) rw) h e

abbrev fresh : ResponseWriter
fresh = record { response_writer = new_writer; status = 200 }

orderly_status :
    (actions : List Action)
    → is_orderly actions ≡ true
    → (record_all actions fresh).status ≡ status_of (act_all actions new_writer)
unfolding is_orderly record_all act_all
orderly_status [] h = refl
orderly_status (write_header code ∷ actions) h =
    texts_status actions (record_act (write_header code) fresh) (ground arith)
      (sym (ap (λ o. elim o [ none ↦ 200 | some c ↦ c ]) (kept code (ground arith))))
  where
    kept : (code : ℕ) → is_informational code ≡ false → fixed code none ≡ some code
    kept code final = ap (λ b. if b then none else some code) final
orderly_status (write text ∷ actions) h = texts_status (write text ∷ actions) fresh h refl

-- For a handler that sets a final status at most once, and before it writes, Logging changes neither
-- the response nor the state of the handler, and adds one line to the log, with the status that is
-- sent.
pub logging_lem :
    {S : Type 0} (next : HandlerFunc S) (r : Request) (end : ℕ) (s : S) (log : List Line)
    → is_orderly (next r s).0 ≡ true
    → let (actions, s') = next r s in
      let (w, (left, lines)) = logging next r end (new_writer, (s, log)) in
      (w ≡ act_all actions new_writer)
      × (left ≡ s')
      × (lines
          ≡ record {
            method = r.method;
            path = r.path;
            status = status_of (act_all actions new_writer);
            duration_ms = (end - r.now) / 1000;
          }
            ∷ log)
unfolding logging
logging_lem next r end s log h =
    let actions = (next r s).0 in
    (
      record_all-act_all actions fresh,
      refl,
      ap
          (λ n.
            record {
              method = r.method;
              path = r.path;
              status = n;
              duration_ms = (end - r.now) / 1000;
            }
            ∷ log)
          (orderly_status actions h),
    )

-- Metrics changes neither the response nor the state of the handler, and counts one request.
metrics_lem :
    {S : Type 0} (next : HandlerFunc S) (r : Request) (end : ℕ) (s : S) (meter : Meter)
    → let (actions, s') = next r s in
      let (w, (left, meter')) = metrics next r end (new_writer, (s, meter)) in
      (w ≡ act_all actions new_writer) × (left ≡ s') × (meter'.requests ≡ suc meter.requests)
unfolding metrics
metrics_lem next r end s meter = (record_all-act_all (next r s).0 fresh, refl, refl)
