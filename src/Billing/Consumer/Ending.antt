-- ===== src/Billing/Consumer/Ending.antt =====
-- Start of the consumer as a whole: which messages it answers, and when it returns.
use llm_proxy_study_project.Prelude.{
  String, Option, none, some, Bool, true, false, ◌&&◌, List, [], ◌∷◌, ◌++◌, ◌≡◌, refl, sym, ap, ℕ,
  if◌then◌else◌, ◌∙◌,
}
use llm_proxy_study_project.Go.Effect.{Error}
use llm_proxy_study_project.Go.Json.{Payload}
use llm_proxy_study_project.Billing.Consumer.{
  BillingService, Setup, Arrival, cancelled, connection_lost, channel_closed, delivery, Verdict,
  Exit, handle, receive, run, start,
}

-- A session with what it meets, and the wait after it.
abbrev pub Round : Type 0
Round = Setup × List Arrival × Option Error

unfoldable is_none : {A : Type 0} → Option A → Bool
is_none none = true
is_none (some _) = false

unfoldable has_ended : Option Exit → Bool
has_ended none = false
has_ended (some _) = true

-- A session whose four calls all succeed.
unfoldable opens : Setup → Bool
unfolding is_none
opens setup =
    is_none setup.dial
    && (is_none setup.channel && (is_none setup.queue_declare && is_none setup.consume))

-- The messages that come before the end of the session.
unfoldable messages : List Arrival → List Payload
messages (delivery body ∷ rest) = body ∷ messages rest
messages _ = []

-- Something ends the session.
unfoldable ends : List Arrival → Bool
ends [] = false
ends (delivery _ ∷ rest) = ends rest
ends _ = true

unfoldable heard : Setup → List Arrival → List Payload
unfolding opens messages
heard setup arrivals = if opens setup then messages arrivals else []

unfoldable is_over : Setup → List Arrival → Bool
unfolding opens ends
is_over setup arrivals = if opens setup then ends arrivals else true

-- All messages that reach the consumer: there is no session after one that is not over, or after a
-- wait that finds the context done.
unfoldable pub received : List Round → List Payload
unfolding heard is_over
received [] = []
received ((setup, arrivals, wait) ∷ rounds) =
    heard setup arrivals ++ (if is_over setup arrivals && is_none wait then received rounds else [])

-- The error of the first wait that finds the context done, if every session up to it is over.
unfoldable pub first_done : List Round → Option Error
unfolding is_over
first_done [] = none
first_done ((setup, arrivals, wait) ∷ rounds) =
    let later = first_done rounds in
    if is_over setup arrivals then elim wait [ some e ↦ some e | none ↦ later ] else none

append-nil : {A : Type 0} (xs : List A) → xs ++ [] ≡ xs
append-nil [] = refl
append-nil (x ∷ xs) = ap (λ ys. x ∷ ys) (append-nil xs)

module _ {S : Type 0} (parse_time : String → Option ℕ) (billing : BillingService S) where
  -- Each message is handled once, in order.
  unfoldable pub handle_all : List Payload → S → List Verdict × S
  handle_all [] s = ([], s)
  handle_all (body ∷ bodies) s =
      let (verdict, s') = handle parse_time billing body s in
      let (verdicts, s'') = handle_all bodies s' in (verdict ∷ verdicts, s'')

  handle_all-append :
      (xs ys : List Payload) (s : S)
      → handle_all (xs ++ ys) s ≡ (
          let (verdicts, s') = handle_all xs s in
          let (later, s'') = handle_all ys s' in (verdicts ++ later, s''))
  unfolding handle_all
  handle_all-append [] ys s = refl
  handle_all-append (x ∷ xs) ys s =
      let (verdict, s') = handle parse_time billing x s in
      ap (λ (r : List Verdict × S). (verdict ∷ r.0, r.1)) (handle_all-append xs ys s')

  -- Whether the session is over, instead of how.
  abbrev seen : Option Exit × List Verdict × S → Bool × (List Verdict × S)
  seen (exit, verdicts, s) = (has_ended exit, (verdicts, s))

  receive_lem :
      (arrivals : List Arrival) (s : S)
      → seen (receive parse_time billing arrivals s)
        ≡ (ends arrivals, handle_all (messages arrivals) s)
  unfolding has_ended receive ends messages handle_all
  receive_lem [] s = refl
  receive_lem (cancelled e ∷ _) s = refl
  receive_lem (connection_lost e ∷ _) s = refl
  receive_lem (channel_closed ∷ _) s = refl
  receive_lem (delivery body ∷ rest) s =
      let (verdict, s') = handle parse_time billing body s in
      ap (λ (r : Bool × (List Verdict × S)). (r.0, (verdict ∷ r.1.0, r.1.1))) (receive_lem rest s')

  run_lem :
      (setup : Setup) (arrivals : List Arrival) (s : S)
      → seen (run parse_time billing setup arrivals s)
        ≡ (is_over setup arrivals, handle_all (heard setup arrivals) s)
  unfolding run opens is_none heard is_over handle_all has_ended
  run_lem setup arrivals s = by_call setup.dial setup.channel setup.queue_declare setup.consume
    where
      by_call :
          (d c q k : Option Error)
          → let calls : Setup = record { dial = d; channel = c; queue_declare = q; consume = k } in
            seen (run parse_time billing calls arrivals s)
            ≡ (is_over calls arrivals, handle_all (heard calls arrivals) s)
      by_call (some _) _ _ _ = refl
      by_call none (some _) _ _ = refl
      by_call none none (some _) _ = refl
      by_call none none none (some _) = refl
      by_call none none none none = receive_lem arrivals s

  -- What a session and the wait after it leave, when the rounds after them give this result.
  abbrev finish :
      Option Exit × List Verdict × S
      → Option Error
      → Option Error × List Verdict × S
      → Option Error × List Verdict × S
  finish (exit, verdicts, s) wait (result, later, s') = elim exit [
    | none ↦ (none, verdicts, s)
    | some _ ↦ elim wait [ some e ↦ (some e, verdicts, s) | none ↦ (result, verdicts ++ later, s') ]
  ]

  -- Some result, with the handling of these messages.
  abbrev pub handled : Option Error → List Payload → S → Option Error × List Verdict × S
  handled result bodies s = let (verdicts, s') = handle_all bodies s in (result, verdicts, s')

  finish_lem :
      (x : Option Exit × List Verdict × S) (wait : Option Error) (over : Bool)
      (before later : List Payload) (s : S) (result : Option Error)
      → seen x ≡ (over, handle_all before s)
      → finish x wait (handled result later x.2)
        ≡ handled
            (if over then elim wait [ some e ↦ some e | none ↦ result ] else none)
            (before ++ (if over && is_none wait then later else []))
            s
  unfolding has_ended is_none
  finish_lem (none, vs, t) wait over before later s result h =
      let o : over ≡ false = sym (ap (λ r. r.0) h) in
      rw (o, append-nil) (ap (λ (r : Bool × (List Verdict × S)). (none, r.1.0, r.1.1)) h)
  finish_lem (some _, vs, t) (some e) over before later s result h =
      let o : over ≡ true = sym (ap (λ r. r.0) h) in
      rw (o, append-nil) (ap (λ (r : Bool × (List Verdict × S)). (some e, r.1.0, r.1.1)) h)
  finish_lem (some _, vs, t) none over before later s result h =
      let o : over ≡ true = sym (ap (λ r. r.0) h) in
      rw (o, handle_all-append)
        (ap
          (λ (r : Bool × (List Verdict × S)).
            (let (more, last) = handle_all later r.1.1 in (result, r.1.0 ++ more, last)))
          h)

  -- Start answers the messages that it receives over all its sessions, each once and in order, and
  -- nothing else changes the state; it returns at the first wait that finds the context done, with
  -- that error, if every session up to it is over, and only then: no error of the broker ends it.
  pub start_lem :
      (rounds : List Round) (s : S)
      → start parse_time billing rounds s ≡ handled (first_done rounds) (received rounds) s
  unfolding start first_done received is_none handle_all
  start_lem [] s = refl
  start_lem ((setup, arrivals, wait) ∷ rounds) s =
      let x = run parse_time billing setup arrivals s in
      ap (finish x wait) (start_lem rounds x.2)
      ∙ finish_lem x wait (is_over setup arrivals) (heard setup arrivals) (received rounds) s
          (first_done rounds) (run_lem setup arrivals s)
