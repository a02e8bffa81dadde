-- ===== src/Startup/Endings.antt =====
-- How a program that is a sequence of steps ends: against a list of the steps that it cannot do
-- without.
pub mod Services
pub mod Proxy
use llm_proxy_study_project.Prelude.{String, Option, none, some, List, [], ◌∷◌, ◌++◌, ◌≡◌, refl, ap}
use llm_proxy_study_project.Go.Effect.{Error, Result, ok, err}
use llm_proxy_study_project.Telemetry.{Calls, init}
use llm_proxy_study_project.Startup.{
  Event, info, warned, failed, consuming, serving, closed, pool, redis_client, rabbit_conn,
  rabbit_channel, Process, Flow, on, exited, Main, telemetered, with_telemetry, new_process,
  then_go, shut_down, required, deferring, note, ◌>>◌, listen, dialled,
}
use llm_proxy_study_project.Startup.AuthService
use llm_proxy_study_project.Startup.BillingService
use llm_proxy_study_project.Startup.LlmProxy
use llm_proxy_study_project.Startup.LlmProxy.{error_of}

-- The steps that a program cannot do without, each with what it logs if it fails.
abbrev pub Steps : Type 0
Steps = List (String × Option Error)

-- What the first step that fails logs.
unfoldable pub first_failure : Steps → Option Event
first_failure [] = none
first_failure ((message, none) ∷ steps) = first_failure steps
first_failure ((message, some e) ∷ steps) = some (failed message e)

-- The end of a program, with its events, the latest first: one that fails at a step ends with code 1
-- right after the line that logs it; one that does not has done all of this work and returns.
abbrev pub ending : List Event → Option Event → Flow (Unit {0}) × List Event
ending work none = (on tt, work)
ending work (some event) = (exited 1, event ∷ [])

-- The line that a failure of telemetry.Init leaves in the log.
abbrev pub warning : {A : Type 0} → Result A → List Event
warning (ok a) = []
warning (err e) = warned "telemetry init failed" e ∷ []

-- A part of main that ends in this way, from any state of the process.
pub record Ends (rest : Main (Unit {0})) (end : Flow (Unit {0}) × List Event) : Type 0 where
  pub flow : (p : Process) → (rest p).0 ≡ end.0
  pub events : (p : Process) → (rest p).1.events ≡ end.1 ++ p.events

-- What a whole program ends with.
abbrev pub IsEnding : Flow (Unit {0}) × Process → Flow (Unit {0}) × List Event → List Event → Type 0
IsEnding x end before = (x.0 ≡ end.0) × (x.1.events ≡ end.1 ++ before)

pub telemetered-IsEnding :
    (rest : Main (Unit {0})) (end : Flow (Unit {0}) × List Event)
    (x : Result (Calls → Result (Unit {0}) × Calls) × Calls)
    → Ends rest end
    → IsEnding (telemetered rest x new_process) end (warning x.0)
telemetered-IsEnding rest end (ok shutdown, calls) ends =
    let p = record new_process { telemetry = calls } in
    after_rest (rest p) (ends.flow p) (ends.events p)
  where
    after_rest :
        (y : Flow (Unit {0}) × Process)
        → y.0 ≡ end.0
        → y.1.events ≡ end.1 ++ []
        → IsEnding (then_go (λ _. shut_down shutdown) y) end []
    after_rest (on tt, p) f g = (f, g)
    after_rest (exited n, p) f g = (f, g)
telemetered-IsEnding rest end (err e, calls) ends =
    let p : Process = record {
      events = warned "telemetry init failed" e ∷ [];
      telemetry = calls;
    } in
    (ends.flow p, ends.events p)

pub required-Ends :
    (o : Option Error) (message : String) (rest : Main (Unit {0})) (work : List Event)
    (steps : Steps)
    → Ends rest (ending work (first_failure steps))
    → Ends (required o message >> rest) (ending work (first_failure ((message, o) ∷ steps)))
unfolding first_failure
required-Ends none message rest work steps h = record { flow = h.flow; events = h.events }
required-Ends (some e) message rest work steps h = record { flow = λ p. refl; events = λ p. refl }

pub deferring-Ends :
    (event : Event) (rest : Main (Unit {0})) (work : List Event) (f : Option Event)
    → Ends rest (ending work f)
    → Ends (deferring (note event) rest) (ending (event ∷ work) f)
deferring-Ends event rest work f h = record {
  flow = λ p. (by_failure p.events f (rest p) (h.flow p) (h.events p)).0;
  events = λ p. (by_failure p.events f (rest p) (h.flow p) (h.events p)).1;
}
  where
    by_failure :
        (before : List Event) (f : Option Event) (y : Flow (Unit {0}) × Process)
        → y.0 ≡ (ending work f).0
        → y.1.events ≡ (ending work f).1 ++ before
        → IsEnding (then_go (λ _. note event) y) (ending (event ∷ work) f) before
    by_failure before none (on _, p) a b = (refl, ap (λ es. event ∷ es) b)
    by_failure before none (exited n, p) a b = cc
    by_failure before (some failure) (on _, p) a b = cc
    by_failure before (some failure) (exited n, p) a b = (a, b)
