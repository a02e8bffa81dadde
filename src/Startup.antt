-- ===== src/Startup.antt =====
-- What the three programs under cmd/ share: the environment, the log, telemetry and the end of a
-- process.
pub mod Configuration
pub mod AuthService
pub mod BillingService
pub mod LlmProxy
pub mod Endings
use llm_proxy_study_project.Prelude.{
  ℕ, String, ◌==◌, Option, none, some, List, [], ◌∷◌, if◌then◌else◌,
}
use llm_proxy_study_project.Go.Effect.{Error, Result, ok, err}
use llm_proxy_study_project.Telemetry.{Library, Calls, init}

-- The first argument is os.Getenv, which gives the empty text for an unset variable.
unfoldable pub getenv : (String → String) → String → String → String
getenv env key def = if env key == "" then def else env key

-- What main holds while it runs.
pub data Holding : Type 0 where
  pool : Holding
  redis_client : Holding
  rabbit_conn : Holding
  rabbit_channel : Holding

-- What a process does that can be seen: lines of its log, a consumer that it starts, the address at
-- which it serves, what it closes, and its calls of OpenTelemetry.
pub data Event : Type 0 where
  info : String → Event
  warned : String → Error → Event
  failed : String → Error → Event
  consuming : String → Event
  serving : String → Event
  closed : Holding → Event
  dialled : String → Event

-- The events, and the calls of OpenTelemetry, the latest first.
pub record Process : Type 0 where
  pub events : List Event
  pub telemetry : Calls

abbrev pub new_process : Process
new_process = record { events = []; telemetry = [] }

-- A part of main either goes on with a result, or has ended the process by os.Exit.
pub data Flow (A : Type 0) : Type 0 where
  on : A → Flow A
  exited : ℕ → Flow A

abbrev pub Main : Type 0 → Type 0
Main A = Process → Flow A × Process

abbrev pub go_on : {A : Type 0} → A → Main A
go_on a p = (on a, p)

abbrev pub then_go : {A B : Type 0} → (A → Main B) → Flow A × Process → Flow B × Process
then_go f (on a, p) = f a p
then_go f (exited n, p) = (exited n, p)

infixl 5 ◌>>=◌ ◌>>◌
abbrev pub ◌>>=◌ : {A B : Type 0} → Main A → (A → Main B) → Main B
◌>>=◌ m f p = then_go f (m p)

abbrev pub ◌>>◌ : {A B : Type 0} → Main A → Main B → Main B
m >> k = m >>= λ _. k

abbrev pub note : Event → Main (Unit {0})
note event p = (on tt, record p { events = event ∷ p.events })

abbrev pub exit : {A : Type 0} → ℕ → Main A
exit n p = (exited n, p)

-- A step without which the process ends: its error is logged, and the code is 1.
abbrev pub required : Option Error → String → Main (Unit {0})
required none message = go_on tt
required (some e) message = note (failed message e) >> exit 1

-- `defer`: os.Exit runs no deferred call, a main that returns does.
abbrev pub deferring : Main (Unit {0}) → Main (Unit {0}) → Main (Unit {0})
deferring last rest = rest >> last

abbrev pub shut_down : (Calls → Result (Unit {0}) × Calls) → Main (Unit {0})
shut_down shutdown p = (on tt, record p { telemetry = (shutdown p.telemetry).1 })

abbrev pub telemetered :
    Main (Unit {0}) → Result (Calls → Result (Unit {0}) × Calls) × Calls → Main (Unit {0})
telemetered rest (ok shutdown, calls) p =
    deferring (shut_down shutdown) rest (record p { telemetry = calls })
telemetered rest (err e, calls) p =
    (note (warned "telemetry init failed" e) >> rest) (record p { telemetry = calls })

-- telemetry.Init and what main does with its result, around the rest of main.
unfoldable pub with_telemetry :
    Library → String → String → String → Main (Unit {0}) → Main (Unit {0})
with_telemetry lib name version endpoint rest p =
    telemetered rest (init lib name version endpoint p.telemetry) p

-- srv.ListenAndServe, which returns only with an error.
abbrev pub listen : String → Error → Main (Unit {0})
listen address e = do note (serving address); note (failed "server error" e)
