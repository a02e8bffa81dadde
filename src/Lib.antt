-- ===== src/Lib.antt =====
-- A model of the LLM proxy system: three Go services (auth, billing, llm-proxy) and the packages
-- that they share.
--
-- The parts and how they interact. The proxy (internal/llmproxy) takes a completion request, has
-- the auth service validate its API key and the billing service tell the user's balance, answers
-- from Redis or from a provider, and publishes a usage event on RabbitMQ. The consumer of the
-- billing service (internal/billing/consumer) reads the event and charges its cost to the balance
-- in PostgreSQL. Users, keys and tokens belong to the auth service (internal/auth). Each service
-- counts its responses (pkg/stats).
--
-- Which file models what:
--   Prelude, Prelude/*: tests, lists, integers, and the functions of package strings.
--   Go/Effect, Go/Int64, Go/Json, Go/Decimal, Go/Http: what the program uses of Go: functions that
--     return an error beside a state, int64 with its wrap-around, encoding/json (names of fields
--     match without regard to case, unknown fields are skipped), numbers as text, net/http and chi.
--   Go/Float: float64, a parameter with its laws (FloatLaws).
--   Go/Postgres: the connection pool. A statement fails and changes nothing, or takes effect as a
--     whole; which statements fail, the ids and the times are a parameter, so that each theorem
--     about a pool holds for every pattern of faults.
--   Auth/Store: internal/auth/store/store.go with migrations/auth; CreateUser is create_user, and so
--     on. Auth/Service: internal/auth/service/service.go. Auth/Handler:
--     internal/auth/handler/handler.go.
--   Billing/Store: internal/billing/store/store.go with migrations/billing. Billing/Service:
--     internal/billing/service/service.go; Billing/Service/Calls has calls of RecordUsage that
--     interleave, one statement at a time, and Billing/Service/Contract the abstract accounts that
--     the service refines. Billing/Consumer: internal/billing/consumer/consumer.go, where a session
--     is the list of what its select receives, and Billing/Consumer/Ending has all sessions of
--     Start. Billing/Handler: internal/billing/handler/handler.go.
--   LlmProxy/Provider: internal/llmproxy/provider/provider.go. LlmProxy/Service:
--     internal/llmproxy/service/service.go. LlmProxy/Handler: internal/llmproxy/handler/handler.go.
--   Go/Json/Names: the order in which encoding/json writes the names of a map; a literal map stands
--     in that order. Stats: pkg/stats/stats.go. Stats/Reports: how the document of /stats is read.
--     Stats/Routes: the routes that two routers share.
--   Go/Url: net/url, for the URLs that the HTTP clients build. Client: pkg/client/client.go, over a
--     transport that is an argument. System: the proxy of cmd/llm-proxy over the HTTP clients and
--     the routers of the two other services; the network may lose a call before the server has it,
--     or lose its answer. System/Charged follows a completion to its charge.
--   System/Steps: the deployed services as one machine. A step is a request that the auth or the
--     billing service handles, a message that the consumer handles, or a change in Redis, RabbitMQ or
--     at the provider; Reach is any number of steps in any order, and a request to the proxy is such
--     a sequence. A handler is one step: that its statements interleave with those of other calls is
--     modelled for RecordUsage alone (Billing/Service/Calls).
--   */Handler/Routes: which handler a request reaches, as a data type of the outcomes of a router.
--     Auth/Service/Keeping, Billing/Service/Keeping, LlmProxy/Service/Keeping: interfaces (IsKept) of
--     relations between states that every statement, or every call of a client, keeps; the modules
--     named Keeping and System/Keeping carry them to the handlers, the routers and Reach.
--   Go/Shape, Stats/Shapes, */Handler/Shapes: the shapes of the JSON documents of the answers.
--   Telemetry: pkg/telemetry/telemetry.go. Middleware: pkg/middleware/middleware.go. Startup,
--     Startup/AuthService, Startup/BillingService, Startup/LlmProxy: the mains under cmd/, as
--     sequences of steps that os.Exit may cut short; Startup/Configuration: the prices and the
--     lifetime of cache entries that they read from the environment (Go/Strconv is strconv.Atoi).
--   Tests, Tests/*: the theorems at concrete inputs.
--
-- State and outside code. A service's state is a `Pool` of its tables (auth, billing) or a world W
-- that the clients, Redis and the broker change (proxy). bcrypt, SHA-256, JWT, random bytes, the
-- HTTP exchange with OpenAI, Redis and RabbitMQ are arguments; what a theorem needs of them is a
-- hypothesis (CacheLaws, FloatLaws, IsReadable, IsAnswered, IsCovered, IsLogging). A Go panic is
-- `none`. Only the printing of a number runs on fuel, one more than the number, which is at least
-- the count of its digits (Go/Decimal); all other recursion is on the structure of lists and texts.
--
-- Times are microseconds since the epoch. Rows stand in the order of their insertion. A cancelled
-- context reaches a store as a statement that fails.
--
-- Not modelled: the Prometheus endpoint's content, tracing (otelhttp), the timeouts of the servers,
-- deployments/ and the shell scripts: configuration, and calls of third-party code without logic of
-- the program's own.
pub mod Prelude
pub mod Go
pub mod Billing
pub mod Stats
pub mod Auth
pub mod LlmProxy
pub mod Client
pub mod Telemetry
pub mod Middleware
pub mod Startup
pub mod System
pub mod Tests
