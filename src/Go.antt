-- ===== src/Go.antt =====
-- What the program takes from the Go language and from its platform: errors and effects, 64-bit
-- numbers, floats, encoding/json, net/http, and the PostgreSQL connection pool.
pub mod Effect
pub mod Int64
pub mod Float
pub mod Json
pub mod Url
pub mod Strconv
pub mod Decimal
pub mod Http
pub mod Shape
pub mod Postgres
