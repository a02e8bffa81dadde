-- ===== src/Tests.antt =====
-- Runs of the code at concrete inputs, where the theorems' hypotheses hold.
pub mod Floats
pub mod Billing
pub mod Consumer
pub mod Auth
pub mod Proxy
pub mod Completions
pub mod Endpoints
pub mod Calls
pub mod System
mod History
mod Startup
mod Contract
pub mod Charged
mod Steps
mod Services
mod Usage
