-- ===== src/Billing.antt =====
-- The billing service (internal/billing): its tables, its business logic, the consumer of usage
-- events and the HTTP handlers.
pub mod Store
pub mod Service
pub mod Consumer
pub mod Handler
