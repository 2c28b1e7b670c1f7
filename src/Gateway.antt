-- ===== src/Gateway.antt =====
-- The package llm_models: requests, routes, retries, the token ledger, and the adapters of vendors.
pub mod Tokens
pub mod Router
pub mod Retry
pub mod Providers
pub mod Kept
mod Tests
