-- ===== src/Identity.antt =====
-- The identity module of the core service (services/core/internal/modules/identity).
pub mod Domain
pub mod Outside
pub mod Database
pub mod Repositories
pub mod Relay
pub mod Ports
pub mod Sessions
pub mod Accounts
pub mod Codes
pub mod ApiKeys
pub mod Atomicity
pub mod Passwords
pub mod Samples
