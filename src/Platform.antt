-- ===== src/Platform.antt =====
-- The shared platform packages (services/core/internal/platform).
pub mod Breaker
pub mod Lock
pub mod Secure
pub mod Pools
pub mod Shutdown
pub mod Memory
pub mod Health
pub mod Tokens
