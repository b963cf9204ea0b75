-- ===== src/Edge.antt =====
-- The gateway's HTTP edge (services/gateway/internal/edge).
pub mod Bloom
pub mod Http
pub mod Doubles
pub mod RateLimit
pub mod Authentication
pub mod Csrf
pub mod Headers
pub mod Proxy
pub mod Streams
pub mod Gzip
pub mod Chain
pub mod Samples
