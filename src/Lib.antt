-- ===== src/Lib.antt =====
-- lynk: a gateway (services/gateway) in front of a gRPC service (services/core) with the modules
-- identity, authz, audit and example. This library models the parts that decide something, and proves
-- what makes them right.
--
-- Effects: the world in which the use cases of the core service run: the database, Redis, the clock,
--   the entropy source and a list that says which of the calls to come fail; platform/postgres/tx.go.
-- Platform: services/core/internal/platform: breaker/breaker.go (Breaker), lock/lock.go and
--   jobs/jobs.go (Lock).
-- Edge: services/gateway/internal/edge. Http has requests, responses and handlers, a handler being an
--   action on the memory of the gateway process, with Redis and the clock beside it; each middleware
--   is a function of handlers (RateLimit, Authentication, Csrf, Headers), Chain composes them as
--   server.go does, Proxy is the routing behind them, Streams
--   the forwarding of one call as a step relation, Gzip
--   the compression of responses, Bloom the revocation filter.
--   Doubles is the arithmetic of the script in ratelimit.go.
-- Identity: services/core/internal/modules/identity. Domain is domain/ and domain/vo; Database is
--   services/core/sqlc/queries/identity.sql; Repositories and Ports are infrastructure/; Sessions,
--   Accounts, Codes and ApiKeys are application/ (one function per use case).
-- Rpc: the gRPC server of the core service: services/core/internal/platform/grpcserver with apperror and
--   auth, and the handlers in adapter/grpc of identity (Identity) and example (Notes); Gateway joins it
--   to the chain of the gateway.
-- Config: services/core/internal/platform/config and the same of the gateway; Transport is the TLS
--   set-up at both ends of their connection.
-- Platform.Secure: services/core/internal/platform/secure (uuid.go, secure.go, password.go). Platform.Pools:
--   postgres/postgres.go. Platform.Shutdown, Platform.Health, Platform.Memory, Platform.Tokens:
--   shutdown/shutdown.go, health/health.go, runtimeenv/runtimeenv.go, jwt/jwt.go there.
-- Authz: services/core/internal/modules/authz, the policy engine and its handlers.
-- Audit: services/core/internal/modules/audit, the consumer that writes the ledger, and its listing (Handler).
-- Notes: services/core/internal/modules/example: Database is the aggregate and its repository, UseCases
--   is application/, Relay the relay of its outbox.
-- Outbox: the relay from an outbox table to the bus, which the modules example and identity share.
-- Base: Boolean tests, lists and byte strings over the native numbers.
--
-- A Go string is the list of its bytes, a time or a duration a number of nanoseconds, an error a value.
-- Code of third parties (hashing, signing, the address parser, random values, pgx, Redis) is a
-- parameter or, for the two stores, a model of the commands that the code sends.
-- Every loop is recursion on a list or on a count that is known beforehand, except that the exponent of
--   a double is searched for with the number itself as fuel, which is below that power of two.
-- Not modelled: generated code (services/core/internal/gen), start-up, wiring, logging, telemetry,
--   connections, the wire codecs and the frontend.
pub mod Audit
pub mod Authz
pub mod Base
pub mod Config
pub mod Edge
pub mod Effects
pub mod Identity
pub mod Notes
pub mod Outbox
pub mod Platform
pub mod Rpc
