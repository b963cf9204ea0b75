-- ===== src/Notes.antt =====
-- The example module: notes with optimistic locking (services/core/internal/modules/example: domain,
-- application, infrastructure/note_repository.go, outbox_publisher.go, outbox_relay.go; the
-- statements of sqlc/queries/example.sql).
pub mod Database
pub mod UseCases
pub mod Relay
pub mod Versions
pub mod Delivery
mod Tests
