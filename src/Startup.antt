-- ===== src/Startup.antt =====
-- cmd/server/main.go: what the server does before it listens, but the wiring.
pub mod Slots
pub mod Seed
