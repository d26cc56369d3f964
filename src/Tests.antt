-- ===== src/Tests.antt =====
-- Runs on sample data: theorems applied where their conditions hold.
pub mod Sample
mod Limiter
mod Services
mod Messages
mod Handlers
mod Sockets
mod Friends
mod Accounts
mod Profiles
mod Requests
mod Starts
