-- ===== src/Postgres.antt =====
-- internal/adapter/outbound/postgres: each repository method as the statement that it runs.
pub mod RoomRepo
pub mod InviteRepo
pub mod MessageRepo
pub mod FriendRepo
pub mod UserRepo
pub mod AdminRepo
