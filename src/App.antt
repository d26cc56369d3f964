-- ===== src/App.antt =====
-- internal/app: the services.
pub mod RoomService
pub mod MessageService
pub mod FriendService
pub mod UserService
pub mod Sound
