-- ===== src/Repository.antt =====
-- go-core/internal/repository: the SQL statements of each method, as actions on the database.
pub mod Ribbon
pub mod Chats
pub mod Discovery
pub mod Profiles
pub mod Photos
pub mod Users
