-- ===== src/Service.antt =====
-- go-core/internal/service: validation, paging and the calls of the stores.
pub mod Page
pub mod Chat
pub mod Ribbon
pub mod Feed
pub mod Preferences
pub mod Profiles
pub mod Photos
pub mod Failures
pub mod Related
pub mod Bounds
