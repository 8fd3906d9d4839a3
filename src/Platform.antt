-- ===== src/Platform.antt =====
-- go-core/internal/platform: the adapters of the libraries that the program rests on.
pub mod Accounts
pub mod Storage
