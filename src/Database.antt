-- ===== src/Database.antt =====
-- The Postgres database as the repositories use it: the tables of go-core/migrations, and a call of
-- it as a state-and-error action.
mod Rows
mod Actions
pub mod Failures
unfoldable pub use Rows.*
pub use Actions.*
