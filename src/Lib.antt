-- ===== src/Lib.antt =====
-- Verification of the Go core of a dating service (go-core): users swipe through a feed of
-- candidates, a mutual like opens a chat, and blocks, dislikes and reports keep users apart. HTTP
-- handlers call services (internal/service), which validate input, call repositories
-- (internal/repository), which run SQL statements, and publish events (internal/events).
--
-- Base: lists, Boolean tests, signed integers, and rows of tables (ORDER BY, WHERE key > cursor).
-- Models: the records of internal/models. Text: strings.TrimSpace, strconv.ParseInt and FormatInt as
-- internal/service uses them, and dates (time.Parse with 2006-01-02, AddDate).
-- Errors: the errors of all layers, with one `internal` error for each place where an error of the
-- driver is wrapped.
-- Geo: internal/geo/bounds.go, over float64 operations that are a parameter (Geo.FloatOps), so no
-- theorem depends on rounding or on the accuracy of sin and cos.
-- Database: the tables, and statements as actions: they take the database and give a result and
-- the database after it. Which statements fail is the choice of the environment (Env.fails), and a
-- transaction that fails gives back the database as it was.
-- Repository.Ribbon (internal/repository/ribbon.go: CreateLike, CreateDislike, CreateBlock,
-- RemoveBlock), Repository.Discovery (the same file: preferences, candidates, incoming likes,
-- reports), Repository.Chats (chat_repository.go), Repository.Profiles (profile_repository.go),
-- Repository.Photos (photo_repository.go).
-- Service.Chat (internal/service/chat.go), Service.Feed, Service.Preferences and Service.Ribbon
-- (internal/service/ribbon.go: GetFeed and GetIncomingLikes; the preferences; the other methods),
-- Service.Profiles (internal/service/profile.go; the UTC date of its clock is an argument),
-- Service.Photos (internal/service/photo.go; the object store is a parameter with its own state).
-- A service takes its store as a record of actions, which chat_repository, ribbon_repository and
-- their like for the other services fill with the repository's methods.
-- Events: internal/events/publisher.go, with the workers in Events.Delivery as a step relation, and in
-- Events.Shutdown with Start, Close and the cancellation of their context.
-- Platform.Storage: internal/platform/objectstorage/minio.go, over the MinIO client, a parameter.
-- Seed: internal/seed/seed.go, the data for local development.
-- Migrations: internal/platform/postgres/migrator.go; what the SQL of a file does is a parameter.
-- Repository.Users (internal/repository/user_repository.go) and Platform.Accounts
-- (internal/platform/postgres/auth_store.go): accounts, passwords' hashes, and what a deleted user
-- takes along. An account that breaks the unique index on lower(email) uses up an id of the sequence,
-- and lower() is the environment's (Env.lower).
-- Http (internal/transport/http): the handlers, RequireJWT (Http.Auth) and the routes (Http.Router).
-- What gin and go-auth do is a parameter, Http.Gateway: the JSON of a body, forms, which path a
-- pattern takes, the answer (404 or a redirect) where no route takes it, tokens, and the authenticator
-- with its effect on the tables. A response is a status and the value that is encoded. Http.Server is the state of the program: the tables, the queue of
-- events and the object store.
-- Tests: a small database at which the theorems are applied.
--
-- Numbers: ids, counts and instants are natural numbers; input that may be negative is a signed
-- integer until it is validated. Ids stay below 2 ^ 63, which the theorems on cursors assume.
-- A sequence's next value is not used up by a statement that is rolled back.
-- Fuel: the loop of GetFeed is on fuel, and one more than the number of candidates behind the
-- cursor is enough. The loop of ensureBucket is on fuel: one more than the passes before its context
-- is done. The steps of the workers after Close are bounded by Events.Shutdown.steps_left. FormatInt
-- writes at most 19 digits, enough for an int64.
-- Constraints: the CHECKs and foreign keys of the tables are tested by each statement that writes,
-- and a violation is an `internal` error, as in the code.
--
-- Not modelled: transactions that overlap, Redis and what it does with an event, go-auth's tokens and
-- hashing, configuration and start-up, and the analytics service in Python. A text is its code
-- points: bytes that are no UTF-8 are left out.
pub mod Base
pub mod Models
pub mod Text
pub mod Errors
pub mod Geo
pub mod Database
pub mod Events
pub mod Migrations
pub mod Repository
pub mod Service
pub mod Platform
pub mod Http
pub mod Seed
pub mod Tests
