-- ===== src/Platform/Storage.antt =====
-- go-core/internal/platform/objectstorage/minio.go: the client of the object store.
pub mod Bucket
use tinder_like_back.Base.{ℕ, zero, suc, Bool, true, false, ◌||◌, Option, none, some, if◌then◌else◌}
use tinder_like_back.Models.{Text}
use tinder_like_back.Text.{is_empty}
use tinder_like_back.Service.Photos.{ObjectStore}

-- minio.Client, over the state `S` of the store. BucketExists gives none for an error; the others say
-- whether they succeeded. PutObject takes the bucket, the key, the content, the size and the content
-- type.
pub record Minio (S : Type 0) : Type 0 where
  pub bucket_exists : Text → S → Option Bool × S
  pub make_bucket : Text → S → Bool × S
  pub put_object : Text → Text → Text → ℕ → Text → S → Bool × S
  pub remove_object : Text → Text → S → Bool × S

-- The error of an attempt: "create photo bucket" or "check photo bucket".
pub data Failure : Type 0 where
  create_photo_bucket check_photo_bucket : Failure

-- What New returns.
pub data Opened : Type 0 where
  client : Text → Opened
  -- "object storage endpoint, credentials, and bucket are required"
  settings_required : Opened
  create_client : Opened
  initialize_bucket : Failure → Opened

module _ {S : Type 0} where
  module _ (minio : Minio S) (bucket : Text) where
    abbrev pub made : Bool × S → Option Failure × S
    made (true, s) = (none, s)
    made (false, s) = (some create_photo_bucket, s)

    abbrev pub checked : Option Bool × S → Option Failure × S
    checked (none, s) = (some check_photo_bucket, s)
    checked (some true, s) = (none, s)
    checked (some false, s) = made (minio.make_bucket bucket s)

    -- One pass of the loop, up to its select.
    unfoldable pub attempt : S → Option Failure × S
    attempt s = checked (minio.bucket_exists bucket s)

    -- The select takes ctx.Done() or the timer.
    abbrev pub after_attempt :
        (S → Option (Option Failure × S)) → Bool → Option Failure × S → Option (Option Failure × S)
    after_attempt again done (none, s) = some (none, s)
    after_attempt again true (some e, s) = some (some e, s)
    after_attempt again false (some e, s) = again s

    -- `done k` is whether the select of pass k takes ctx.Done(). On fuel: none is a loop that goes on.
    unfoldable pub ensure_bucket : (ℕ → Bool) → ℕ → S → Option (Option Failure × S)
    unfolding attempt
    ensure_bucket done zero s = none
    ensure_bucket done (suc fuel) s =
        after_attempt (ensure_bucket (λ k. done (suc k)) fuel) (done 0) (attempt s)

    abbrev pub opened : Option (Option Failure × S) → Option (Opened × S)
    opened none = none
    opened (some (none, s)) = some (client bucket, s)
    opened (some (some e, s)) = some (initialize_bucket e, s)

  abbrev pub connected : Text → (ℕ → Bool) → ℕ → Option (Minio S) → S → Option (Opened × S)
  connected bucket done fuel none s = some (create_client, s)
  connected bucket done fuel (some minio) s =
      opened minio bucket (ensure_bucket minio bucket done fuel s)

  -- New, where `connect` is minio.New of the endpoint, the keys and useSSL.
  unfoldable pub new :
      (Text → Text → Text → Bool → Option (Minio S))
      → (ℕ → Bool)
      → ℕ
      → Text
      → Text
      → Text
      → Text
      → Bool
      → S
      → Option (Opened × S)
  unfolding ensure_bucket
  new connect done fuel endpoint access_key secret_key bucket use_ssl s =
      if ((is_empty endpoint || is_empty access_key) || is_empty secret_key) || is_empty bucket
      then some (settings_required, s)
      else connected bucket done fuel (connect endpoint access_key secret_key use_ssl) s

  -- Bucket, Put and Delete of a client.
  abbrev pub object_store : Minio S → Text → ObjectStore S
  object_store minio bucket = record {
    bucket = bucket;
    put = λ key content_type size content. minio.put_object bucket key content size content_type;
    delete = minio.remove_object bucket;
  }
