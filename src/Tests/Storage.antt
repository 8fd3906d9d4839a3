-- ===== src/Tests/Storage.antt =====
-- A store that is not ready for its first two calls.
use tinder_like_back.Base.{
  ℕ, zero, suc, refl, ◌≡◌, Bool, true, false, Option, none, some, [], ◌∷◌, leb,
}
use tinder_like_back.Platform.Storage.{Minio, attempt, ensure_bucket}
use tinder_like_back.Platform.Storage.Bucket.{Ends, ensure_bucket-Ends}

-- The state counts the calls.
abbrev slow_store : Minio ℕ
slow_store = record {
  bucket_exists = λ bucket s. (answer s, suc s);
  make_bucket = λ bucket s. (true, suc s);
  put_object = λ bucket key content size content_type s. (true, suc s);
  remove_object = λ bucket key s. (true, suc s);
}
  where
    answer : ℕ → Option Bool
    answer zero = none
    answer (suc zero) = none
    answer (suc (suc s)) = some false

ensure_bucket-Ends_example :
    Ends slow_store (112 ∷ []) (leb 9) 9 0 (ensure_bucket slow_store (112 ∷ []) (leb 9) 10 0)
ensure_bucket-Ends_example = ensure_bucket-Ends slow_store (112 ∷ []) (leb 9) 9 0 refl

-- The third pass makes the bucket.
third_pass : ensure_bucket slow_store (112 ∷ []) (leb 9) 10 0 ≡ some (none, 4)
unfolding ensure_bucket attempt
third_pass = refl
