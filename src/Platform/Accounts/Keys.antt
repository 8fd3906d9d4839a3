-- ===== src/Platform/Accounts/Keys.antt =====
-- The unique keys of the table of users, and changes of one row.
use tinder_like_back.Base.{
  ℕ, ◌<◌, ◌≡◌, refl, ◌∙◌, subst, sym, Bool, true, false, not, ◌&&◌, ◌==◌, List, [], ◌∷◌, any, arith,
  All, All-map, Bool-cases, inl, inr, if◌then◌else◌,
}
use tinder_like_back.Base.Int.{ℤ}
use tinder_like_back.Base.Tables.{Unique}
use tinder_like_back.Models.{Text, User}
use tinder_like_back.Text.{text_eq}
use tinder_like_back.Database.{Db}
use tinder_like_back.Platform.Accounts.{has_id, update_where}

abbrev pub same_id : User → User → Bool
same_id u v = v.id == u.id

abbrev pub same_email : (Text → Text) → User → User → Bool
same_email lower u v = text_eq (lower v.email) (lower u.email)

abbrev pub IsKey : ℕ → User → Type 0
IsKey next u = (0 < u.id) × (u.id < next)

-- The primary key, the unique index on lower(email), and ids from the sequence.
pub record IsAccounts (lower : Text → Text) (db : Db) : Type 0 where
  pub emails_unique : Unique (same_email lower) db.users
  pub ids_unique : Unique same_id db.users
  pub ids_drawn : All (IsKey db.next_user_id) db.users
  pub next_positive : 0 < db.next_user_id

pub text_eq_comm : (s t : Text) → text_eq s t ≡ text_eq t s
text_eq_comm [] [] = refl
text_eq_comm [] (d ∷ t) = refl
text_eq_comm (c ∷ s) [] = refl
text_eq_comm (c ∷ s) (d ∷ t) = ground (arith, text_eq_comm s t)

pub any-id-below :
    (next : ℕ) (xs : List User) → All (IsKey next) xs → any (λ v. v.id == next) xs ≡ false
any-id-below next [] a = refl
any-id-below next (x ∷ xs) a = ground (arith, any-id-below next xs a.1, a.0)

pub has_id-same :
    (id : ℤ) (x : User) (xs : List User)
    → has_id id x ≡ true
    → any (same_id x) xs ≡ any (has_id id) xs
has_id-same id x [] h = refl
has_id-same id x (y ∷ xs) h = ground (arith, has_id-same id x xs h)

pub update_where_miss :
    (id : ℤ) (f : User → User) (xs : List User)
    → any (has_id id) xs ≡ false
    → update_where (has_id id) f xs ≡ xs
update_where_miss id f [] h = refl
update_where_miss id f (x ∷ xs) h = ground (arith, update_where_miss id f xs)

-- A change that keeps ids keeps their tests.
module _ (id : ℤ) (f : User → User) (keeps : (u : User) → (f u).id ≡ u.id) where
  pub any-id-update :
      (x : User) (xs : List User)
      → any (same_id x) (update_where (has_id id) f xs) ≡ any (same_id x) xs
  any-id-update x [] = refl
  any-id-update x (y ∷ xs) = ground (arith, any-id-update x xs, keeps y)

  pub update_id : (x : User) → (if has_id id x then f x else x).id ≡ x.id
  update_id x = ground (arith, keeps x)

  pub update-Unique_id :
      (xs : List User) → Unique same_id xs → Unique same_id (update_where (has_id id) f xs)
  update-Unique_id [] u = tt
  update-Unique_id (x ∷ xs) u = (
    subst (λ k. any (λ v. v.id == k) (update_where (has_id id) f xs) ≡ false) (sym (update_id x))
        (any-id-update x xs ∙ u.0),
    update-Unique_id xs u.1,
  )

  pub update-IsKey :
      (next : ℕ) (xs : List User)
      → All (IsKey next) xs
      → All (IsKey next) (update_where (has_id id) f xs)
  update-IsKey next xs a =
      All-map (IsKey next) (IsKey next) _ xs
        (λ x k. subst (λ i. (0 < i) × (i < next)) (sym (update_id x)) k) a

module _ (lower : Text → Text) (id : ℤ) where
  -- A change that keeps emails keeps their tests.
  module _ (f : User → User) (keeps : (u : User) → (f u).email ≡ u.email) where
    any-email-update :
        (e : Text) (xs : List User)
        → any (λ v. text_eq (lower v.email) (lower e)) (update_where (has_id id) f xs)
          ≡ any (λ v. text_eq (lower v.email) (lower e)) xs
    any-email-update e [] = refl
    any-email-update e (y ∷ xs) = ground (arith, any-email-update e xs, keeps y)

    update_email : (x : User) → (if has_id id x then f x else x).email ≡ x.email
    update_email x = ground (arith, keeps x)

    pub update-Unique_email :
        (xs : List User)
        → Unique (same_email lower) xs
        → Unique (same_email lower) (update_where (has_id id) f xs)
    update-Unique_email [] u = tt
    update-Unique_email (x ∷ xs) u = (
      subst
          (λ e.
            any (λ v. text_eq (lower v.email) (lower e)) (update_where (has_id id) f xs) ≡ false)
          (sym (update_email x)) (any-email-update x.email xs ∙ u.0),
      update-Unique_email xs u.1,
    )

  module _ (email : Text) where
    -- Another row with the email.
    abbrev others : List User → Bool
    others = any (λ u. not (has_id id u) && text_eq (lower u.email) (lower email))

    abbrev renamed : List User → List User
    renamed = update_where (has_id id) (λ u. record u { email = email })

    any-others-miss :
        (xs : List User)
        → any (has_id id) xs ≡ false
        → others xs ≡ false
        → any (λ v. text_eq (lower v.email) (lower email)) xs ≡ false
    any-others-miss [] h o = refl
    any-others-miss (x ∷ xs) h o = ground (arith, any-others-miss xs)

    any-renamed :
        (x : User) (xs : List User)
        → text_eq (lower x.email) (lower email) ≡ false
        → any (same_email lower x) xs ≡ false
        → any (same_email lower x) (renamed xs) ≡ false
    any-renamed x [] n h = refl
    any-renamed x (y ∷ xs) n h =
        ground (arith, any-renamed x xs n, text_eq_comm (lower x.email) (lower email))

    pub renamed-Unique :
        (xs : List User)
        → others xs ≡ false
        → Unique same_id xs
        → Unique (same_email lower) xs
        → Unique (same_email lower) (renamed xs)
    renamed-Unique [] o i u = tt
    renamed-Unique (x ∷ xs) o i u = elim (Bool-cases (has_id id x)) [
      | inl hit ↦
          rw
            (
              hit,
              update_where_miss id (λ u. record u { email = email }) xs
                  (sym (has_id-same id x xs hit) ∙ i.0),
            )
            (any-others-miss xs (sym (has_id-same id x xs hit) ∙ i.0) (ground arith), u.1)
      | inr miss ↦
          rw miss (any-renamed x xs (ground arith) u.0, renamed-Unique xs (ground arith) i.1 u.1)
    ]
