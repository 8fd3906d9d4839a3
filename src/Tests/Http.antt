-- ===== src/Tests/Http.antt =====
-- The theorems on requests, applied, with stand-ins for gin and go-auth.
use Prim.Native.String.{String}
use text.Mathlib.Text.{◌==◌ as str_eq}
use tinder_like_back.Base.{
  ◌≡◌, ℕ, Option, refl, ap, sym, ◌∙◌, Bool, true, false, ◌&&◌, none, some, List, [], ◌∷◌, find?,
}
use tinder_like_back.Base.Int.{pos}
use tinder_like_back.Models.{Text}
use tinder_like_back.Text.{parse_int, parse_digits, is_digit}
use tinder_like_back.Errors.{Result, ok, err}
use tinder_like_back.Database.{Db}
use tinder_like_back.Platform.Accounts.{StorageUser, create_user}
use tinder_like_back.Http.{
  error_literal, json, Request, Claims, Gateway, Server, AuthResult, authenticated, refused,
  already_exists, invalid_credentials,
}
use tinder_like_back.Repository.Chats.{is_chat_participant}
use tinder_like_back.Http.Failing.{Unchanged}
use tinder_like_back.Http.Router.{like, messages, user_handler, takes, routes, dispatch}
use tinder_like_back.Http.Router.Guarded.{NamesNobody, Guarded, dispatch-Guarded}
use tinder_like_back.Http.Router.Unchanged.{is_account_call, dispatch-Unchanged}
use tinder_like_back.Http.Router.Consistent.{serve_all, serve_all-IsConsistent}
use tinder_like_back.Repository.Ribbon.Consistency.{IsConsistent}
use tinder_like_back.Tests.Likes.{town-IsConsistent}
use tinder_like_back.Http.Router.Hidden.{user_handler-hidden}
use tinder_like_back.Http.Router.Statuses.{LikeAnswers, like-LikeAnswers}
use tinder_like_back.Events.{new_publisher}
use tinder_like_back.Tests.{calm, town, matched, whole}
use tinder_like_back.Tests.Photos.{shelf}

abbrev pub same_path : List String → List String → Bool
same_path [] [] = true
same_path (x ∷ xs) (y ∷ ys) = str_eq x y && same_path xs ys
same_path _ _ = false

-- The two paths of the tests.
abbrev pub spelled : Text → List String
spelled [] = "health" ∷ []
spelled (c ∷ s) = "api" ∷ "v1" ∷ "ribbon" ∷ "likes" ∷ []

abbrev pub registered : Result StorageUser × Db → AuthResult × Db
registered (ok user, db) = (authenticated user, db)
registered (err e, db) = (refused already_exists, db)

-- A token is the user's id, and a body is a number.
abbrev pub gateway : Gateway
gateway = record {
  claims = λ header. some (record { user_id = header; email = [] });
  generate = λ user. some user.id;
  register = λ email password db.
      registered
        (create_user calm (record { id = []; email = email; provider = ""; created_at = 0 }) db);
  authenticate = λ email password db. (refused invalid_credentials, db);
  to_lower = λ s. s;
  bind_register = λ body. none;
  bind_login = λ body. none;
  bind_target = λ body. parse_int body;
  bind_report = λ body. none;
  bind_preferences = λ body. none;
  bind_profile = λ body. none;
  bind_message = λ body. some body;
  form_file = λ body. none;
  extension_type = λ name. [];
  new_key = some (97 ∷ []);
  matches = λ pattern path. same_path pattern (spelled path);
  no_route = λ req. json 404 (error_literal "404 page not found");
}

abbrev pub server : Db → Server (List Text)
server db = record { world = record { db = db; publisher = some (new_publisher 8) }; objects = [] }

-- POST /api/v1/ribbon/likes with the header and the body.
abbrev pub post_like : Text → Text → Request
post_like header body = record {
  method = "POST";
  path = b'l' ∷ [];
  authorization = header;
  query = λ key. none;
  param = [];
  body = body;
}

abbrev pub nobody : Text
nobody = b'0' ∷ []

abbrev pub first_user : Text
first_user = b'1' ∷ []

abbrev pub second_user : Text
second_user = b'2' ∷ []

reads_zero : parse_int nobody ≡ some (pos 0)
unfolding parse_int parse_digits is_digit
reads_zero = refl

names_nobody : NamesNobody gateway calm whole 5 shelf (post_like nobody first_user)
names_nobody c n e k =
    let same : nobody ≡ c.user_id = ap named e in number (sym reads_zero ∙ ap parse_int same ∙ k)
  where
    named : Option Claims → Text
    named none = []
    named (some c) = c.user_id

    number : {n : ℕ} → some (pos 0) ≡ some (pos n) → n ≡ 0
    number h = cc

dispatch-Guarded_example :
    Guarded gateway calm whole 5 shelf
      (post_like nobody first_user)
      (server town)
      (dispatch gateway calm whole 5 shelf (post_like nobody first_user) (server town))
dispatch-Guarded_example =
    dispatch-Guarded gateway calm whole 5 shelf (post_like nobody first_user) (server town)
      names_nobody

no_account_call :
    (header body : Text)
    → is_account_call (find? (takes gateway calm whole 5 shelf (post_like header body)) routes)
      ≡ false
unfolding routes
no_account_call header body = refl

dispatch-Unchanged_example :
    Unchanged
      (server town)
      (dispatch gateway calm whole 5 shelf (post_like first_user first_user) (server town))
dispatch-Unchanged_example =
    dispatch-Unchanged gateway calm whole 5 shelf (post_like first_user first_user) (server town)
      (no_account_call first_user first_user)

-- A like, with a token whose bearer is the first user, and a request to itself.
serve_all-IsConsistent_example :
    IsConsistent
      (serve_all gateway whole 5 shelf
        ((calm, post_like first_user second_user) ∷ (calm, post_like first_user first_user) ∷ [])
        (server town)).world.db
serve_all-IsConsistent_example =
    serve_all-IsConsistent gateway whole 5 shelf
      ((calm, post_like first_user second_user) ∷ (calm, post_like first_user first_user) ∷ [])
      (server town)
      (no_account_call first_user second_user, (no_account_call first_user first_user, tt))
      town-IsConsistent

reads_number : (parse_int (b'1' ∷ []) ≡ some (pos 1)) × (parse_int (b'7' ∷ []) ≡ some (pos 7))
unfolding parse_int parse_digits is_digit
reads_number = (refl, refl)

takes_no_part :
    (is_chat_participant matched 3 1 ≡ false) × (is_chat_participant matched 3 7 ≡ false)
unfolding is_chat_participant
takes_no_part = (refl, refl)

-- The third user takes no part in the chat of the first two, and there is no chat 7.
user_handler-hidden_example :
    user_handler gateway calm whole 5 shelf messages 3 []
      (record (post_like [] []) { param = b'1' ∷ [] })
      (server matched)
    ≡ user_handler gateway calm whole 5 shelf messages 3 []
        (record (post_like [] []) { param = b'7' ∷ [] })
        (server matched)
user_handler-hidden_example =
    user_handler-hidden gateway calm whole 5 shelf messages 3 [] (post_like [] []) (b'1' ∷ [])
      (b'7' ∷ []) 0 6 (server matched) refl reads_number.0 reads_number.1 takes_no_part.0
      takes_no_part.1

like-LikeAnswers_example :
    LikeAnswers town 1
      (gateway.bind_target (b'2' ∷ []))
      (user_handler gateway calm whole 5 shelf like 1 []
        (post_like first_user (b'2' ∷ []))
        (server town)).0
like-LikeAnswers_example =
    like-LikeAnswers gateway calm whole 5 shelf 1 [] (post_like first_user (b'2' ∷ []))
      (server town) (λ s. refl)
