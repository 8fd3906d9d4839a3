-- ===== src/Tests/Likes.antt =====
-- The theorems on likes, dislikes and blocks, applied.
use tinder_like_back.Base.{◌≡◌, refl, some, List, [], ◌∷◌}
use tinder_like_back.Base.Int.{pos}
use tinder_like_back.Database.{Env}
use tinder_like_back.Repository.Ribbon.{has_swipe, create_like, create_block}
use tinder_like_back.Repository.Ribbon.Consistency.{IsConsistent}
use tinder_like_back.Repository.Ribbon.Likes.{
  Likes, create_like-Likes, like_error, error_of, create_like-error,
}
use tinder_like_back.Repository.Ribbon.Exclusions.{Blocks, create_block-Blocks}
use tinder_like_back.Repository.Ribbon.History
use tinder_like_back.Repository.Ribbon.History.{Command, run, run-IsConsistent}
use tinder_like_back.Repository.Ribbon.Closed.{IsClosed, run-IsClosed}
use tinder_like_back.Service.Ribbon.{World, ribbon_repository, like}
use tinder_like_back.Service.Ribbon.Published.{Liked, like-Liked}
use tinder_like_back.Service.Ribbon.Requests.{blocks, serve, Served, serve-Served}
use tinder_like_back.Events.{new_publisher}
use tinder_like_back.Tests.{calm, town, matched, parted}

pub town-IsConsistent : IsConsistent town
unfolding has_swipe
town-IsConsistent = record {
  swipes_unique = (refl, tt);
  exclusions_unique = tt;
  chats_unique = tt;
  chats_mutual = tt;
  chats_open = tt;
  chats_stored = tt;
}

-- A match, a block of it, and another like.
abbrev pub affair : List (Env × Command)
affair =
    (calm, History.like 1 2)
    ∷ (calm, History.block 1 2)
    ∷ (calm, History.unblock 1 2)
    ∷ (calm, History.like 2 1)
    ∷ []

run-IsConsistent_example : IsConsistent (run affair town)
run-IsConsistent_example = run-IsConsistent affair town town-IsConsistent

run-IsClosed_example : IsClosed 1 2 (run affair parted)
run-IsClosed_example = run-IsClosed affair 1 2 parted (refl, ((λ h. refl), tt))

create_like-Likes_example : Likes 1 2 town (create_like calm 1 2 town)
create_like-Likes_example = create_like-Likes calm 1 2 town

create_like-error_example : error_of (create_like calm 1 2 town).0 ≡ like_error town 1 2
create_like-error_example = create_like-error calm 1 2 town (λ s. refl)

create_block-Blocks_example : Blocks 1 2 matched (create_block calm 1 2 matched)
create_block-Blocks_example = create_block-Blocks calm 1 2 matched

abbrev pub busy : World
busy = record { db = town; publisher = some (new_publisher 8) }

like-Liked_example : Liked calm 1 (pos 2) busy (like calm (ribbon_repository calm) 1 (pos 2) busy)
like-Liked_example = like-Liked calm 1 (pos 2) busy

serve-Served_example : Served calm 1 (blocks (pos 2)) busy (serve calm 1 (blocks (pos 2)) busy)
serve-Served_example = serve-Served calm 1 (blocks (pos 2)) busy
