-- ===== src/Tests/Feeds.antt =====
-- The theorems on the feed and on the preferences, applied.
use tinder_like_back.Base.{ℕ, ◌≡◌, refl, true, inr, some, List, [], ◌∷◌, take, arith}
use tinder_like_back.Base.Int.{pos}
use tinder_like_back.Base.Tables.{after, order_by}
use tinder_like_back.Text.{trim_space}
use tinder_like_back.Errors.{ok}
use tinder_like_back.Database.{Action, pure, user_exists}
use tinder_like_back.Geo.{Bounds, new_bounds}
use tinder_like_back.Repository.Ribbon.{has_swipe, are_excluded}
use tinder_like_back.Repository.Discovery.{
  find_preferences, candidate_id, is_incoming, is_candidate, with_user, age_years,
}
use tinder_like_back.Repository.Discovery.Eligible.{eligible}
use tinder_like_back.Repository.Profiles.{profile_of}
use tinder_like_back.Service.Ribbon.{normalize_feed_limit}
use tinder_like_back.Service.Chat.{ChatPageInput, read_cursor}
use tinder_like_back.Service.Feed.{FeedInput, feed_loop, feed_page, get_feed, search_radius}
use tinder_like_back.Service.Page.Walk.{walk}
use tinder_like_back.Service.Feed.Incoming.{incoming, incoming_page, walk-incoming}
use tinder_like_back.Service.Feed.Loop.{first_items, feed_loop-first_items}
use tinder_like_back.Service.Feed.Refinement.{feed_repository, feed_items, get_feed-feed_items}
use tinder_like_back.Service.Feed.Safety.{ShowsPage, get_feed-ShowsPage}
use tinder_like_back.Service.Preferences.{preferences_repository, save_preferences}
use tinder_like_back.Service.Preferences.Saved.{asked, Saves, save_preferences-Saves}
use tinder_like_back.Tests.{calm, town, wishes, card, whole}

abbrev pub numbers : List ℕ
numbers = 2 ∷ 3 ∷ 5 ∷ 8 ∷ []

abbrev pub read_numbers : ℕ → Action (List ℕ)
read_numbers c = pure (take 2 (after (λ n. n) c numbers))

feed_loop-first_items_example :
    feed_loop (λ n. n) some 3 2 read_numbers 5 2 [] town
    ≡ (ok (some (first_items (λ n. n) some 3 numbers 2 [])), town)
feed_loop-first_items_example =
    feed_loop-first_items (λ n. n) some 3 1 read_numbers town numbers 0
      (omega arith, (omega arith, (omega arith, (omega arith, tt)))) (λ c. refl) 5 2 []
      (omega arith) (omega arith)

abbrev pub request : FeedInput
request = record { limit = pos 2; cursor = [] }

abbrev pub everywhere : Bounds
everywhere = record { min_latitude = 0; max_latitude = 90; min_longitude = 0; max_longitude = 120 }

get_feed-feed_items_example :
    get_feed whole (feed_repository whole calm) 9 1 request town
    ≡ (ok (feed_page 2 (some (feed_items whole calm town 1 2 0 wishes everywhere (10, 20)))), town)
unfolding normalize_feed_limit read_cursor trim_space find_preferences profile_of new_bounds
    search_radius eligible with_user is_candidate age_years has_swipe are_excluded candidate_id
    order_by
get_feed-feed_items_example =
    get_feed-feed_items whole calm town 1 9 2 0 request wishes (card 1) (10, 20) everywhere
      ((omega arith, (omega arith, (omega arith, tt))), (refl, (refl, (refl, tt)))) refl refl refl
      refl refl refl refl refl refl (omega arith)

get_feed-ShowsPage_example :
    ShowsPage town 1 (get_feed whole (feed_repository whole calm) 9 1 request town)
get_feed-ShowsPage_example = get_feed-ShowsPage whole calm town 1 9 request

save_preferences-Saves_example :
    Saves calm 1 (asked (some (32 ∷ 82 ∷ [])) 20 30 (some 2) true 40) town (
      save_preferences
        (preferences_repository calm)
        1
        (asked (some (32 ∷ 82 ∷ [])) 20 30 (some 2) true 40)
        town)
unfolding user_exists
save_preferences-Saves_example =
    save_preferences-Saves calm 1 (some (32 ∷ 82 ∷ [])) 20 30 (some 2) true 40 town (omega arith)
      (omega arith) (omega arith) (inr (inr refl)) (omega arith) (omega arith) refl refl refl

walk-incoming_example : walk (incoming_page whole calm town 1 1) 2 [] ≡ incoming whole town 1
unfolding incoming is_incoming with_user has_swipe are_excluded candidate_id order_by
walk-incoming_example =
    walk-incoming whole calm town 1 0 2 refl (omega arith)
      ((omega arith, (omega arith, (omega arith, tt))), (refl, (refl, (refl, tt))))
      (omega arith, (omega arith, (omega arith, tt))) (omega arith)

-- One row for each page.
abbrev pub one_row : ChatPageInput
one_row = record { limit = pos 1; cursor = [] }
