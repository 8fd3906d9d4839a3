-- ===== src/Http/Ribbon.antt =====
-- handlers/ribbon.go.
use tinder_like_back.Base.{ℕ, Option, none, some}
use tinder_like_back.Errors.{
  Error, invalid_feed_cursor, invalid_feed_limit, profile_coordinates_required, invalid_target_user,
  invalid_report_reason, report_comment_too_long, invalid_discovery_age, invalid_discovery_gender,
  invalid_discovery_distance, target_user_not_found, users_excluded,
  discovery_preferences_not_found, profile_not_found, orphaned,
}
use tinder_like_back.Database.{Env}
use tinder_like_back.Geo.{FloatOps}
use tinder_like_back.Service.Ribbon
use tinder_like_back.Service.Ribbon.{RibbonStore, Call}
use tinder_like_back.Service.Feed.{FeedStore, get_feed, get_incoming_likes}
use tinder_like_back.Service.Preferences.{PreferencesStore, get_preferences, save_preferences}
use tinder_like_back.Http.{
  Body, error_literal, error_text, feed_page, likes_page, preferences, like_output, Response,
  Gateway, Server, UserHandler, json, json_of, no_content, run_action, run_call,
}
use tinder_like_back.Http.Query.{feed_input}

unfoldable pub ribbon_error : Error → Response
ribbon_error invalid_feed_cursor = json 400 (error_text invalid_feed_cursor)
ribbon_error invalid_feed_limit = json 400 (error_text invalid_feed_limit)
ribbon_error invalid_target_user = json 400 (error_text invalid_target_user)
ribbon_error invalid_report_reason = json 400 (error_text invalid_report_reason)
ribbon_error report_comment_too_long = json 400 (error_text report_comment_too_long)
ribbon_error invalid_discovery_age = json 400 (error_text invalid_discovery_age)
ribbon_error invalid_discovery_gender = json 400 (error_text invalid_discovery_gender)
ribbon_error invalid_discovery_distance = json 400 (error_text invalid_discovery_distance)
ribbon_error target_user_not_found = json 404 (error_text target_user_not_found)
ribbon_error profile_not_found = json 404 (error_text profile_not_found)
ribbon_error discovery_preferences_not_found = json 409 (error_text discovery_preferences_not_found)
ribbon_error profile_coordinates_required = json 409 (error_text profile_coordinates_required)
ribbon_error users_excluded = json 409 (error_text users_excluded)
ribbon_error (orphaned e) = ribbon_error e
ribbon_error _ = json 500 (error_literal "ribbon operation failed")

-- respond(c, result, err): no result is 204.
unfoldable pub respond : Option Body → Option Error → Response
unfolding ribbon_error
respond result (some e) = ribbon_error e
respond none none = no_content
respond (some body) none = json 200 body

abbrev pub respond_failure : Error → Response
respond_failure e = respond none (some e)

abbrev pub respond_with : {A : Type 0} → (A → Body) → A → Response
respond_with body a = respond (some (body a)) none

-- h.respond(c, nil, err)
abbrev pub respond_done : Unit {0} → Response
respond_done u = respond none none

unfoldable pub bind_error : Response
bind_error = json 400 (error_literal "invalid request body")

-- `if !bindJSON(c, &input) { return }`
abbrev pub bind_json :
    {S A : Type 0}
    → Option A
    → (A → Server S → Response × Server S)
    → Server S
    → Response × Server S
bind_json none next s = (bind_error, s)
bind_json (some input) next s = next input s

module _ (gateway : Gateway) (env : Env) (fl : FloatOps) (fuel : ℕ) {S : Type 0} where
  abbrev pub run_ribbon : {A : Type 0} → (A → Body) → Call A → Server S → Response × Server S
  run_ribbon body call = run_call respond_failure (respond_with body) call

  abbrev pub run_silent : Call (Unit {0}) → Server S → Response × Server S
  run_silent call = run_call respond_failure respond_done call

  module _ (feeds : FeedStore) where
    unfoldable pub feed : UserHandler S
    unfolding respond
    feed user email req =
        run_action respond_failure (respond_with feed_page)
          (get_feed fl feeds fuel user (feed_input req))

    unfoldable pub incoming_likes : UserHandler S
    unfolding respond
    incoming_likes user email req =
        run_action respond_failure (respond_with likes_page)
          (get_incoming_likes fl feeds user (feed_input req))

  module _ (filters : PreferencesStore) where
    unfoldable pub show_preferences : UserHandler S
    unfolding respond
    show_preferences user email req =
        run_action respond_failure (json_of 200 preferences) (get_preferences filters user)

    unfoldable pub put_preferences : UserHandler S
    unfolding respond bind_error
    put_preferences user email req = bind_json (gateway.bind_preferences req.body) (λ input.
        run_action respond_failure (json_of 200 preferences) (save_preferences filters user input))

  module _ (ribbons : RibbonStore) where
    unfoldable pub like : UserHandler S
    unfolding respond bind_error
    like user email req =
        bind_json (gateway.bind_target req.body)
          (λ target. run_ribbon like_output (Ribbon.like env ribbons user target))

    unfoldable pub dislike : UserHandler S
    unfolding respond bind_error
    dislike user email req =
        bind_json (gateway.bind_target req.body)
          (λ target. run_silent (Ribbon.dislike env ribbons user target))

    unfoldable pub block : UserHandler S
    unfolding respond bind_error
    block user email req =
        bind_json (gateway.bind_target req.body)
          (λ target. run_silent (Ribbon.block env ribbons user target))

    unfoldable pub unblock : UserHandler S
    unfolding respond bind_error
    unblock user email req =
        bind_json (gateway.bind_target req.body)
          (λ target. run_silent (Ribbon.unblock env ribbons user target))

    unfoldable pub report : UserHandler S
    unfolding respond bind_error
    report user email req = bind_json (gateway.bind_report req.body) (λ input.
        run_silent (Ribbon.report env ribbons user input.target_user_id input.reason input.comment))
