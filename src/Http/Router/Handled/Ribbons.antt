-- ===== src/Http/Router/Handled/Ribbons.antt =====
-- The handlers of /ribbon.
use tinder_like_back.Base.{ℕ, arith}
use tinder_like_back.Geo.{FloatOps}
use tinder_like_back.Models.{Text}
use tinder_like_back.Database.{Env}
use tinder_like_back.Repository.Discovery.{get_filters}
use tinder_like_back.Service.Photos.{ObjectStore}
use tinder_like_back.Service.Feed.{get_feed, get_incoming_likes}
use tinder_like_back.Service.Feed.Refinement.{feed_repository}
use tinder_like_back.Service.Preferences.{preferences_repository, get_preferences, save_preferences}
use tinder_like_back.Service.Feed.Reading.{
  get_feed-IsReader, get_incoming_likes-IsReader, get_filters-IsReader,
}
use tinder_like_back.Service.Failures.{save_preferences-IsAtomic}
use tinder_like_back.Service.Ribbon as RibbonService
use tinder_like_back.Service.Ribbon.{ribbon_repository}
use tinder_like_back.Service.Ribbon.Requests.{
  Request as Command, dislikes, blocks, unblocks, reports, serve,
}
use tinder_like_back.Http.{
  feed_page, likes_page, preferences, like_output, json_of, Response, Request, Gateway, Server,
}
use tinder_like_back.Http.Query.{feed_input}
use tinder_like_back.Http.Ribbon
use tinder_like_back.Http.Failing.{like-CallFails, serve-CallFails}
use tinder_like_back.Http.Router.{
  UserRoute, feed, incoming_likes, show_preferences, put_preferences, like, dislike, block, unblock,
  report, user_handler,
}
use tinder_like_back.Service.Ribbon.{Call}
use tinder_like_back.Service.Related.{save_preferences-Leaves}
use tinder_like_back.Service.Related.Calls.{like-Preserves, serve-Preserves}
use tinder_like_back.Http.Router.Handled.{
  Handled, run_action-Handled, run_reader-Handled, run_call-Handled, bind_json-Handled,
}

module _ (gateway : Gateway) (env : Env) (fl : FloatOps) (fuel : ℕ) {S : Type 0}
    (storage : ObjectStore S) (user : ℕ) (email : Text) (req : Request) (s : Server S) where
  -- The response and the state of a route's handler.
  abbrev at : UserRoute → Response × Server S
  at route = user_handler gateway env fl fuel storage route user email req s

  pub like-Handled : Handled s (at like)
  unfolding user_handler Ribbon.like Ribbon.respond
  like-Handled = bind_json-Handled s (gateway.bind_target req.body) _ (λ target.
      run_call-Handled Ribbon.respond_failure (Ribbon.respond_with like_output) (λ a. omega arith) s
        (RibbonService.like env (ribbon_repository env) user target)
        (like-CallFails env user s.world target) (like-Preserves env user s.world target))

  -- A request that `serve` passes to the service.
  served : (q : Command) → Handled s (Ribbon.run_silent gateway env fl fuel (serve env user q) s)
  unfolding Ribbon.respond
  served q =
      run_call-Handled Ribbon.respond_failure Ribbon.respond_done (λ u. omega arith) s
        (serve env user q) (serve-CallFails env user s.world q) (serve-Preserves env user s.world q)

  pub ribbon-Handled :
      Handled s (at dislike) × Handled s (at block) × Handled s (at unblock) × Handled s (at report)
  unfolding user_handler Ribbon.dislike Ribbon.block Ribbon.unblock Ribbon.report serve
  ribbon-Handled = (
    bind_json-Handled s (gateway.bind_target req.body) _ (λ target. served (dislikes target)),
    bind_json-Handled s (gateway.bind_target req.body) _ (λ target. served (blocks target)),
    bind_json-Handled s (gateway.bind_target req.body) _ (λ target. served (unblocks target)),
    bind_json-Handled s (gateway.bind_report req.body) _
        (λ input. served (reports input.target_user_id input.reason input.comment)),
  )

  pub feeds-Handled : Handled s (at feed) × Handled s (at incoming_likes)
  unfolding user_handler Ribbon.feed Ribbon.incoming_likes Ribbon.respond
  feeds-Handled = (
    run_reader-Handled Ribbon.respond_failure (Ribbon.respond_with feed_page) (λ a. omega arith) s
        (get_feed fl (feed_repository fl env) fuel user (feed_input req))
        (get_feed-IsReader fl env fuel user (feed_input req)),
    run_reader-Handled Ribbon.respond_failure (Ribbon.respond_with likes_page) (λ a. omega arith) s
        (get_incoming_likes fl (feed_repository fl env) user (feed_input req))
        (get_incoming_likes-IsReader fl env fuel user (feed_input req)),
  )

  pub preferences-Handled : Handled s (at show_preferences) × Handled s (at put_preferences)
  unfolding user_handler Ribbon.show_preferences Ribbon.put_preferences get_preferences
  preferences-Handled = (
    run_reader-Handled Ribbon.respond_failure (json_of 200 preferences) (λ a. omega arith) s
        (get_filters env user) (get_filters-IsReader env user),
    bind_json-Handled s (gateway.bind_preferences req.body) _ (λ input.
        run_action-Handled Ribbon.respond_failure (json_of 200 preferences) (λ a. omega arith) s
          (save_preferences (preferences_repository env) user input)
          (save_preferences-IsAtomic env user input) (save_preferences-Leaves env user input)),
  )
