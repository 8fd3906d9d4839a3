-- ===== src/Tests/Seed.antt =====
-- Runs of go-core/internal/seed/seed.go.
use tinder_like_back.Base.{◌≡◌, refl, some, [], ◌∷◌, true}
use tinder_like_back.Geo.{FloatOps}
use tinder_like_back.Errors.{ok}
use tinder_like_back.Database.{Db}
use tinder_like_back.Database.{user_exists}
use tinder_like_back.Repository.Profiles.{profile_allowed}
use tinder_like_back.Repository.Discovery.{preferences_allowed}
use tinder_like_back.Repository.Ribbon.{pair_allowed}
use tinder_like_back.Seed.{load}
use tinder_like_back.Seed.Twice.{Repeats, load-Repeats}
use tinder_like_back.Tests.{whole, town, calm}

-- Floats of which nothing is asked: every comparison holds.
abbrev pub permissive : FloatOps
permissive = record whole { le = λ a b. true }

abbrev seeded : Db
seeded = (load permissive calm (some (97 ∷ [])) town).1

seeded_once : load permissive calm (some (97 ∷ [])) town ≡ (ok tt, seeded)
unfolding load profile_allowed user_exists preferences_allowed pair_allowed
seeded_once = refl

load-Repeats_example : Repeats seeded (load permissive calm (some (98 ∷ [])) seeded)
load-Repeats_example =
    load-Repeats permissive calm calm (97 ∷ []) (98 ∷ []) town seeded seeded_once (λ stage. refl)
      refl
