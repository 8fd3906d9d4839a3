-- ===== src/Service/Related.antt =====
-- The likes, exclusions and chats under the calls of internal/service.
pub mod Calls
use tinder_like_back.Base.{
  ℕ, suc, ◌≡◌, refl, sym, ap, ◌∙◌, subst, Bool, true, false, not, ◌||◌, arith, Bool-cases, inl, inr,
  Option, none, some, any, List, All, All-mono,
}
use tinder_like_back.Base.Int.{ℤ, pos, pos_part, leb_ℤ, ltb_ℤ}
use tinder_like_back.Geo.{FloatOps}
use tinder_like_back.Models.{Text, Date, Profile, Message, UserPhoto, Swipe, UserExclusion, Chat}
use tinder_like_back.Errors.{Stage, Result, ok, err}
use tinder_like_back.Database.{Db, Env, Action, resume, fail_if, exec}
use tinder_like_back.Database.Failures.{IsReader, Result-cases}
use tinder_like_back.Repository.Discovery.{
  upsert_filters, saved_preferences, put_preferences, preferences_allowed,
}
use tinder_like_back.Repository.Profiles.{
  upsert, deactivate_profile, is_shown_profile, scan_profile, profile_allowed,
}
use tinder_like_back.Service.Profiles.Saving.{
  Keeps, with_profile, with_profile-Keeps, nothing_to_hide,
}
use tinder_like_back.Repository.Chats
use tinder_like_back.Service.Chat.{
  chat_repository, returned, ChatPageInput, normalize_chat_page, list, messages, send, mark_read,
}
use tinder_like_back.Service.Chat.Sending.{Sent, send-Sent}
use tinder_like_back.Repository.Chats.Reads.{Reads, mark_read-Reads}
use tinder_like_back.Service.Preferences.{
  SavePreferencesInput, preferences_repository, build_preferences, save_preferences,
}
use tinder_like_back.Service.Profiles.{
  SaveProfileInput, profile_repository, build_profile, save, deactivate,
}
use tinder_like_back.Service.Feed.Reading.{returned-IsReader}
use tinder_like_back.Repository.Ribbon.{has_swipe, is_swipe}
use tinder_like_back.Repository.Ribbon.Pairs.{has_ban}
use tinder_like_back.Repository.Ribbon.Consistency.{IsConsistent, IsMutual, IsOpen, IsStored}
use tinder_like_back.Repository.Ribbon.History.{
  Command, like, dislike, block, unblock, step, step-IsConsistent,
}

-- What IsConsistent is about is the same.
abbrev pub Same : Db → Db → Type 0
Same db after =
    (after.swipes ≡ db.swipes)
    × (after.exclusions ≡ db.exclusions)
    × (after.chats ≡ db.chats)
    × (after.next_chat_id ≡ db.next_chat_id)

-- `after` with the tables of relations from db.
abbrev related : List Swipe → List UserExclusion → List Chat → ℕ → Db → Db
related swipes exclusions chats next db = record db {
  swipes = swipes;
  exclusions = exclusions;
  chats = chats;
  next_chat_id = next;
}

related-IsConsistent :
    (db after : Db)
    → IsConsistent db
    → IsConsistent (related db.swipes db.exclusions db.chats db.next_chat_id after)
unfolding has_swipe has_ban
related-IsConsistent db after v = record {
  swipes_unique = v.swipes_unique;
  exclusions_unique = v.exclusions_unique;
  chats_unique = v.chats_unique;
  chats_mutual = v.chats_mutual;
  chats_open = v.chats_open;
  chats_stored = v.chats_stored;
}

pub Same-IsConsistent : (db after : Db) → Same db after → IsConsistent db → IsConsistent after
Same-IsConsistent db after (s, e, c, n) v =
    subst (λ k. IsConsistent (related after.swipes after.exclusions after.chats k after)) (sym n)
      (subst (λ k. IsConsistent (related after.swipes after.exclusions k db.next_chat_id after))
        (sym c)
        (subst (λ k. IsConsistent (related after.swipes k db.chats db.next_chat_id after)) (sym e)
          (subst (λ k. IsConsistent (related k db.exclusions db.chats db.next_chat_id after))
            (sym s) (related-IsConsistent db after v))))

pub Same-of : {db after : Db} → after ≡ db → Same db after
Same-of h = (
  ap (λ d. d.swipes) h,
  ap (λ d. d.exclusions) h,
  ap (λ d. d.chats) h,
  ap (λ d. d.next_chat_id) h,
)

abbrev pub Leaves : {A : Type 0} → Action A → Type 0
Leaves act = (db : Db) → Same db (act db).1

pub reader-Leaves : {A : Type 0} (act : Action A) → IsReader act → Leaves act
reader-Leaves act h db = Same-of (h db)

module _ (env : Env) (user : ℕ) where
  pub save_preferences-Leaves :
      (input : SavePreferencesInput)
      → Leaves (save_preferences (preferences_repository env) user input)
  unfolding save_preferences upsert_filters
  save_preferences-Leaves input db = elim (Result-cases (build_preferences user input)) [
    | inr (bad, e) ↦ rw e (refl, refl, refl, refl)
    | inl (f, e) ↦ rw e (ground arith)
  ]

  upsert-Leaves : (fl : FloatOps) (p : Profile) → Leaves (upsert fl env p)
  unfolding upsert
  upsert-Leaves fl p db =
      elim (Bool-cases (env.fails Stage.upsert_profile || not (profile_allowed fl p db))) [
        | inl bad ↦ rw bad (refl, refl, refl, refl)
        | inr good ↦ rw good (scanned _ (with_profile env p db) (refl, refl, refl, refl))
      ]
    where
      scanned : (o : Option Profile) (after : Db) → Same db after → Same db (scan_profile o after).1
      scanned none after h = h
      scanned (some q) after h = h

  pub save_profile-Leaves :
      (fl : FloatOps) (today : Date) (input : SaveProfileInput)
      → Leaves (save fl (profile_repository fl env) today user input)
  unfolding save
  save_profile-Leaves fl today input db = elim (Result-cases (build_profile fl user input today)) [
    | inr (bad, e) ↦ rw e (refl, refl, refl, refl)
    | inl (p, e) ↦ rw e (upsert-Leaves fl p db)
  ]

  pub deactivate-Leaves : (fl : FloatOps) → Leaves (deactivate fl (profile_repository fl env) user)
  unfolding deactivate deactivate_profile
  deactivate-Leaves fl db = ground arith

  Sent-Same :
      (chat : ℤ) (raw : Text) (db : Db) (r : Result Message × Db)
      → Sent env user chat raw db r
      → Same db r.1
  Sent-Same chat raw db (ok m, after) (a, b, c, d) =
      subst (Same db) (sym d.2) (refl, refl, refl, refl)
  Sent-Same chat raw db (err e, after) h = Same-of h

  pub send-Leaves : (chat : ℤ) (raw : Text) → Leaves (send (chat_repository env) user chat raw)
  send-Leaves chat raw db = Sent-Same chat raw db _ (send-Sent env user chat raw db)

  pub mark_read-Leaves : (chat : ℤ) → Leaves (mark_read (chat_repository env) user chat)
  unfolding mark_read Chats.mark_read Chats.ensure_participant
  mark_read-Leaves chat db = ground arith
