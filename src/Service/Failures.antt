-- ===== src/Service/Failures.antt =====
-- The database after a call of internal/service that fails.
use tinder_like_back.Base.{
  ℕ, suc, refl, ap, ◌||◌, not, arith, Bool-cases, inl, inr, Option, none, some, any,
}
use tinder_like_back.Base.Int.{ℤ, pos, pos_part, leb_ℤ}
use tinder_like_back.Geo.{FloatOps}
use tinder_like_back.Models.{Text, Date, Profile, Message}
use tinder_like_back.Errors.{Stage, invalid_chat_id, Result, ok, err}
use tinder_like_back.Database.{Db, Env, fail_if, exec}
use tinder_like_back.Database.Failures.{
  Fails, IsAtomic, IsReader, exec-IsAtomic, map-IsAtomic, resumed_reader, Result-cases,
}
use tinder_like_back.Repository.Discovery.{
  upsert_filters, saved_preferences, put_preferences, preferences_allowed,
}
use tinder_like_back.Repository.Profiles.{
  upsert, deactivate_profile, is_shown_profile, scan_profile, profile_allowed,
}
use tinder_like_back.Service.Profiles.Saving.{
  Keeps, with_profile, with_profile-Keeps, nothing_to_hide,
}
use tinder_like_back.Repository.Chats
use tinder_like_back.Service.Chat.{
  chat_repository, returned, ChatPageInput, normalize_chat_page, list, messages, send, mark_read,
}
use tinder_like_back.Service.Chat.Sending.{Sent, send-Sent}
use tinder_like_back.Repository.Chats.Reads.{Reads, mark_read-Reads}
use tinder_like_back.Service.Preferences.{
  SavePreferencesInput, preferences_repository, build_preferences, save_preferences,
}
use tinder_like_back.Service.Profiles.{
  SaveProfileInput, profile_repository, build_profile, save, deactivate,
}
use tinder_like_back.Service.Feed.Reading.{returned-IsReader}

-- A part that only reads, and then one that fails cleanly.
module _ (env : Env) (user : ℕ) where
  pub save_preferences-IsAtomic :
      (input : SavePreferencesInput)
      → IsAtomic (save_preferences (preferences_repository env) user input)
  unfolding save_preferences upsert_filters
  save_preferences-IsAtomic input db = elim (Result-cases (build_preferences user input)) [
    | inr (bad, e) ↦ rw e refl
    | inl (f, e) ↦ rw e (
        map-IsAtomic (λ u. saved_preferences env f)
          (exec env Stage.upsert_discovery_preferences (preferences_allowed f) (λ d. record d {
            preferences = put_preferences (saved_preferences env f) d.preferences;
          }))
          (exec-IsAtomic env Stage.upsert_discovery_preferences (preferences_allowed f) _) db)
  ]

  upsert-IsAtomic : (fl : FloatOps) (p : Profile) → IsAtomic (upsert fl env p)
  unfolding upsert
  upsert-IsAtomic fl p db =
      elim (Bool-cases (env.fails Stage.upsert_profile || not (profile_allowed fl p db))) [
        | inl bad ↦ rw bad refl
        | inr good ↦ rw good (scanned _ (with_profile-Keeps env p db))
      ]
    where
      scanned :
          (o : Option Profile) → Keeps env p o → Fails db (scan_profile o (with_profile env p db))
      scanned none k = absurd k
      scanned (some q) k = tt

  pub save_profile-IsAtomic :
      (fl : FloatOps) (today : Date) (input : SaveProfileInput)
      → IsAtomic (save fl (profile_repository fl env) today user input)
  unfolding save
  save_profile-IsAtomic fl today input db =
      elim (Result-cases (build_profile fl user input today)) [
        | inr (bad, e) ↦ rw e refl
        | inl (p, e) ↦ rw e (upsert-IsAtomic fl p db)
      ]

  pub deactivate-IsAtomic :
      (fl : FloatOps) → IsAtomic (deactivate fl (profile_repository fl env) user)
  unfolding deactivate deactivate_profile
  deactivate-IsAtomic fl db = elim (Bool-cases (env.fails Stage.deactivate_profile)) [
    | inl fault ↦ rw fault refl
    | inr sound ↦ elim (Bool-cases (any (is_shown_profile user) db.profiles)) [
      | inl shown ↦ rw (sound, shown) tt
      | inr hidden ↦
          rw (sound, hidden)
            (ap (λ ps. record db { profiles = ps }) (nothing_to_hide env user db.profiles hidden))
    ]
  ]

  pub list-IsReader : (input : ChatPageInput) → IsReader (list (chat_repository env) user input)
  unfolding list Chats.list_active
  list-IsReader input db =
      resumed_reader _ db (returned (normalize_chat_page input) db)
        (returned-IsReader (normalize_chat_page input) db)
        (λ page db1.
          resumed_reader _ db1 (Chats.list_active env user page.1 (suc page.0) db1) refl
            (λ chats db2. refl))

  list_messages-IsReader :
      (chat cursor limit : ℕ) → IsReader (Chats.list_messages env user chat cursor limit)
  unfolding Chats.list_messages
  list_messages-IsReader chat cursor limit db = ground arith

  pub messages-IsReader :
      (chat : ℤ) (input : ChatPageInput) → IsReader (messages (chat_repository env) user chat input)
  unfolding messages
  messages-IsReader chat input db =
      resumed_reader _ db (fail_if (leb_ℤ chat (pos 0)) invalid_chat_id db) refl (λ u db0.
        resumed_reader _ db0 (returned (normalize_chat_page input) db0)
          (returned-IsReader (normalize_chat_page input) db0)
          (λ page db1.
            resumed_reader _ db1
              (Chats.list_messages env user (pos_part chat) page.1 (suc page.0) db1)
              (list_messages-IsReader (pos_part chat) page.1 (suc page.0) db1) (λ rows db2. refl)))

  Sent-Fails :
      (chat : ℤ) (raw : Text) (db : Db) (r : Result Message × Db)
      → Sent env user chat raw db r
      → Fails db r
  Sent-Fails chat raw db (ok m, after) h = tt
  Sent-Fails chat raw db (err e, after) h = h

  pub send-IsAtomic : (chat : ℤ) (raw : Text) → IsAtomic (send (chat_repository env) user chat raw)
  send-IsAtomic chat raw db = Sent-Fails chat raw db _ (send-Sent env user chat raw db)

  read-Fails : (chat : ℕ) (db : Db) (r : Result (Unit {0}) × Db) → Reads user chat db r → Fails db r
  read-Fails chat db (ok u, after) h = tt
  read-Fails chat db (err e, after) h = h

  pub mark_read-IsAtomic : (chat : ℤ) → IsAtomic (mark_read (chat_repository env) user chat)
  unfolding mark_read
  mark_read-IsAtomic chat db = elim (Bool-cases (leb_ℤ chat (pos 0))) [
    | inl bad ↦ rw bad refl
    | inr good ↦
        rw good (read-Fails (pos_part chat) db _ (mark_read-Reads env user (pos_part chat) db))
  ]
