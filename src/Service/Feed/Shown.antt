-- ===== src/Service/Feed/Shown.antt =====
-- What holds for each item of a feed, whatever the loop of GetFeed meets.
use tinder_like_back.Base.{
  ℕ, zero, suc, ◌≡◌, refl, sym, subst, ◌∙◌, ap, true, false, ◌||◌, ◌==◌, Option, none, some, List,
  [], ◌∷◌, ◌++◌, length, ltb, leb, arith, All, Bool-cases, inl, inr,
}
use tinder_like_back.Errors.{Result, ok, err, Error}
use tinder_like_back.Service.Feed.Loop.{round_empty, round_last, round_more}
use tinder_like_back.Database.{Db, Action}
use tinder_like_back.Service.Feed.{scan_batch, scan_next, feed_loop}

abbrev pub HoldsIfSome : {A : Type 0} → (A → Type 0) → Option A → Type 0
HoldsIfSome P (some a) = P a
HoldsIfSome P none = Unit

-- What the store lists, and that it changes nothing.
abbrev pub Lists : {C : Type 0} → Db → (C → Type 0) → Result (List C) × Db → Type 0
Lists db Q (ok cs, after) = (after ≡ db) × All Q cs
Lists db Q (err e, after) = Unit

abbrev pub Shows : {I : Type 0} → (I → Type 0) → Result (Option (List I)) × Db → Type 0
Shows P (ok page, after) = HoldsIfSome (All P) page
Shows P (err e, after) = Unit

module _ {C I : Type 0} (id : C → ℕ) (item : C → Option I) (limit batch_size : ℕ)
    (list_after : ℕ → Action (List C)) (db : Db) (Q : C → Type 0) (P : I → Type 0)
    (shows : (c : C) (i : I) → Q c → item c ≡ some i → P i) where
  All-snoc : (xs : List I) (x : I) → All P xs → P x → All P (xs ++ x ∷ [])
  All-snoc [] x a p = (p, tt)
  All-snoc (y ∷ xs) x a p = (a.0, All-snoc xs x a.1 p)

  next_All :
      (cursor : ℕ) (items : List I) (c : C) (go_on : List I → ℕ × List I) (found : Option I)
      → item c ≡ found
      → All P items
      → Q c
      → ((xs : List I) → All P xs → All P (go_on xs).1)
      → All P (scan_next id item limit cursor items go_on found).1
  next_All cursor items c go_on none e a q k = k items a
  next_All cursor items c go_on (some i) e a q k =
      elim (Bool-cases (length (items ++ i ∷ []) == limit)) [
        | inl full ↦ rw full (All-snoc items i a (shows c i q e))
        | inr open_page ↦ rw open_page (k (items ++ i ∷ []) (All-snoc items i a (shows c i q e)))
      ]

  scan_batch-All :
      (cursor : ℕ) (items : List I) (cs : List C)
      → All P items
      → All Q cs
      → All P (scan_batch id item limit cursor items cs).1
  unfolding scan_batch
  scan_batch-All cursor items [] a q = a
  scan_batch-All cursor items (c ∷ cs) a q =
      next_All (id c) items c (λ xs. scan_batch id item limit (id c) xs cs) (item c) refl a q.0
        (λ xs a'. scan_batch-All (id c) xs cs a' q.1)

  loop_full :
      (fuel cursor : ℕ) (items : List I)
      → ltb (length items) limit ≡ false
      → feed_loop id item limit batch_size list_after (suc fuel) cursor items db
        ≡ (ok (some items), db)
  unfolding feed_loop
  loop_full fuel cursor items h = ground arith

  loop_err :
      (fuel cursor : ℕ) (items : List I) (e : Error) (after : Db)
      → ltb (length items) limit ≡ true
      → list_after cursor db ≡ (err e, after)
      → feed_loop id item limit batch_size list_after (suc fuel) cursor items db ≡ (err e, after)
  unfolding feed_loop
  loop_err fuel cursor items e after h k = ground arith

  round-Shows :
      (fuel cursor : ℕ) (items : List I) (r : Result (List C) × Db)
      → list_after cursor db ≡ r
      → Lists db Q r
      → ltb (length items) limit ≡ true
      → All P items
      → ((c : ℕ) (xs : List I)
          → All P xs
          → Shows P (feed_loop id item limit batch_size list_after fuel c xs db))
      → Shows P (feed_loop id item limit batch_size list_after (suc fuel) cursor items db)
  round-Shows fuel cursor items (err e, after) h l o a k =
      subst (Shows P) (sym (loop_err fuel cursor items e after o h)) tt
  round-Shows fuel cursor items (ok cs, after) h (same, q) o a k =
      let listed : list_after cursor db ≡ (ok cs, db) = h ∙ ap (λ d. (ok cs, d)) same in
      let r = scan_batch id item limit cursor items cs in
      let a' = scan_batch-All cursor items cs a q in
      elim (Bool-cases (leb 1 (length cs))) [
        | inr nothing ↦
            subst (Shows P)
              (sym (
                round_empty id item limit batch_size list_after db fuel cursor items cs o listed
                  nothing))
              a
        | inl found ↦ elim (Bool-cases (length r.1 == limit || ltb (length cs) batch_size)) [
          | inl last ↦
              subst (Shows P)
                (sym (
                  round_last id item limit batch_size list_after db fuel cursor items cs o listed
                    r.0 r.1 found refl last))
                a'
          | inr more ↦
              subst (Shows P)
                (sym (
                  round_more id item limit batch_size list_after db fuel cursor items cs o listed
                    r.0 r.1 found refl more))
                (k r.0 r.1 a')
        ]
      ]

  pub feed_loop-Shows :
      ((c : ℕ) → Lists db Q (list_after c db))
      → (fuel cursor : ℕ) (items : List I) → All P items
      → Shows P (feed_loop id item limit batch_size list_after fuel cursor items db)
  unfolding feed_loop
  feed_loop-Shows lists zero cursor items a = tt
  feed_loop-Shows lists (suc fuel) cursor items a = elim (Bool-cases (ltb (length items) limit)) [
    | inr full ↦ subst (Shows P) (sym (loop_full fuel cursor items full)) a
    | inl more ↦
        round-Shows fuel cursor items (list_after cursor db) refl (lists cursor) more a
          (λ c xs. feed_loop-Shows lists fuel c xs)
  ]
