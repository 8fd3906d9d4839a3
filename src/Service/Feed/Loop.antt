-- ===== src/Service/Feed/Loop.antt =====
-- The loop of GetFeed, on fuel.
use mathlib.Core.List.{append_assoc, append-nil}
use tinder_like_back.Base.{
  ℕ, zero, suc, ◌≤◌, ◌<◌, ◌≡◌, refl, sym, ap, ◌∙◌, true, false, Option, some, List, [], ◌∷◌, ◌++◌,
  length, take, drop, filter_map, ltb, leb, ◌==◌, ◌||◌, arith, Bool-cases, inl, inr,
  take-append_full, take_short, length-take-le, filter_map-append, take-append-drop, take_all,
  length-drop, last-take, length-take-le_length,
}
use tinder_like_back.Base.Tables.{after, SortedFrom}
use tinder_like_back.Errors.{ok}
use tinder_like_back.Database.{Db, Action}
use tinder_like_back.Service.Feed.{scan_batch, feed_loop}
use tinder_like_back.Service.Feed.Scan.{last_id, last_id-last, scan_batch-Scanned}
use tinder_like_back.Service.Page.Walk.{after_last, after-after, SortedFrom-after}

module _ {C I : Type 0} (id : C → ℕ) (item : C → Option I) (limit batch_size : ℕ)
    (list_after : ℕ → Action (List C)) (db : Db) where
  -- One round, by what the store returns.
  module _ (fuel cursor : ℕ) (items : List I) (cs : List C)
      (open_page : ltb (length items) limit ≡ true)
      (listed : list_after cursor db ≡ (ok cs, db)) where
    pub round_empty :
        leb 1 (length cs) ≡ false
        → feed_loop id item limit batch_size list_after (suc fuel) cursor items db
          ≡ (ok (some items), db)
    unfolding feed_loop
    round_empty e = ground arith

    pub round_last :
        (cursor' : ℕ) (items' : List I)
        → leb 1 (length cs) ≡ true
        → scan_batch id item limit cursor items cs ≡ (cursor', items')
        → (length items' == limit || ltb (length cs) batch_size) ≡ true
        → feed_loop id item limit batch_size list_after (suc fuel) cursor items db
          ≡ (ok (some items'), db)
    unfolding feed_loop
    round_last cursor' items' e s d = ground arith

    pub round_more :
        (cursor' : ℕ) (items' : List I)
        → leb 1 (length cs) ≡ true
        → scan_batch id item limit cursor items cs ≡ (cursor', items')
        → (length items' == limit || ltb (length cs) batch_size) ≡ false
        → feed_loop id item limit batch_size list_after (suc fuel) cursor items db
          ≡ feed_loop id item limit batch_size list_after fuel cursor' items' db
    unfolding feed_loop
    round_more cursor' items' e s d = ground arith

-- Items behind a cursor, with those that were taken before it.
module _ {C I : Type 0} (id : C → ℕ) (item : C → Option I) (limit : ℕ) (rows : List C) where
  abbrev pub first_items : ℕ → List I → List I
  first_items cursor items = take limit (items ++ filter_map item (after id cursor rows))

  split_batch :
      (b : ℕ) (items : List I) (ys : List C)
      → items ++ filter_map item ys
        ≡ (items ++ filter_map item (take b ys)) ++ filter_map item (drop b ys)
  split_batch b items ys =
      ap (λ zs. items ++ filter_map item zs) (sym (take-append-drop b ys))
      ∙ ap (◌++◌ items) (filter_map-append item (take b ys) (drop b ys))
      ∙ sym (append_assoc items (filter_map item (take b ys)) (filter_map item (drop b ys)))

  -- A batch that fills the page has taken what is asked for.
  full_batch :
      (b cursor : ℕ) (items taken : List I)
      → taken ≡ take limit (items ++ filter_map item (take b (after id cursor rows)))
      → length taken ≡ limit
      → taken ≡ first_items cursor items
  full_batch b cursor items taken e full =
      e
      ∙ sym (
          take-append_full limit _ (filter_map item (drop b (after id cursor rows)))
            (ap length (sym e) ∙ full))
      ∙ ap (take limit) (sym (split_batch b items (after id cursor rows)))

  -- A batch that is short was the last one.
  short_batch :
      (b cursor : ℕ) (items taken : List I)
      → taken ≡ take limit (items ++ filter_map item (take b (after id cursor rows)))
      → length (take b (after id cursor rows)) < b
      → taken ≡ first_items cursor items
  short_batch b cursor items taken e short =
      e
      ∙ ap (λ ys. take limit (items ++ filter_map item ys))
          (take_short b (after id cursor rows) short)

  -- The loop stops at a full page and at a short batch.
  last_batch :
      (m cursor : ℕ) (items taken : List I)
      → taken ≡ take limit (items ++ filter_map item (take (suc m) (after id cursor rows)))
      → (length taken == limit || ltb (length (take (suc m) (after id cursor rows))) (suc m)) ≡ true
      → taken ≡ first_items cursor items
  last_batch m cursor items taken e h = elim (Bool-cases (length taken == limit)) [
    | inl full ↦ full_batch (suc m) cursor items taken e (ground arith)
    | inr other ↦ short_batch (suc m) cursor items taken e (ground arith)
  ]

  nil_of_empty : (cs : List C) → leb 1 (length cs) ≡ false → cs ≡ []
  nil_of_empty [] h = refl
  nil_of_empty (c ∷ cs) h = absurd (ground arith)

  -- No batch: nothing is left.
  empty_batch :
      (m cursor : ℕ) (items : List I)
      → length items < limit
      → leb 1 (length (take (suc m) (after id cursor rows))) ≡ false
      → items ≡ first_items cursor items
  empty_batch m cursor items h e =
      short_batch (suc m) cursor items items
        (rw (nil_of_empty _ e, append-nil items) (sym (take_all limit items (omega arith))))
        (ground arith)

  -- Where the next batch starts, and what it starts from.
  behind :
      (m lo cursor : ℕ)
      → SortedFrom id lo rows
      → length (take (suc m) (after id cursor rows)) ≡ suc m
      → after id (last_id id cursor (take (suc m) (after id cursor rows))) rows
        ≡ drop (suc m) (after id cursor rows)
  behind m lo cursor sorted full =
      let (l, last) =
        last-take m (after id cursor rows)
          (omega (arith, full, length-take-le_length (suc m) (after id cursor rows))) in
      let (above, next) =
        after_last id m cursor (after id cursor rows) l (SortedFrom-after id cursor lo rows sorted)
          last in
      ap (λ c. after id c rows)
        (last_id-last id cursor (take (suc m) (after id cursor rows)) l last)
      ∙ sym (after-after id cursor (id l) rows (omega arith))
      ∙ next

  -- Otherwise the items of the batch are kept, and the next batch starts behind it.
  next_batch :
      (m lo cursor : ℕ) (items taken : List I)
      → SortedFrom id lo rows
      → taken ≡ take limit (items ++ filter_map item (take (suc m) (after id cursor rows)))
      → length taken < limit
      → length (take (suc m) (after id cursor rows)) ≡ suc m
      → first_items (last_id id cursor (take (suc m) (after id cursor rows))) taken
        ≡ first_items cursor items
  next_batch m lo cursor items taken sorted e short full =
      ap (λ ys. take limit (taken ++ filter_map item ys)) (behind m lo cursor sorted full)
      ∙ ap (λ ts. take limit (ts ++ filter_map item (drop (suc m) (after id cursor rows)))) whole
      ∙ ap (take limit) (sym (split_batch (suc m) items (after id cursor rows)))
    where
      whole : taken ≡ items ++ filter_map item (take (suc m) (after id cursor rows))
      whole = e ∙ take_short limit _ (rw (← e) short)

module _ {C I : Type 0} (id : C → ℕ) (item : C → Option I) (limit m : ℕ)
    (list_after : ℕ → Action (List C)) (db : Db) (rows : List C) (lo : ℕ)
    (sorted : SortedFrom id lo rows)
    (listed : (c : ℕ) → list_after c db ≡ (ok (take (suc m) (after id c rows)), db)) where
  not_short :
      (taken : List I) (batch : List C)
      → (length taken == limit || ltb (length batch) (suc m)) ≡ false
      → suc m ≤ length batch
  not_short taken batch h = ground arith

  not_full :
      (items taken : List I) (batch : List C)
      → taken ≡ take limit (items ++ filter_map item batch)
      → (length taken == limit || ltb (length batch) (suc m)) ≡ false
      → length taken < limit
  not_full items taken batch e h =
      ground (arith, ap length e, length-take-le limit (items ++ filter_map item batch))

  -- If the rows are sorted by ids that are distinct and above `lo`, and each call of the store
  -- gives the next suc m rows behind its cursor and changes nothing, then the loop of GetFeed,
  -- started with fewer items than the limit and with more fuel than there are rows behind the
  -- cursor, ends: it returns the items that it started with and those of the rows behind the
  -- cursor, `limit` of them at most.
  pub feed_loop-first_items :
      (fuel cursor : ℕ) (items : List I)
      → length items < limit
      → length (after id cursor rows) < fuel
      → feed_loop id item limit (suc m) list_after fuel cursor items db
        ≡ (ok (some (first_items id item limit rows cursor items)), db)
  feed_loop-first_items zero cursor items h enough = absurd (omega arith)
  feed_loop-first_items (suc fuel) cursor items h enough =
      let batch : List C = take (suc m) (after id cursor rows) in
      let r = scan_batch id item limit cursor items batch in
      let (taken, at) = scan_batch-Scanned id item limit cursor items batch h in
      let opened : ltb (length items) limit ≡ true = ground arith in
      elim (Bool-cases (leb 1 (length batch))) [
        | inr nothing ↦
            round_empty id item limit (suc m) list_after db fuel cursor items batch opened
              (listed cursor) nothing
            ∙ ap (λ xs. (ok (some xs), db))
                (empty_batch id item limit rows m cursor items h nothing)
        | inl found ↦ elim (Bool-cases (length r.1 == limit || ltb (length batch) (suc m))) [
          | inl last ↦
              round_last id item limit (suc m) list_after db fuel cursor items batch opened
                (listed cursor) r.0 r.1 found refl last
              ∙ ap (λ xs. (ok (some xs), db))
                  (last_batch id item limit rows m cursor items r.1 taken last)
          | inr more ↦
              let full : length batch ≡ suc m =
                omega (
                  arith,
                  length-take-le (suc m) (after id cursor rows),
                  not_short r.1 batch more,
                ) in
              let short : length r.1 < limit = not_full items r.1 batch taken more in
              let rest = behind id item limit rows m lo cursor sorted full in
              round_more id item limit (suc m) list_after db fuel cursor items batch opened
                (listed cursor) r.0 r.1 found refl more
              ∙ feed_loop-first_items fuel r.0 r.1 short (
                  omega (
                    arith,
                    ap (λ c. length (after id c rows)) (at short),
                    ap length rest,
                    length-drop (suc m) (after id cursor rows),
                    length-take-le_length (suc m) (after id cursor rows),
                  ))
              ∙ ap (λ xs. (ok (some xs), db))
                  (ap (λ c. first_items id item limit rows c r.1) (at short)
                    ∙ next_batch id item limit rows m lo cursor items r.1 sorted taken short full)
        ]
      ]
