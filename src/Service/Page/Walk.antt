-- ===== src/Service/Page/Walk.antt =====
-- A client that follows the cursors, over rows that are sorted by a unique id.
use mathlib.Core.List.{append-nil, map-id}
use tinder_like_back.Base.{
  ℕ, zero, suc, ◌^◌, ◌≤◌, ◌<◌, ◌≡◌, refl, sym, ap, ◌∙◌, true, false, Option, none, some, List, [],
  ◌∷◌, ◌++◌, ltb, last?, length, take, drop, if◌then◌else◌, arith, All, All-filter, All-take,
  All-last, take-take-suc, length-take-suc, take_all, take-append-drop, last-take, length-drop,
  Bool-cases, inl, inr,
}
use tinder_like_back.Base.Tables.{SortedFrom, after}
use tinder_like_back.Models.{Text}
use tinder_like_back.Text.{format_int, is_empty}
use tinder_like_back.Text.Cursor.{format_int-not_empty}
use tinder_like_back.Service.Page.{Page, cursor_of, fill_page}
use tinder_like_back.Service.Page.Fill.{fill_page-Filled}

module _ {T : Type 0} (key : T → ℕ) where
  pub after_all : (c lo : ℕ) (xs : List T) → SortedFrom key lo xs → c ≤ lo → after key c xs ≡ xs
  after_all c lo [] s h = refl
  after_all c lo (x ∷ xs) s h = ground (arith, after_all c (key x) xs s.1)

  pub SortedFrom-after :
      (c lo : ℕ) (xs : List T) → SortedFrom key lo xs → SortedFrom key c (after key c xs)
  SortedFrom-after c lo [] s = tt
  SortedFrom-after c lo (x ∷ xs) s =
      ground (arith, SortedFrom-after c (key x) xs s.1, after_all c (key x) xs s.1)

  pub after-after : (c d : ℕ) (xs : List T) → c ≤ d → after key d (after key c xs) ≡ after key d xs
  after-after c d [] h = refl
  after-after c d (x ∷ xs) h = ground (arith, after-after c d xs h)

  -- The last row of a page is where the next page goes on.
  pub after_last :
      (n lo : ℕ) (xs : List T) (l : T)
      → SortedFrom key lo xs
      → last? (take (suc n) xs) ≡ some l
      → (lo < key l) × (after key (key l) xs ≡ drop (suc n) xs)
  after_last n lo [] l s h = cc
  after_last zero lo (x ∷ xs) l s h = ground (arith, after_all (key x) (key x) xs s.1)
  after_last (suc n) lo (x ∷ []) l s h = ground arith
  after_last (suc n) lo (x ∷ (y ∷ ys)) l s h = ground (arith, after_last n (key x) (y ∷ ys) l s.1 h)

-- The page that the store and the loop give behind the cursor `c`.
module _ {T : Type 0} (key : T → ℕ) (limit : ℕ) (rows : List T) where
  abbrev pub page_at : ℕ → Page T
  page_at c = fill_page (λ x. x) key limit 0 [] (take (suc limit) (after key c rows))

  page_at-items : (c : ℕ) → (page_at c).items ≡ take limit (after key c rows)
  page_at-items c =
      (fill_page-Filled (λ x. x) key limit limit 0 [] (take (suc limit) (after key c rows))
        (omega arith)).0
      ∙ map-id _
      ∙ take-take-suc limit (after key c rows)

  page_at-next :
      (c : ℕ)
      → (page_at c).next_cursor ≡ (
          if ltb limit (length (after key c rows))
          then cursor_of key (last? (take limit (after key c rows)))
          else [])
  page_at-next c =
      (fill_page-Filled (λ x. x) key limit limit 0 [] (take (suc limit) (after key c rows))
        (omega arith)).1
      ∙ rw (
        map-id (take limit (take (suc limit) (after key c rows))),
        take-take-suc limit (after key c rows),
        length-take-suc limit (after key c rows),
      )

-- Follow the cursors of at most `fuel` pages.
module _ {T : Type 0} (load : Text → Option (Page T)) where
  pub walk : ℕ → Text → List T
  walk zero cursor = []
  walk (suc fuel) cursor = elim (load cursor) [
    | none ↦ []
    | some page ↦
        let rest = walk fuel page.next_cursor in
        page.items ++ (if is_empty page.next_cursor then [] else rest)
  ]

  walk_step :
      (fuel : ℕ) (cursor : Text) (page : Page T)
      → load cursor ≡ some page
      → walk (suc fuel) cursor
        ≡ page.items ++ (if is_empty page.next_cursor then [] else walk fuel page.next_cursor)
  unfolding walk
  walk_step fuel cursor page e = rw (e, walk)

module _ {T : Type 0} (key : T → ℕ) (m : ℕ) (rows : List T) (load : Text → Option (Page T)) where
  -- The last page, and a page with a next one. The limit is suc m.
  last_page :
      (fuel c : ℕ) (cursor : Text)
      → load cursor ≡ some (page_at key (suc m) rows c)
      → ltb (suc m) (length (after key c rows)) ≡ false
      → walk load (suc fuel) cursor ≡ after key c rows
  last_page fuel c cursor e less =
      walk_step load fuel cursor _ e
      ∙ rw (page_at-items key (suc m) rows c, page_at-next key (suc m) rows c, less)
          (append-nil _ ∙ take_all (suc m) (after key c rows) (ground arith))

  more_pages :
      (fuel c : ℕ) (cursor : Text) (l : T)
      → load cursor ≡ some (page_at key (suc m) rows c)
      → ltb (suc m) (length (after key c rows)) ≡ true
      → last? (take (suc m) (after key c rows)) ≡ some l
      → walk load fuel (format_int (key l)) ≡ drop (suc m) (after key c rows)
      → walk load (suc fuel) cursor ≡ after key c rows
  more_pages fuel c cursor l e more last rest =
      walk_step load fuel cursor _ e
      ∙ rw
          (
            page_at-items key (suc m) rows c,
            page_at-next key (suc m) rows c,
            more,
            last,
            format_int-not_empty (key l),
            rest,
          )
          (take-append-drop (suc m) (after key c rows))

  -- From a cursor on, a client reads the rows behind it.
  pub walk-after :
      ((c : ℕ) → c < 2 ^ 63 → load (format_int c) ≡ some (page_at key (suc m) rows c))
      → SortedFrom key 0 rows
      → All (λ x. key x < 2 ^ 63) rows
      → (fuel c : ℕ) (cursor : Text) → load cursor ≡ some (page_at key (suc m) rows c)
      → length (after key c rows) < fuel
      → walk load fuel cursor ≡ after key c rows
  walk-after serves sorted bounded zero c cursor e h = absurd (omega arith)
  walk-after serves sorted bounded (suc fuel) c cursor e h =
      elim (Bool-cases (ltb (suc m) (length (after key c rows)))) [
        | inr less ↦ last_page fuel c cursor e less
        | inl more ↦
            let long : suc m < length (after key c rows) = ground arith in
            let (l, last) = last-take m (after key c rows) (omega arith) in
            let (above, next) =
              after_last key m c (after key c rows) l (SortedFrom-after key c 0 rows sorted) last in
            let below : key l < 2 ^ 63 =
              All-last _ (take (suc m) (after key c rows)) l
                (All-take _ (suc m) (after key c rows) (All-filter _ _ rows bounded)) last in
            let skip = sym (after-after key c (key l) rows (omega arith)) ∙ next in
            more_pages fuel c cursor l e more last (
              walk-after serves sorted bounded fuel (key l) (format_int (key l))
                (serves (key l) below)
                (omega (arith, ap length skip, length-drop (suc m) (after key c rows)))
              ∙ skip)
      ]
