-- ===== src/Service/Page/Fill.antt =====
-- What a page holds of its rows, and its cursor.
use mathlib.Core.List.{append-nil, append_assoc}
use tinder_like_back.Base.{
  ℕ, zero, suc, ◌+◌, ◌≡◌, refl, sym, List, [], ◌∷◌, ◌++◌, map, ltb, last?, length, take,
  if◌then◌else◌, arith,
}
use tinder_like_back.Service.Page.{Page, cursor_of, fill_page}

module _ {A B : Type 0} (item : A → B) (get_id : B → ℕ) (limit : ℕ) where
  -- The page that is left to make when `items` were taken and `k` more fit.
  abbrev pub Filled : ℕ → List B → List A → Page B → Type 0
  Filled k items values page =
      (page.items ≡ items ++ map item (take k values))
      × (page.next_cursor ≡ (
          if ltb k (length values)
          then cursor_of get_id (last? (items ++ map item (take k values)))
          else []))

  pub fill_page-Filled :
      (k index : ℕ) (items : List B) (values : List A)
      → index + k ≡ limit
      → Filled k items values (fill_page item get_id limit index items values)
  unfolding fill_page
  fill_page-Filled zero index items [] h = (sym (append-nil items), refl)
  fill_page-Filled (suc k) index items [] h = (sym (append-nil items), ground arith)
  fill_page-Filled zero index items (v ∷ vs) h = ground (arith, append-nil items)
  fill_page-Filled (suc k) index items (v ∷ vs) h = ground (
    arith,
    fill_page-Filled k (suc index) (items ++ item v ∷ []) vs,
    append_assoc items (item v ∷ []) (map item (take k vs)),
  )
