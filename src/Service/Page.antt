-- ===== src/Service/Page.antt =====
-- Cursor pages: the loops of makeChatPage (service/chat.go) and of GetIncomingLikes
-- (service/ribbon.go) over `limit + 1` rows.
pub mod Fill
pub mod Walk
use tinder_like_back.Base.{
  ℕ, suc, Option, none, some, List, [], ◌∷◌, ◌++◌, ◌==◌, last?, if◌then◌else◌,
}
use tinder_like_back.Models.{Text}
use tinder_like_back.Text.{format_int}

pub record Page (A : Type 0) : Type 0 where
  pub items : List A
  -- Empty: there is no next page.
  pub next_cursor : Text

-- items[len(items)-1]. The limit is at least 1, so a cursor is made of a row that is there.
abbrev pub cursor_of : {B : Type 0} → (B → ℕ) → Option B → Text
cursor_of get_id none = []
cursor_of get_id (some b) = format_int (get_id b)

module _ {A B : Type 0} (item : A → B) (get_id : B → ℕ) (limit : ℕ) where
  unfoldable pub fill_page : ℕ → List B → List A → Page B
  fill_page index items [] = record { items = items; next_cursor = [] }
  fill_page index items (value ∷ values) =
      let rest = fill_page (suc index) (items ++ item value ∷ []) values in
      if index == limit
      then record { items = items; next_cursor = cursor_of get_id (last? items) }
      else rest
