-- ===== src/Service/Bounds.antt =====
-- The length of the pages of internal/service, over any store.
use tinder_like_back.Base.{ℕ, zero, suc, ◌≤◌, length}
use tinder_like_back.Base.Int.{ℤ, pos, negsuc}
use tinder_like_back.Errors.{Result, ok, err}
use tinder_like_back.Database.{Db}
use tinder_like_back.Service.Page.{Page}

-- How long a page may be for the limit of its request: 0 stands for 20, and a limit that is negative
-- or above 50 gets no page.
abbrev pub Fits : ℤ → ℕ → Type 0
Fits (pos zero) k = k ≤ 20
Fits (pos (suc n)) k = (suc n ≤ 50) × (k ≤ suc n)
Fits (negsuc n) k = ⊥

abbrev pub IsBounded : {A : Type 0} → ℤ → Result (Page A) × Db → Type 0
IsBounded limit (err e, after) = Unit
IsBounded limit (ok page, after) = Fits limit (length page.items)
