-- ===== src/Http/Query.antt =====
-- The query and path parameters of the handlers.
use tinder_like_back.Base.{
  ℕ, ◌+◌, ◌-◌, ◌*◌, ◌^◌, Option, none, some, [], ◌∷◌, ltb, leb, ◌==◌, if◌then◌else◌,
}
use tinder_like_back.Base.Int.{ℤ, pos, negsuc}
use tinder_like_back.Models.{Text}
use tinder_like_back.Text.{is_digit, negated}
use tinder_like_back.Service.Chat.{ChatPageInput}
use tinder_like_back.Service.Feed.{FeedInput}
use tinder_like_back.Http.{Request}

-- strconv.ParseUint(s, 10, 64) behind the digits so far: `none` for a syntax error, and the largest
-- uint64 at the first digit that leaves the range.
unfoldable pub parse_saturated : ℕ → Text → Option ℕ
unfolding is_digit
parse_saturated acc [] = some acc
parse_saturated acc (c ∷ s) =
    let next = acc * 10 + (c - b'0') in
    let rest = parse_saturated next s in
    if is_digit c then (if leb (2 ^ 64) next then some (2 ^ 64 - 1) else rest) else none

-- The sign, and the range of an int64.
abbrev pub signed : Option ℕ → ℤ
signed none = pos 0
signed (some n) = if ltb n (2 ^ 63) then pos n else pos (2 ^ 63 - 1)

abbrev pub signed_negative : Option ℕ → ℤ
signed_negative none = pos 0
signed_negative (some n) = if leb n (2 ^ 63) then negated n else negsuc (2 ^ 63 - 1)

abbrev pub parse_magnitude : Text → Option ℕ
parse_magnitude [] = none
parse_magnitude (c ∷ s) = parse_saturated 0 (c ∷ s)

-- The number of `strconv.Atoi(s)`, whose error the handlers drop: 0 for a text that is no number.
unfoldable pub atoi : Text → ℤ
unfolding parse_saturated
atoi [] = pos 0
atoi (c ∷ s) =
    if c == b'-'
    then signed_negative (parse_magnitude s)
    else if c == b'+'
    then signed (parse_magnitude s)
    else signed (parse_saturated 0 (c ∷ s))

-- c.Query(key) and c.DefaultQuery(key, value)
abbrev pub query_or : Text → Option Text → Text
query_or value none = value
query_or value (some t) = t

-- limit, _ := strconv.Atoi(c.DefaultQuery("limit", "20"))
unfoldable pub query_limit : Request → ℤ
unfolding atoi
query_limit req = atoi (query_or (b'2' ∷ b'0' ∷ []) (req.query "limit"))

unfoldable pub feed_input : Request → FeedInput
unfolding query_limit
feed_input req = record { limit = query_limit req; cursor = query_or [] (req.query "cursor") }

-- chatPageInput
unfoldable pub chat_page_input : Request → ChatPageInput
unfolding query_limit
chat_page_input req = record { limit = query_limit req; cursor = query_or [] (req.query "cursor") }
