-- ===== src/Service/Feed/Scan.antt =====
-- The batches of GetFeed, and the items behind the cursor.
use mathlib.Core.List.{append_assoc, append-nil}
use tinder_like_back.Base.{
  ℕ, suc, ◌<◌, ◌≡◌, refl, sym, ap, ◌∙◌, Option, none, some, List, [], ◌∷◌, ◌++◌, last?, length,
  take, filter_map, ◌==◌, arith, Bool-cases, inl, inr, take-append, length-append, take_all,
}
use tinder_like_back.Service.Feed.{scan_next, scan_batch}

-- The cursor behind a batch that was read to its end.
module _ {C : Type 0} (id : C → ℕ) where
  abbrev pub last_id : ℕ → List C → ℕ
  last_id cursor [] = cursor
  last_id cursor (c ∷ cs) = last_id (id c) cs

  pub last_id-last :
      (cursor : ℕ) (cs : List C) (l : C) → last? cs ≡ some l → last_id cursor cs ≡ id l
  last_id-last cursor [] l e = cc
  last_id-last cursor (c ∷ []) l e = ground arith
  last_id-last cursor (c ∷ (d ∷ cs)) l e = last_id-last (id c) (d ∷ cs) l e

module _ {C I : Type 0} (id : C → ℕ) (item : C → Option I) (limit : ℕ) where
  abbrev pub Scanned : ℕ → List I → List C → ℕ × List I → Type 0
  Scanned cursor items cs r =
      (r.1 ≡ take limit (items ++ filter_map item cs))
      × (length r.1 < limit → r.0 ≡ last_id id cursor cs)

  grown : (items : List I) (i : I) → length (items ++ i ∷ []) ≡ suc (length items)
  grown items i = omega (arith, length-append items (i ∷ []))

  -- One more item: the page is full, or the rest of the batch goes on behind it.
  scan_next-Scanned :
      (o : Option I) (go_on : List I → ℕ × List I) (items : List I) (c : C) (cs : List C)
      (cursor : ℕ)
      → item c ≡ o
      → length items < limit
      → ((longer : List I) → length longer < limit → Scanned (id c) longer cs (go_on longer))
      → Scanned cursor items (c ∷ cs) (scan_next id item limit (id c) items go_on o)
  scan_next-Scanned none go_on items c cs cursor e h rest = rw e (rest items h)
  scan_next-Scanned (some i) go_on items c cs cursor e h rest =
      elim (Bool-cases (length (items ++ i ∷ []) == limit)) [
        | inl full ↦
            rw (e, full)
              (
                rw (← append_assoc items (i ∷ []) (filter_map item cs))
                    (sym (take-append limit (items ++ i ∷ []) (filter_map item cs) (ground arith))),
                (λ short. absurd (ground arith)),
              )
        | inr more ↦
            let (found, at) = rest (items ++ i ∷ []) (ground (arith, grown items i)) in
            rw (e, more)
              (found ∙ ap (take limit) (append_assoc items (i ∷ []) (filter_map item cs)), at)
      ]

  pub scan_batch-Scanned :
      (cursor : ℕ) (items : List I) (cs : List C)
      → length items < limit
      → Scanned cursor items cs (scan_batch id item limit cursor items cs)
  unfolding scan_batch
  scan_batch-Scanned cursor items [] h =
      (rw (append-nil items) (sym (take_all limit items (omega arith))), (λ _. refl))
  scan_batch-Scanned cursor items (c ∷ cs) h =
      scan_next-Scanned (item c) _ items c cs cursor refl h
        (λ longer k. scan_batch-Scanned (id c) longer cs k)
