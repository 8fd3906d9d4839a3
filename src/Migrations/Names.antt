-- ===== src/Migrations/Names.antt =====
-- sort.Strings over the names of the migrations.
use tinder_like_back.Base.{
  ℕ, ◌+◌, ◌<◌, ◌≡◌, refl, ◌∙◌, Bool, true, false, ◌||◌, ◌⊎◌, List, [], ◌∷◌, any, map, filter, ltb,
  ◌==◌, arith, Bool-cases, inl, inr, if◌then◌else◌,
}
use tinder_like_back.Base.Tables.{Unique}
use tinder_like_back.Models.{Text}
use tinder_like_back.Text.{text_eq}
use tinder_like_back.Migrations.{Entry, is_migration, text_le, insert_name, sort_names}

-- The first difference decides, and a beginning comes before what it begins.
abbrev pub Precedes : Text → Text → Type 0
Precedes s [] = ⊥
Precedes [] (d ∷ t) = Unit
Precedes (c ∷ s) (d ∷ t) = (c < d) ⊎ ((c ≡ d) × Precedes s t)

abbrev pub AscendsFrom : Text → List Text → Type 0
AscendsFrom low [] = Unit
AscendsFrom low (n ∷ ns) = Precedes low n × AscendsFrom n ns

abbrev pub Ascends : List Text → Type 0
Ascends [] = Unit
Ascends (n ∷ ns) = AscendsFrom n ns

-- How often a name stands in a list.
abbrev pub occurrences : Text → List Text → ℕ
occurrences n [] = 0
occurrences n (m ∷ ms) = (if text_eq n m then 1 else 0) + occurrences n ms

-- The names of the migrations, as the directory lists them.
abbrev pub listed_names : List Entry → List Text
listed_names entries = map (λ e. e.name) (filter is_migration entries)

pub text_eq-swap : (s t : Text) → text_eq s t ≡ text_eq t s
text_eq-swap [] [] = refl
text_eq-swap [] (d ∷ t) = refl
text_eq-swap (c ∷ s) [] = refl
text_eq-swap (c ∷ s) (d ∷ t) = ground (arith, text_eq-swap s t)

le-Precedes : (s t : Text) → text_le s t ≡ true → text_eq s t ≡ false → Precedes s t
unfolding text_le
le-Precedes [] [] h k = absurd cc
le-Precedes [] (d ∷ t) h k = tt
le-Precedes (c ∷ s) [] h k = absurd cc
le-Precedes (c ∷ s) (d ∷ t) h k = elim (Bool-cases (ltb c d)) [
  | inl less ↦ inl (ground arith)
  | inr more ↦ inr (ground arith, le-Precedes s t (ground arith) (ground arith))
]

not_le-Precedes : (s t : Text) → text_le s t ≡ false → Precedes t s
unfolding text_le
not_le-Precedes [] t h = absurd cc
not_le-Precedes (c ∷ s) [] h = tt
not_le-Precedes (c ∷ s) (d ∷ t) h = elim (Bool-cases (c == d)) [
  | inl same ↦ inr (ground arith, not_le-Precedes s t (ground arith))
  | inr differ ↦ inl (ground arith)
]

insert-AscendsFrom :
    (low n : Text) (ms : List Text)
    → Precedes low n
    → any (text_eq n) ms ≡ false
    → AscendsFrom low ms
    → AscendsFrom low (insert_name n ms)
unfolding insert_name
insert-AscendsFrom low n [] p u a = (p, tt)
insert-AscendsFrom low n (m ∷ ms) p u a = elim (Bool-cases (text_le n m)) [
  | inl before ↦ rw before (p, (le-Precedes n m before (ground arith), a.1))
  | inr behind ↦
      rw behind (a.0, insert-AscendsFrom m n ms (not_le-Precedes n m behind) (ground arith) a.1)
]

insert-Ascends :
    (n : Text) (ms : List Text)
    → any (text_eq n) ms ≡ false
    → Ascends ms
    → Ascends (insert_name n ms)
unfolding insert_name
insert-Ascends n [] u a = tt
insert-Ascends n (m ∷ ms) u a = elim (Bool-cases (text_le n m)) [
  | inl before ↦ rw before (le-Precedes n m before (ground arith), a)
  | inr behind ↦ rw behind (insert-AscendsFrom m n ms (not_le-Precedes n m behind) (ground arith) a)
]

any-insert_name :
    (n : Text) (test : Text → Bool) (ms : List Text)
    → any test (insert_name n ms) ≡ (test n || any test ms)
unfolding insert_name
any-insert_name n test [] = refl
any-insert_name n test (m ∷ ms) = ground (arith, any-insert_name n test ms)

any-sort_names : (test : Text → Bool) (ns : List Text) → any test (sort_names ns) ≡ any test ns
unfolding sort_names
any-sort_names test [] = refl
any-sort_names test (n ∷ ns) =
    ground (arith, any-insert_name n test (sort_names ns), any-sort_names test ns)

occurrences-insert_name :
    (k n : Text) (ms : List Text) → occurrences k (insert_name n ms) ≡ occurrences k (n ∷ ms)
unfolding insert_name
occurrences-insert_name k n [] = refl
occurrences-insert_name k n (m ∷ ms) = ground (arith, occurrences-insert_name k n ms)

pub sort_names-same : (k : Text) (ns : List Text) → occurrences k (sort_names ns) ≡ occurrences k ns
unfolding sort_names
sort_names-same k [] = refl
sort_names-same k (n ∷ ns) =
    ground (arith, occurrences-insert_name k n (sort_names ns), sort_names-same k ns)

pub sort_names-Ascends : (ns : List Text) → Unique text_eq ns → Ascends (sort_names ns)
unfolding sort_names
sort_names-Ascends [] u = tt
sort_names-Ascends (n ∷ ns) u =
    insert-Ascends n (sort_names ns) (any-sort_names (text_eq n) ns ∙ u.0)
      (sort_names-Ascends ns u.1)

insert_name-Unique :
    (n : Text) (ms : List Text)
    → any (text_eq n) ms ≡ false
    → Unique text_eq ms
    → Unique text_eq (insert_name n ms)
unfolding insert_name
insert_name-Unique n [] u v = (refl, tt)
insert_name-Unique n (m ∷ ms) u v = elim (Bool-cases (text_le n m)) [
  | inl before ↦ rw before (u, v)
  | inr behind ↦ rw behind (
    any-insert_name n (text_eq m) ms ∙ ground (arith, text_eq-swap m n, v.0),
    insert_name-Unique n ms (ground arith) v.1,
  )
]

pub sort_names-Unique : (ns : List Text) → Unique text_eq ns → Unique text_eq (sort_names ns)
unfolding sort_names
sort_names-Unique [] u = tt
sort_names-Unique (n ∷ ns) u =
    insert_name-Unique n (sort_names ns) (any-sort_names (text_eq n) ns ∙ u.0)
      (sort_names-Unique ns u.1)
