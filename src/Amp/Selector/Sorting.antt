-- ===== src/Amp/Selector/Sorting.antt =====
-- The sort of Normalize.
use amp_sdk.Base.{
  suc, ◌≡◌, refl, ap, ◌∙◌, arith, true, false, List, [], ◌∷◌, inl, inr, length, Bool-cases,
}
use amp_sdk.Amp.Selector.{ItemSpan, insert_span, sort_spans, compare_span, is_after}
use mathlib.Core.List.{Perm}
use mathlib.Core.List.Perm

insert_span-Perm : (x : ItemSpan) (xs : List ItemSpan) → Perm (insert_span x xs) (x ∷ xs)
unfolding insert_span
insert_span-Perm x [] = Perm.refl (x ∷ [])
insert_span-Perm x (y ∷ ys) = elim (Bool-cases (is_after (compare_span x y))) [
  | inl before ↦ rw before (Perm.refl (x ∷ y ∷ ys))
  | inr later ↦ rw later (Perm.trans (Perm.cons y (insert_span-Perm x ys)) (Perm.swap x y ys))
]

pub sort_spans-Perm : (xs : List ItemSpan) → Perm (sort_spans xs) xs
unfolding sort_spans
sort_spans-Perm [] = Perm.refl []
sort_spans-Perm (x ∷ xs) =
    Perm.trans (insert_span-Perm x (sort_spans xs)) (Perm.cons x (sort_spans-Perm xs))

-- No span comes after the next one, in the order that Normalize reverses.
abbrev pub DescendsFrom : ItemSpan → List ItemSpan → Type 0
DescendsFrom x [] = Unit
DescendsFrom x (y ∷ ys) = (is_after (compare_span y x) ≡ false) × DescendsFrom y ys

abbrev pub Descends : List ItemSpan → Type 0
Descends [] = Unit
Descends (x ∷ xs) = DescendsFrom x xs

pub compare_span-swap :
    (x y : ItemSpan) → is_after (compare_span x y) ≡ true → is_after (compare_span y x) ≡ false
unfolding compare_span
compare_span-swap x y h = ground (arith, h)

DescendsFrom-insert_span :
    (p x : ItemSpan) (xs : List ItemSpan)
    → is_after (compare_span x p) ≡ false
    → DescendsFrom p xs
    → DescendsFrom p (insert_span x xs)
unfolding insert_span
DescendsFrom-insert_span p x [] hx h = (hx, tt)
DescendsFrom-insert_span p x (y ∷ ys) hx (hy, h) = elim (Bool-cases (is_after (compare_span x y))) [
  | inl before ↦ rw before (hx, (compare_span-swap x y before, h))
  | inr later ↦ rw later (hy, DescendsFrom-insert_span y x ys later h)
]

insert_span-Descends :
    (x : ItemSpan) (xs : List ItemSpan) → Descends xs → Descends (insert_span x xs)
unfolding insert_span
insert_span-Descends x [] h = tt
insert_span-Descends x (y ∷ ys) h = elim (Bool-cases (is_after (compare_span x y))) [
  | inl before ↦ rw before (compare_span-swap x y before, h)
  | inr later ↦ rw later (DescendsFrom-insert_span y x ys later h)
]

pub sort_spans-Descends : (xs : List ItemSpan) → Descends (sort_spans xs)
unfolding sort_spans
sort_spans-Descends [] = tt
sort_spans-Descends (x ∷ xs) = insert_span-Descends x (sort_spans xs) (sort_spans-Descends xs)

length-insert_span :
    (x : ItemSpan) (xs : List ItemSpan) → length (insert_span x xs) ≡ suc (length xs)
unfolding insert_span
length-insert_span x [] = refl
length-insert_span x (y ∷ ys) = elim (Bool-cases (is_after (compare_span x y))) [
  | inl before ↦ rw before refl
  | inr later ↦ rw later (ap suc (length-insert_span x ys))
]

pub length-sort_spans : (xs : List ItemSpan) → length (sort_spans xs) ≡ length xs
unfolding sort_spans
length-sort_spans [] = refl
length-sort_spans (x ∷ xs) = length-insert_span x (sort_spans xs) ∙ ap suc (length-sort_spans xs)
