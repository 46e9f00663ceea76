-- ===== src/Amp/Selector/Normal.antt =====
-- Normalize: what it keeps of a selector without empty spans, and what it loses of one with them.
use amp_sdk.Base.{
  suc, ◌≡◌, refl, sym, ap, ◌∙◌, arith, Bool, true, false, List, [], ◌∷◌, map, Option, none, some,
  length, take, All,
}
use amp_sdk.Amp.Selector.{
  ItemSpan, ItemSelector, SelectorError, clamp_span, is_dropped, normalize_loop, positions,
  spans_at, insert_span, sort_spans, normalize_selector, compare_span, is_after,
}
use mathlib.Core.List.{Perm}
use amp_sdk.Amp.Selector.Loop.{IsNamed, IsKept, step_kept, step_dropped, loop_kept, spans_at_from}
use amp_sdk.Amp.Selector.Sorting.{
  sort_spans-Perm, Descends, compare_span-swap, sort_spans-Descends, length-sort_spans,
}

length-map : (xs : List ItemSpan) → length (map clamp_span xs) ≡ length xs
length-map [] = refl
length-map (x ∷ xs) = ap suc (length-map xs)

take_all : (xs : List ItemSpan) → take (length xs) xs ≡ xs
take_all [] = refl
take_all (x ∷ xs) = ap (λ t. x ∷ t) (take_all xs)

take_sorted :
    (xs : List ItemSpan)
    → take (length xs) (sort_spans (map clamp_span xs)) ≡ sort_spans (map clamp_span xs)
take_sorted xs =
    ap (λ n. take n (sort_spans (map clamp_span xs)))
      (sym (length-sort_spans (map clamp_span xs) ∙ length-map xs))
    ∙ take_all (sort_spans (map clamp_span xs))

read_all :
    (xs : List ItemSpan)
    → spans_at (map clamp_span xs) (positions 0 (length xs)) ≡ map clamp_span xs
read_all xs =
    ap (λ n. spans_at (map clamp_span xs) (positions 0 n)) (sym (length-map xs))
    ∙ spans_at_from (map clamp_span xs) [] (map clamp_span xs) 0 refl refl

pub normalize_kept :
    (sel : ItemSelector)
    → All IsKept sel.spans
    → normalize_selector true sel
      ≡ (record { spans = sort_spans (map clamp_span sel.spans); normalized = true }, none)
unfolding normalize_selector
normalize_kept sel h =
    rw (loop_kept sel.spans [] sel.spans 0 (length sel.spans) refl refl (omega arith) h)
      (rw (read_all sel.spans, take_sorted sel.spans) refl)

-- What Normalize promises of a selector against the spans that it was given.
abbrev pub IsNormalOf : List ItemSpan → ItemSelector × Option SelectorError → Type 0
IsNormalOf spans (sel, none) =
    Descends sel.spans × Perm sel.spans (map clamp_span spans) × (sel.normalized ≡ true)
IsNormalOf spans (sel, some e) = ⊥

-- A forced Normalize of spans that are all named and not empty returns no error and leaves the spans with
-- their upper ends clamped, each as often as before, in descending order.
pub normalize_selector-IsNormalOf :
    (sel : ItemSelector) → All IsKept sel.spans → IsNormalOf sel.spans (normalize_selector true sel)
normalize_selector-IsNormalOf sel h = rw (normalize_kept sel h) (
  sort_spans-Descends (map clamp_span sel.spans),
  sort_spans-Perm (map clamp_span sel.spans),
  refl,
)

loop_swaps :
    (x a b : ItemSpan)
    → IsNamed x
    → is_dropped (clamp_span x) ≡ true
    → IsKept a
    → IsKept b
    → normalize_loop 3 (x ∷ a ∷ b ∷ []) (positions 0 3) 0 ≡ record {
      heap = clamp_span x ∷ clamp_span a ∷ clamp_span b ∷ [];
      slice = 2 ∷ 1 ∷ 2 ∷ [];
      kept = 2;
      failed = none;
    }
unfolding normalize_loop
loop_swaps x a b named dropped ka kb =
    step_dropped 2 (x ∷ a ∷ b ∷ []) (positions 0 3) 0 0 x refl refl named dropped
    ∙ step_kept 1 (clamp_span x ∷ a ∷ b ∷ []) (2 ∷ 1 ∷ 2 ∷ []) 0 2 b refl refl kb
    ∙ step_kept 0 (clamp_span x ∷ a ∷ clamp_span b ∷ []) (2 ∷ 1 ∷ 2 ∷ []) 1 1 a refl refl ka

compare_span_irrefl : (b : ItemSpan) → is_after (compare_span b b) ≡ false
unfolding compare_span
compare_span_irrefl b = ground arith

sorted_twice :
    (a b : ItemSpan)
    → is_after (compare_span b a) ≡ true
    → take 2 (sort_spans (b ∷ a ∷ b ∷ [])) ≡ b ∷ b ∷ []
unfolding sort_spans insert_span
sorted_twice a b above =
    let below : is_after (compare_span a b) ≡ false = compare_span-swap b a above in
    rw (below, compare_span_irrefl b, above) refl

-- Of a forced Normalize on an empty span in front of two that are not empty, `b` after `a`, there is left
-- `b` twice, and `a` is lost.
pub normalize_selector-loses :
    (x a b : ItemSpan) (flag : Bool)
    → IsNamed x
    → is_dropped (clamp_span x) ≡ true
    → IsKept a
    → IsKept b
    → is_after (compare_span (clamp_span b) (clamp_span a)) ≡ true
    → normalize_selector true (record { spans = x ∷ a ∷ b ∷ []; normalized = flag })
      ≡ (record { spans = clamp_span b ∷ clamp_span b ∷ []; normalized = true }, none)
unfolding normalize_selector
normalize_selector-loses x a b flag named dropped ka kb above =
    rw (loop_swaps x a b named dropped ka kb)
      (rw (sorted_twice (clamp_span a) (clamp_span b) above) refl)
