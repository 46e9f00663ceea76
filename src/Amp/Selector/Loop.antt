-- ===== src/Amp/Selector/Loop.antt =====
-- The loop of Normalize over the pointers to the spans.
use amp_sdk.Base.{
  ℕ, zero, suc, ◌+◌, ◌<◌, ◌≡◌, refl, sym, ◌∙◌, arith, true, false, List, [], ◌∷◌, ◌++◌, map,
  append_assoc, none, length, get_or, set, get_or-append, set-append, length-append, All,
}
use amp_sdk.Tag.Uid.{is_nil}
use amp_sdk.Amp.Selector.{
  ItemSpan, clamp_span, is_dropped, empty_span, normalize_loop, positions, spans_at,
}

-- A span that names a node and an attribute.
abbrev pub IsNamed : ItemSpan → Type 0
IsNamed span = (is_nil span.node_id ≡ false) × (is_nil span.attr_id ≡ false)

-- A span that Normalize keeps: it is named, and its range is not empty.
abbrev pub IsKept : ItemSpan → Type 0
IsKept span = IsNamed span × (is_dropped (clamp_span span) ≡ false)

pub step_kept :
    (k : ℕ) (heap : List ItemSpan) (slice : List ℕ) (i p : ℕ) (x : ItemSpan)
    → get_or slice i 0 ≡ p
    → get_or heap p empty_span ≡ x
    → IsKept x
    → normalize_loop (suc k) heap slice i
      ≡ normalize_loop k (set heap p (clamp_span x)) slice (suc i)
unfolding normalize_loop
step_kept k heap slice i p x at here ((node, attr), kept) = rw (at, here, node, attr, kept) refl

pub step_dropped :
    (k : ℕ) (heap : List ItemSpan) (slice : List ℕ) (i p : ℕ) (x : ItemSpan)
    → get_or slice i 0 ≡ p
    → get_or heap p empty_span ≡ x
    → IsNamed x
    → is_dropped (clamp_span x) ≡ true
    → normalize_loop (suc k) heap slice i
      ≡ normalize_loop k (set heap p (clamp_span x)) (set slice i (get_or slice (i + k) 0)) i
unfolding normalize_loop
step_dropped k heap slice i p x at here (node, attr) dropped =
    rw (at, here, node, attr, dropped) refl

get_or-positions : (a n i : ℕ) → i < n → get_or (positions a n) i 0 ≡ a + i
get_or-positions a zero i h = elim h [ ]
get_or-positions a (suc n) zero h = omega arith
get_or-positions a (suc n) (suc i) h = get_or-positions (suc a) n i (omega arith) ∙ omega arith

length_snoc : (done : List ItemSpan) (x : ItemSpan) → length (done ++ x ∷ []) ≡ suc (length done)
length_snoc done x = omega (arith, length-append done (x ∷ []))

head_at :
    (heap done : List ItemSpan) (i : ℕ) (x : ItemSpan) (xs : List ItemSpan)
    → heap ≡ done ++ x ∷ xs
    → i ≡ length done
    → get_or heap i empty_span ≡ x
head_at heap done i x xs he hi = rw (he, hi) (get_or-append done x xs empty_span)

-- The loop over spans that are all kept, behind `done`.
pub loop_kept :
    (rest done heap : List ItemSpan) (i n : ℕ)
    → heap ≡ done ++ rest
    → i ≡ length done
    → i + length rest ≡ n
    → All IsKept rest
    → normalize_loop (length rest) heap (positions 0 n) i ≡ record {
      heap = done ++ map clamp_span rest;
      slice = positions 0 n;
      kept = n;
      failed = none;
    }
unfolding normalize_loop
loop_kept [] done heap i n he hi hn h =
    let e : i ≡ n = omega arith in
    λ j. record { heap = he j; slice = positions 0 n; kept = e j; failed = none }
loop_kept (x ∷ rest) done heap i n he hi hn (kept, h) =
    let written : set heap i (clamp_span x) ≡ (done ++ clamp_span x ∷ []) ++ rest =
      rw (he, hi)
        (set-append done x (clamp_span x) rest
          ∙ sym (append_assoc done (clamp_span x ∷ []) rest)) in
    step_kept (length rest) heap (positions 0 n) i i x
      (get_or-positions 0 n i (omega arith) ∙ omega arith) (head_at heap done i x rest he hi) kept
    ∙ loop_kept rest (done ++ clamp_span x ∷ []) _ (suc i) n written
        (omega (arith, length_snoc done (clamp_span x))) (omega arith) h
    ∙ rw (append_assoc done (clamp_span x ∷ []) (map clamp_span rest)) refl

pub spans_at_from :
    (xs done heap : List ItemSpan) (a : ℕ)
    → heap ≡ done ++ xs
    → a ≡ length done
    → spans_at heap (positions a (length xs)) ≡ xs
spans_at_from [] done heap a he ha = refl
spans_at_from (x ∷ xs) done heap a he ha =
    let rest =
      spans_at_from xs (done ++ x ∷ []) heap (suc a) (he ∙ sym (append_assoc done (x ∷ []) xs))
        (omega (arith, length_snoc done x)) in
    λ j. head_at heap done a x xs he ha j ∷ rest j
