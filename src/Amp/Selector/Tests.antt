-- ===== src/Amp/Selector/Tests.antt =====
-- The theorems on selectors at two spans of one attribute, and at an empty one before them.
use amp_sdk.Base.{ℕ, ◌≡◌, refl, true, false, [], ◌∷◌, none}
use amp_sdk.Tag.Uid.{Uid, nil, is_nil, compare_to, max_id}
use amp_sdk.Tag.Address.{ElementId, Address}
use amp_sdk.Amp.Selector.{
  ItemSpan, ItemSelector, is_after, admits, clamp_span, is_dropped, compare_span,
  normalize_selector,
}
use amp_sdk.Amp.Selector.Loop.{IsKept, IsNamed}
use amp_sdk.Amp.Selector.Normal.{
  IsNormalOf, normalize_selector-IsNormalOf, normalize_selector-loses,
}
use amp_sdk.Amp.Selector.Admitted.{admits-normalize_selector}

abbrev uid : ℕ → Uid
uid n = record { w0 = 0; w1 = n }

abbrev span : ℕ → ℕ → ItemSpan
span low high = record {
  node_id = uid 1;
  attr_id = uid 2;
  item_min = uid low;
  item_max = uid high;
  edit_min = nil;
  edit_max = nil;
  edits_per_item = 1;
}

abbrev two_spans : ItemSelector
two_spans = record { spans = span 3 4 ∷ span 6 9 ∷ []; normalized = false }

abbrev elem : ElementId
elem = record { node_id = uid 1; attr_id = uid 2; item_id = uid 7 }

abbrev address : Address
address = record { element_id = elem; edit_id = uid 50 }

IsKept-low : IsKept (span 3 4)
unfolding is_nil clamp_span is_dropped
IsKept-low = ((refl, refl), refl)

IsKept-high : IsKept (span 6 9)
unfolding is_nil clamp_span is_dropped
IsKept-high = ((refl, refl), refl)

IsNamed-empty : IsNamed (span 8 5)
unfolding is_nil
IsNamed-empty = (refl, refl)

dropped_empty : is_dropped (clamp_span (span 8 5)) ≡ true
unfolding clamp_span is_dropped
dropped_empty = refl

high_after : is_after (compare_span (clamp_span (span 6 9)) (clamp_span (span 3 4))) ≡ true
unfolding clamp_span compare_span
high_after = refl

below_max : is_after (compare_to (uid 7) max_id) ≡ false
unfolding compare_to max_id
below_max = refl

normalize_selector-IsNormalOf_example :
    IsNormalOf (span 3 4 ∷ span 6 9 ∷ []) (normalize_selector true two_spans)
normalize_selector-IsNormalOf_example =
    normalize_selector-IsNormalOf two_spans (IsKept-low, (IsKept-high, tt))

normalize_selector-loses_example :
    normalize_selector true
      (record { spans = span 8 5 ∷ span 3 4 ∷ span 6 9 ∷ []; normalized = false })
    ≡ (
      record { spans = clamp_span (span 6 9) ∷ clamp_span (span 6 9) ∷ []; normalized = true },
      none,
    )
normalize_selector-loses_example =
    normalize_selector-loses (span 8 5) (span 3 4) (span 6 9) false IsNamed-empty dropped_empty
      IsKept-low IsKept-high high_after

admits-normalize_selector_example :
    admits (normalize_selector true two_spans).0.spans address ≡ admits two_spans.spans address
admits-normalize_selector_example =
    admits-normalize_selector two_spans address (IsKept-low, (IsKept-high, tt)) below_max
