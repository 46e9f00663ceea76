-- ===== src/Amp/Selector/Admitted.antt =====
-- Which addresses a selector admits: behind Select, and behind Normalize.
use amp_sdk.Base.{
  ◌≡◌, refl, ◌∙◌, arith, Bool, true, false, not, ◌&&◌, ◌||◌, List, [], ◌∷◌, ◌++◌, map, inl, inr,
  All, if◌then◌else◌, Bool-cases, ltb, ◌==◌,
}
use amp_sdk.Tag.Uid.{Uid, nil, is_wildcard, is_set, same_uid, compare_to, max_id, word_max, low_max}
use amp_sdk.Tag.Address.{ElementId, Address}
use amp_sdk.Tag.Rank.{is_before}
use amp_sdk.Amp.Selector.{
  ItemSpan, ItemSelector, is_after, admits_span, admits, add_span, select, clamp_span, insert_span,
  sort_spans, compare_span, normalize_selector,
}
use amp_sdk.Amp.Selector.Loop.{IsKept}
use amp_sdk.Amp.Selector.Normal.{normalize_kept}

admits-append :
    (xs : List ItemSpan) (x : ItemSpan) (addr : Address)
    → admits (xs ++ x ∷ []) addr ≡ (admits xs addr || admits_span x addr)
unfolding admits
admits-append [] x addr = ground arith
admits-append (y ∷ ys) x addr = ground (arith, admits-append ys x addr)

outside_point :
    (a b : Uid) → (is_before (compare_to a b) || is_after (compare_to a b)) ≡ not (same_uid a b)
unfolding compare_to same_uid
outside_point a b = ground arith

outside_all :
    (a : Uid)
    → (is_before (compare_to a nil) || is_after (compare_to a max_id))
      ≡ is_after (compare_to a max_id)
unfolding compare_to
outside_all a = ground arith

nil_unset : is_set nil ≡ false
unfolding is_set
nil_unset = refl

-- Whether an address has a part of the selected element: any, for the wildcard.
abbrev pub part_matches : Uid → Uid → Bool
part_matches selected id = is_wildcard selected || same_uid selected id

abbrev pub item_matches : Uid → Uid → Bool
item_matches selected id =
    if is_wildcard selected then not (is_after (compare_to id max_id)) else same_uid id selected

-- After Select of an element, a selector admits what it admitted before and the addresses of the element,
-- a wildcard standing for every node, every attribute, and every item up to MaxID; each with all its edits.
pub admits-select :
    (elem : ElementId) (sel : ItemSelector) (addr : Address)
    → admits (select elem sel).spans addr ≡ (
        admits sel.spans addr
        || (part_matches elem.node_id addr.element_id.node_id
            && (part_matches elem.attr_id addr.element_id.attr_id
                && item_matches elem.item_id addr.element_id.item_id)))
unfolding select add_span admits_span
admits-select elem sel addr = elim (Bool-cases (is_wildcard elem.item_id)) [
  | inl wild ↦
      rw (wild, admits-append sel.spans _ addr, outside_all addr.element_id.item_id, nil_unset)
        (ground arith)
  | inr point ↦
      rw
        (
          point,
          admits-append sel.spans _ addr,
          outside_point addr.element_id.item_id elem.item_id,
          nil_unset,
        )
        (ground arith)
]

below_max :
    (i m : Uid)
    → is_after (compare_to i max_id) ≡ false
    → (m.w0 == word_max && ltb low_max m.w1) ≡ true
    → (is_after (compare_to i m) ≡ false)
      × (is_after (compare_to i (record { w0 = m.w0; w1 = low_max })) ≡ false)
unfolding compare_to max_id
below_max i m h high = (ground (arith, h, high), ground (arith, h, high))

clamp_span-admits :
    (x : ItemSpan) (addr : Address)
    → is_after (compare_to addr.element_id.item_id max_id) ≡ false
    → admits_span (clamp_span x) addr ≡ admits_span x addr
unfolding admits_span clamp_span
clamp_span-admits x addr h =
    elim (Bool-cases (x.item_max.w0 == word_max && ltb low_max x.item_max.w1)) [
      | inl high ↦
          let (above, clamped) = below_max addr.element_id.item_id x.item_max h high in
          rw (high, above, clamped) refl
      | inr low ↦ rw low refl
    ]

insert_span-admits :
    (x : ItemSpan) (xs : List ItemSpan) (addr : Address)
    → admits (insert_span x xs) addr ≡ (admits_span x addr || admits xs addr)
unfolding insert_span admits
insert_span-admits x [] addr = ground arith
insert_span-admits x (y ∷ ys) addr = elim (Bool-cases (is_after (compare_span x y))) [
  | inl before ↦ rw before (ground arith)
  | inr later ↦ rw later (ground (arith, insert_span-admits x ys addr))
]

sort_spans-admits :
    (xs : List ItemSpan) (addr : Address)
    → is_after (compare_to addr.element_id.item_id max_id) ≡ false
    → admits (sort_spans (map clamp_span xs)) addr ≡ admits xs addr
unfolding sort_spans admits
sort_spans-admits [] addr h = refl
sort_spans-admits (x ∷ xs) addr h =
    insert_span-admits (clamp_span x) (sort_spans (map clamp_span xs)) addr
    ∙ rw (clamp_span-admits x addr h, sort_spans-admits xs addr h) (ground arith)

-- Normalize of spans that are all named and not empty changes nothing that is admitted of the items up to
-- MaxID.
pub admits-normalize_selector :
    (sel : ItemSelector) (addr : Address)
    → All IsKept sel.spans
    → is_after (compare_to addr.element_id.item_id max_id) ≡ false
    → admits (normalize_selector true sel).0.spans addr ≡ admits sel.spans addr
admits-normalize_selector sel addr kept h =
    rw (normalize_kept sel kept) (sort_spans-admits sel.spans addr h)
