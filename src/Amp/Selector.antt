-- ===== src/Amp/Selector.antt =====
-- amp/amp.support.attrs.go: the selectors of a request, ItemSpan, ItemSelector and Request.Admits.
pub mod Admitted
pub mod Loop
pub mod Sorting
pub mod Normal
mod Tests
use amp_sdk.Base.{
  ℕ, zero, suc, ◌+◌, Bool, true, false, not, ◌&&◌, ◌||◌, List, [], ◌∷◌, ◌++◌, map, Option, none,
  some, length, get_or, set, take, ltb, leb, ◌==◌, if◌then◌else◌,
}
use amp_sdk.Tag.Uid.{
  Uid, nil, is_nil, is_set, is_wildcard, same_uid, compare_to, max_id, word_max, low_max,
}
use amp_sdk.Tag.Address.{ElementId, Address}
use amp_sdk.Tag.Rank.{is_before}
use Prim.Native.Nat.{Ordering}
use Prim.Native.Nat.Ordering.{lt, eq, gt}

-- The words of an ItemSpan, paired as `NodeID`, `AttrID`, `ItemRange` and `EditRange` pair them.
pub record ItemSpan : Type 0 where
  pub node_id : Uid
  pub attr_id : Uid
  pub item_min : Uid
  pub item_max : Uid
  pub edit_min : Uid
  pub edit_max : Uid
  pub edits_per_item : ℕ

pub record ItemSelector : Type 0 where
  pub spans : List ItemSpan
  pub normalized : Bool

abbrev pub is_after : Ordering → Bool
is_after lt = false
is_after eq = false
is_after gt = true

-- The body of the loop of `Request.Admits`.
unfoldable pub admits_span : ItemSpan → Address → Bool
admits_span span addr =
    if not (is_wildcard span.node_id) && not (same_uid span.node_id addr.element_id.node_id)
    then false
    else if not (is_wildcard span.attr_id) && not (same_uid span.attr_id addr.element_id.attr_id)
    then false
    else if is_before (compare_to addr.element_id.item_id span.item_min)
        || is_after (compare_to addr.element_id.item_id span.item_max)
    then false
    else if is_set span.edit_min && is_before (compare_to addr.edit_id span.edit_min)
    then false
    else if is_set span.edit_max && is_after (compare_to addr.edit_id span.edit_max)
    then false
    else true

unfoldable pub admits : List ItemSpan → Address → Bool
admits [] addr = false
admits (span ∷ spans) addr = if admits_span span addr then true else admits spans addr

-- `AddSpan`
unfoldable pub add_span : Uid → Uid → Uid → Uid → ItemSelector → ItemSelector
add_span node attr item_min item_max sel = record {
  spans =
      sel.spans
      ++ record {
        node_id = node;
        attr_id = attr;
        item_min = item_min;
        item_max = item_max;
        edit_min = nil;
        edit_max = nil;
        edits_per_item = 1;
      }
        ∷ [];
  normalized = false;
}

-- `Select`
unfoldable pub select : ElementId → ItemSelector → ItemSelector
unfolding max_id
select elem sel =
    if is_wildcard elem.item_id
    then add_span elem.node_id elem.attr_id nil max_id sel
    else add_span elem.node_id elem.attr_id elem.item_id elem.item_id sel

abbrev pub compare_words : ℕ → ℕ → Ordering → Ordering
compare_words a b rest = if ltb a b then lt else if ltb b a then gt else rest

-- `ItemSpan.CompareTo`
unfoldable pub compare_span : ItemSpan → ItemSpan → Ordering
compare_span span j = compare_words span.node_id.w0 j.node_id.w0 (
    compare_words span.node_id.w1 j.node_id.w1 (
      compare_words span.attr_id.w0 j.attr_id.w0 (
        compare_words span.attr_id.w1 j.attr_id.w1 (
          compare_words span.item_min.w0 j.item_min.w0 (
            compare_words span.item_min.w1 j.item_min.w1 (
              compare_words span.item_max.w0 j.item_max.w0
                (compare_words span.item_max.w1 j.item_max.w1 eq)))))))

-- The Code_BadRequest errors of Normalize.
pub data SelectorError : Type 0 where
  missing_node_id : SelectorError
  missing_attr_id : SelectorError

-- "enforce tag.UID_1_Max"
unfoldable pub clamp_span : ItemSpan → ItemSpan
clamp_span span =
    if span.item_max.w0 == word_max && ltb low_max span.item_max.w1
    then record span { item_max = record { w0 = span.item_max.w0; w1 = low_max } }
    else span

-- `drop`
unfoldable pub is_dropped : ItemSpan → Bool
is_dropped span =
    (span.item_min.w0 == word_max && ltb low_max span.item_min.w1)
    || (ltb span.item_max.w0 span.item_min.w0
        || (span.item_min.w0 == span.item_max.w0 && ltb span.item_max.w1 span.item_min.w1))

abbrev pub empty_span : ItemSpan
empty_span = record {
  node_id = nil;
  attr_id = nil;
  item_min = nil;
  item_max = nil;
  edit_min = nil;
  edit_max = nil;
  edits_per_item = 0;
}

-- What the loop of Normalize leaves: the spans that the slice points to, the slice of pointers, as
-- positions in them, and N or the error.
pub record Pass : Type 0 where
  pub heap : List ItemSpan
  pub slice : List ℕ
  pub kept : ℕ
  pub failed : Option SelectorError

-- The loop at `i`, with `k` spans from there to N.
unfoldable pub normalize_loop : ℕ → List ItemSpan → List ℕ → ℕ → Pass
normalize_loop zero heap slice i = record { heap = heap; slice = slice; kept = i; failed = none }
normalize_loop (suc k) heap slice i =
    let p = get_or slice i 0 in
    let span = get_or heap p empty_span in
    let clamped = clamp_span span in
    let dropped = is_dropped clamped in
    let rest =
      normalize_loop k (set heap p clamped)
        (if dropped then set slice i (get_or slice (i + k) 0) else slice)
        (if dropped then i else suc i) in
    if is_nil span.node_id
    then record { heap = heap; slice = slice; kept = i + suc k; failed = some missing_node_id }
    else if is_nil span.attr_id
    then record { heap = heap; slice = slice; kept = i + suc k; failed = some missing_attr_id }
    else rest

-- The numbers from `i` on.
abbrev pub positions : ℕ → ℕ → List ℕ
positions i zero = []
positions i (suc n) = i ∷ positions (suc i) n

abbrev pub spans_at : List ItemSpan → List ℕ → List ItemSpan
spans_at heap slice = map (λ p. get_or heap p empty_span) slice

-- `sort.Slice` in reverse.
unfoldable pub insert_span : ItemSpan → List ItemSpan → List ItemSpan
insert_span span [] = span ∷ []
insert_span span (x ∷ xs) =
    let later = insert_span span xs in
    if is_after (compare_span span x) then span ∷ x ∷ xs else x ∷ later

unfoldable pub sort_spans : List ItemSpan → List ItemSpan
sort_spans [] = []
sort_spans (span ∷ spans) = insert_span span (sort_spans spans)

abbrev pub after_pass :
    ItemSelector → Pass → Option SelectorError → ItemSelector × Option SelectorError
after_pass sel pass (some e) = (record sel { spans = spans_at pass.heap pass.slice }, some e)
after_pass sel pass none = (
  record { spans = take pass.kept (sort_spans (spans_at pass.heap pass.slice)); normalized = true },
  none,
)

-- `ItemSelector.Normalize`: the whole slice is sorted, what was dropped and moved included, and cut to N.
unfoldable pub normalize_selector : Bool → ItemSelector → ItemSelector × Option SelectorError
normalize_selector force sel =
    let pass = normalize_loop (length sel.spans) sel.spans (positions 0 (length sel.spans)) 0 in
    if not force && sel.normalized then (sel, none) else after_pass sel pass pass.failed
