-- ===== src/Amp/Find/Loads.antt =====
-- LoadValue on a normalized transaction: which elements its search can find.
use amp_sdk.Base.{ℕ, zero, suc, ◌/◌, ◌≤◌, ◌<◌, ◌≡◌, refl, ap, ◌∙◌, arith}
use amp_sdk.Base.{
  true, false, List, [], ◌∷◌, All, none, length, get_elem?, if◌then◌else◌, Bool-cases, inl, inr,
}
use amp_sdk.Tag.Uid.{is_wildcard}
use amp_sdk.Tag.Address.{ElementId, Address, compare_element_id}
use amp_sdk.Tag.Address.Keys.{IsElementId, bytes_compare-element_lsm}
use amp_sdk.Tag.Address.Order.{element_key, address_key, compare_element_id-key}
use amp_sdk.Amp.Ops.{TxOp}
use amp_sdk.Amp.Tx.{TxMsg, is_equal, value_bytes, normalize}
use amp_sdk.Amp.Tx.TxError.{attr_not_found}
use amp_sdk.Amp.Tx.Result.{fail}
use amp_sdk.Amp.Tx.Sorting.{HasAddress, AscendsFrom, Ascends}
use amp_sdk.Amp.Find.{is_after, compare_at, sort_find, matching_value, load_normal, load_value}
use amp_sdk.Amp.Find.Search.{IsRising, sort_find-rising}

-- An operation behind another in ascending order compares as behind where the other does.
after_rises :
    (a b : TxOp) (want : ElementId)
    → HasAddress a
    → HasAddress b
    → IsElementId want
    → address_key a.addr < address_key b.addr
    → is_after (compare_element_id a.addr.element_id want) ≡ true
    → is_after (compare_element_id b.addr.element_id want) ≡ true
after_rises a b want ha hb hw less after =
    let ka = compare_element_id-key a.addr.element_id want ha.0 hw in
    let kb = compare_element_id-key b.addr.element_id want hb.0 hw in
    let up : element_key a.addr.element_id ≤ element_key b.addr.element_id = omega arith in
    let behind : element_key want < element_key a.addr.element_id = ground (arith, ka) in
    rw kb (ground arith)

from_first :
    (op : TxOp) (ops : List TxOp) (want : ElementId) (k : ℕ)
    → HasAddress op
    → All HasAddress ops
    → IsElementId want
    → AscendsFrom op ops
    → k < length ops
    → is_after (compare_element_id op.addr.element_id want) ≡ true
    → is_after (compare_at ops want k) ≡ true
unfolding compare_at
from_first op [] want k ho hs hw up hk after = absurd (omega arith)
from_first op (x ∷ xs) want zero ho hs hw up hk after = after_rises op x want ho hs.0 hw up.0 after
from_first op (x ∷ xs) want (suc k) ho hs hw up hk after =
    from_first x xs want k hs.0 hs.1 hw up.1 (omega arith)
      (after_rises op x want ho hs.0 hw up.0 after)

tail-Ascends : (op : TxOp) (ops : List TxOp) → AscendsFrom op ops → Ascends ops
tail-Ascends op [] up = tt
tail-Ascends op (x ∷ xs) up = up.1

compare_at-IsRising :
    (ops : List TxOp) (want : ElementId)
    → All HasAddress ops
    → IsElementId want
    → Ascends ops
    → IsRising (length ops) (compare_at ops want)
unfolding compare_at
compare_at-IsRising [] want hs hw up h k hk hn after = absurd (omega arith)
compare_at-IsRising (op ∷ ops) want hs hw up zero zero hk hn after = after
compare_at-IsRising (op ∷ ops) want hs hw up zero (suc k) hk hn after =
    from_first op ops want k hs.0 hs.1 hw up (omega arith) after
compare_at-IsRising (op ∷ ops) want hs hw up (suc h) zero hk hn after = absurd (omega arith)
compare_at-IsRising (op ∷ ops) want hs hw up (suc h) (suc k) hk hn after =
    compare_at-IsRising ops want hs.1 hw (tail-Ascends op ops up) h k (omega arith) (omega arith)
      after

get_elem?-end : {A : Type 0} (xs : List A) → get_elem? xs (length xs) ≡ none
get_elem?-end [] = refl
get_elem?-end (x ∷ xs) = get_elem?-end xs

matching_value-first :
    (store : List ℕ) (op : TxOp) (ops : List TxOp) (want : ElementId)
    → Ascends (op ∷ ops)
    → All HasAddress (op ∷ ops)
    → IsElementId want
    → matching_value store want
        (get_elem? (op ∷ ops) (sort_find (length (op ∷ ops)) (compare_at (op ∷ ops) want)))
      ≡ (if is_after (compare_at (op ∷ ops) want (suc (length ops) / 2))
          then fail attr_not_found
          else if is_equal (compare_element_id op.addr.element_id want)
          then value_bytes store op
          else fail attr_not_found)
unfolding matching_value
matching_value-first store op ops want up hs hw =
    let place =
      sort_find-rising (suc (length ops)) (compare_at (op ∷ ops) want) (omega arith)
        (compare_at-IsRising (op ∷ ops) want hs hw up) in
    elim (Bool-cases (is_after (compare_at (op ∷ ops) want (suc (length ops) / 2)))) [
      | inl high ↦ rw (place, high) (ap (matching_value store want) (get_elem?-end ops))
      | inr low ↦
          rw (place, low) (rw (bytes_compare-element_lsm op.addr.element_id want hs.0.0 hw) refl)
    ]

kept : (tx : TxMsg) → tx.normalized ≡ true → (normalize false tx).0 ≡ tx
unfolding normalize
kept tx normal = rw normal refl

-- On a normalized transaction that is not empty, LoadValue of an element whose item is no wildcard has
-- one answer: the value of the first operation, where that operation is on the element and the one in
-- the middle is not behind it, and else that there is none, also where a later operation is on the
-- element. The search tells sort.Find the opposite of the comparison that it asks for.
pub load_value-first :
    (tx : TxMsg) (op : TxOp) (ops : List TxOp) (want : Address)
    → tx.ops ≡ op ∷ ops
    → tx.normalized ≡ true
    → Ascends (op ∷ ops)
    → All HasAddress (op ∷ ops)
    → IsElementId want.element_id
    → is_wildcard want.element_id.item_id ≡ false
    → (load_value tx want).0 ≡ (
        if is_after (compare_at (op ∷ ops) want.element_id (suc (length ops) / 2))
        then fail attr_not_found
        else if is_equal (compare_element_id op.addr.element_id want.element_id)
        then value_bytes tx.data_store op
        else fail attr_not_found)
unfolding load_value load_normal
load_value-first tx op ops want e normal up hs hw tame =
    ap (λ (t : TxMsg). load_normal t want.element_id) (kept tx normal)
    ∙ rw (tame, e) (matching_value-first tx.data_store op ops want.element_id up hs hw)
