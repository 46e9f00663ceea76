-- ===== src/Tag/Address/Keys.antt =====
-- The byte keys: an address is read back from its key, and element keys sort as elements do.
use amp_sdk.Base.{ℕ, ◌≡◌, refl, sym, ap, ◌∙◌, arith, List, [], ◌++◌}
use amp_sdk.Base.Bytes.{
  put_be, be_value, be_value-put_be, bytes_compare, bytes_compare-put_be, then_compare,
}
use amp_sdk.Tag.Uid.{Uid, IsUid, compare_to}
use amp_sdk.Tag.Address.{
  ElementId, Address, put_uid, put_element_lsm, element_lsm, as_lsm, element_id_of, from_lsm,
  compare_element_id,
}
use Prim.Native.Nat.{compare, Ordering}

abbrev pub IsElementId : ElementId → Type 0
IsElementId e = IsUid e.node_id × IsUid e.attr_id × IsUid e.item_id

abbrev pub IsAddress : Address → Type 0
IsAddress a = IsElementId a.element_id × IsUid a.edit_id

-- The two words of a UID, read back from their bytes.
read_uid :
    (id : Uid)
    → IsUid id
    → record { w0 = be_value (put_be 8 id.w0); w1 = be_value (put_be 8 id.w1) } ≡ id
read_uid id h =
    λ i. record { w0 = be_value-put_be 8 id.w0 h.0 i; w1 = be_value-put_be 8 id.w1 h.1 i }

-- Reading the element from a key gives the element that was written, whatever follows it.
pub element_id_of-put :
    (e : ElementId) (rest : List ℕ) → IsElementId e → element_id_of (put_element_lsm e rest) ≡ e
unfolding element_id_of put_element_lsm put_be
element_id_of-put e rest h = λ i. record {
  node_id = read_uid e.node_id h.0 i;
  attr_id = read_uid e.attr_id h.1 i;
  item_id = read_uid e.item_id h.2 i;
}

-- FromLSM reads back the address that AsLSM wrote.
pub from_lsm-as_lsm : (a : Address) → IsAddress a → from_lsm (as_lsm a) ≡ a
unfolding from_lsm as_lsm put_be
from_lsm-as_lsm a h = λ i. record {
  element_id = element_id_of-put a.element_id (put_uid a.edit_id []) h.0 i;
  edit_id = read_uid a.edit_id h.1 i;
}

put_uid_compare :
    (a b : Uid) (xs ys : List ℕ)
    → IsUid a
    → IsUid b
    → bytes_compare (put_uid a xs) (put_uid b ys)
      ≡ then_compare (compare_to a b) (bytes_compare xs ys)
unfolding put_uid compare_to
put_uid_compare a b xs ys ha hb =
    bytes_compare-put_be 8 a.w0 b.w0 (put_be 8 a.w1 ++ xs) (put_be 8 b.w1 ++ ys) ha.0 hb.0
    ∙ ap (then_compare (compare a.w0 b.w0)) (bytes_compare-put_be 8 a.w1 b.w1 xs ys ha.1 hb.1)
    ∙ ground arith

-- The order of elements is that of their UIDs, the node first, then the attribute, then the item.
pub compare_element_id-uids :
    (a b : ElementId)
    → compare_element_id a b
      ≡ then_compare
          (compare_to a.node_id b.node_id)
          (then_compare (compare_to a.attr_id b.attr_id) (compare_to a.item_id b.item_id))
unfolding compare_element_id compare_to
compare_element_id-uids a b = ground arith

then_nothing : (o : Ordering) → then_compare o (bytes_compare [] []) ≡ o
unfolding bytes_compare
then_nothing Ordering.lt = refl
then_nothing Ordering.eq = refl
then_nothing Ordering.gt = refl

-- Element keys sort as bytes the way CompareElementID sorts the elements.
pub bytes_compare-element_lsm :
    (a b : ElementId)
    → IsElementId a
    → IsElementId b
    → bytes_compare (element_lsm a) (element_lsm b) ≡ compare_element_id a b
unfolding element_lsm
bytes_compare-element_lsm a b ha hb =
    put_uid_compare a.node_id b.node_id _ _ ha.0 hb.0
    ∙ ap (then_compare (compare_to a.node_id b.node_id)) (
        put_uid_compare a.attr_id b.attr_id _ _ ha.1 hb.1
        ∙ ap (then_compare (compare_to a.attr_id b.attr_id))
            (put_uid_compare a.item_id b.item_id [] [] ha.2 hb.2 ∙ then_nothing _))
    ∙ sym (compare_element_id-uids a b)
