-- ===== src/Tag/Address/Order.antt =====
-- Compare puts addresses in a total order: by element, and the newest edit of an element first.
use amp_sdk.Base.{ℕ, ◌+◌, ◌-◌, ◌*◌, ◌^◌, ◌<◌, ◌≡◌, refl, sym, ap₂, ◌∙◌, arith}
use amp_sdk.Base.Bytes.{compare_digits, then_compare}
use amp_sdk.Tag.Uid.{Uid, IsUid, value, compare_to}
use amp_sdk.Tag.Uid.Arith.{compare_to-value, uid_eq}
use amp_sdk.Tag.Address.{ElementId, Address, compare_element_id, compare_edit, compare_address}
use amp_sdk.Tag.Address.Keys.{IsElementId, IsAddress, compare_element_id-uids}
use Prim.Native.Nat.{compare, Ordering}

-- One number for an address: the element's UIDs, then the edit counted down from the largest.
abbrev pub element_key : ElementId → ℕ
element_key e = 2 ^ 128 * (2 ^ 128 * value e.node_id + value e.attr_id) + value e.item_id

abbrev pub address_key : Address → ℕ
address_key a = 2 ^ 128 * element_key a.element_id + (2 ^ 128 - 1 - value a.edit_id)

value-lt : (a : Uid) → IsUid a → value a < 2 ^ 128
value-lt a h = omega arith

then_assoc :
    (o p q : Ordering) → then_compare o (then_compare p q) ≡ then_compare (then_compare o p) q
then_assoc Ordering.lt p q = refl
then_assoc Ordering.eq p q = refl
then_assoc Ordering.gt p q = refl

pub compare_element_id-key :
    (a b : ElementId)
    → IsElementId a
    → IsElementId b
    → compare_element_id a b ≡ compare (element_key a) (element_key b)
compare_element_id-key a b ha hb =
    compare_element_id-uids a b
    ∙ then_assoc (compare_to a.node_id b.node_id) (compare_to a.attr_id b.attr_id)
        (compare_to a.item_id b.item_id)
    ∙ ap₂ then_compare
        (ap₂ then_compare (compare_to-value _ _ ha.0 hb.0) (compare_to-value _ _ ha.1 hb.1)
          ∙ sym (compare_digits (2 ^ 128) _ _ _ _ (value-lt _ ha.1) (value-lt _ hb.1)))
        (compare_to-value _ _ ha.2 hb.2)
    ∙ sym (compare_digits (2 ^ 128) _ _ _ _ (value-lt _ ha.2) (value-lt _ hb.2))

compare_edit-value :
    (a b : Uid)
    → IsUid a
    → IsUid b
    → compare_edit a b ≡ compare (2 ^ 128 - 1 - value a) (2 ^ 128 - 1 - value b)
unfolding compare_edit
compare_edit-value a b ha hb = ground arith

compare_address-then :
    (a b : Address)
    → compare_address a b
      ≡ then_compare
          (compare_element_id a.element_id b.element_id)
          (compare_edit a.edit_id b.edit_id)
unfolding compare_address
compare_address-then a b = ground arith

-- Compare is the order of the keys, so it is a total order.
pub compare_address-key :
    (a b : Address)
    → IsAddress a
    → IsAddress b
    → compare_address a b ≡ compare (address_key a) (address_key b)
compare_address-key a b ha hb =
    compare_address-then a b
    ∙ ap₂ then_compare (compare_element_id-key _ _ ha.0 hb.0) (compare_edit-value _ _ ha.1 hb.1)
    ∙ sym (compare_digits (2 ^ 128) _ _ _ _ (omega arith) (omega arith))

-- Addresses with one key are one address.
pub address_key-eq :
    (a b : Address) → IsAddress a → IsAddress b → address_key a ≡ address_key b → a ≡ b
address_key-eq a b ha hb h = λ i. record {
  element_id = record {
    node_id = uid_eq _ _ ha.0.0 hb.0.0 (omega arith) i;
    attr_id = uid_eq _ _ ha.0.1 hb.0.1 (omega arith) i;
    item_id = uid_eq _ _ ha.0.2 hb.0.2 (omega arith) i;
  };
  edit_id = uid_eq _ _ ha.1 hb.1 (omega arith) i;
}
