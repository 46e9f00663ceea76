-- ===== src/Tag/Address.antt =====
-- stdlib/tag/tag.address.go: CRDT addresses, their order, and their byte keys for an LSM store.
pub mod Keys
pub mod Order
pub mod Step
pub mod Fields
use amp_sdk.Base.{ℕ, zero, suc, ◌+◌, ◌-◌, ◌*◌, ◌≡◌, Bool, true, false, ltb, if◌then◌else◌}
use amp_sdk.Base.{List, [], ◌++◌, length, take, drop, get_or, set}
use amp_sdk.Base.Bytes.{put_be, be_value}
use amp_sdk.Tag.Uid.{Uid}
use Prim.Native.Nat.{Ordering}
use Prim.Native.Nat.Ordering.{lt, eq, gt}

pub record ElementId : Type 0 where
  pub node_id : Uid
  pub attr_id : Uid
  pub item_id : Uid

pub record Address : Type 0 where
  pub element_id : ElementId
  pub edit_id : Uid

-- UID_Size
abbrev pub uid_size : ℕ
uid_size = 16

-- The two big-endian words of a UID, before the bytes that follow it.
unfoldable pub put_uid : Uid → List ℕ → List ℕ
put_uid id rest = put_be 8 id.w0 ++ (put_be 8 id.w1 ++ rest)

-- `putElementLSM` and `ElementLSM.Set` fill 48 bytes; `ElementLSM` returns them.
unfoldable pub put_element_lsm : ElementId → List ℕ → List ℕ
unfolding put_uid
put_element_lsm e rest = put_uid e.node_id (put_uid e.attr_id (put_uid e.item_id rest))

unfoldable pub element_lsm : ElementId → List ℕ
unfolding put_element_lsm
element_lsm e = put_element_lsm e []

unfoldable pub as_lsm : Address → List ℕ
unfolding put_element_lsm put_uid
as_lsm addr = put_element_lsm addr.element_id (put_uid addr.edit_id [])

-- The UID in 16 bytes from `ofs` on.
unfoldable pub uid_at : List ℕ → ℕ → Uid
uid_at lsm ofs = record {
  w0 = be_value (take 8 (drop ofs lsm));
  w1 = be_value (take 8 (drop (ofs + 8) lsm));
}

-- `ElementLSM.ElementID`, and `NodeID`, `AttrID`, `ItemID` for its parts.
unfoldable pub element_id_of : List ℕ → ElementId
unfolding uid_at
element_id_of lsm = record {
  node_id = uid_at lsm 0;
  attr_id = uid_at lsm uid_size;
  item_id = uid_at lsm (2 * uid_size);
}

unfoldable pub from_lsm : List ℕ → Address
unfolding element_id_of uid_at
from_lsm lsm = record { element_id = element_id_of lsm; edit_id = uid_at lsm (3 * uid_size) }

compare_word : ℕ → ℕ → Ordering → Ordering
compare_word a b rest = if ltb a b then lt else if ltb b a then gt else rest

-- The results -1, 0 and 1 are lt, eq and gt.
unfoldable pub compare_element_id : ElementId → ElementId → Ordering
unfolding compare_word
compare_element_id addr oth = compare_word addr.node_id.w0 oth.node_id.w0 (
    compare_word addr.node_id.w1 oth.node_id.w1 (
      compare_word addr.attr_id.w0 oth.attr_id.w0 (
        compare_word addr.attr_id.w1 oth.attr_id.w1 (
          compare_word addr.item_id.w0 oth.item_id.w0
            (compare_word addr.item_id.w1 oth.item_id.w1 eq)))))

-- The newest edit of an element comes first.
compare_edit : Uid → Uid → Ordering
unfolding compare_word
compare_edit edit oth =
    if ltb oth.w0 edit.w0
    then lt
    else if ltb edit.w0 oth.w0
    then gt
    else if ltb oth.w1 edit.w1
    then lt
    else if ltb edit.w1 oth.w1
    then gt
    else eq

unfoldable pub compare_address : Address → Address → Ordering
unfolding compare_edit
compare_address addr oth = elim (compare_element_id addr.element_id oth.element_id) [
  | eq ↦ compare_edit addr.edit_id oth.edit_id
  | diff ↦ diff
]

-- `increment`: from the least significant byte up, add 1 until there is no carry.
unfoldable pub increment_bytes : ℕ → ℕ → List ℕ → List ℕ × Bool
increment_bytes offset zero lsm = (lsm, false)
increment_bytes offset (suc j) lsm =
    let carried = increment_bytes offset j (set lsm (offset + j) 0) in
    if ltb (get_or lsm (offset + j) 0) 0xFF
    then (set lsm (offset + j) (get_or lsm (offset + j) 0 + 1), true)
    else carried

-- `decrement`: subtract 1 until there is no borrow.
unfoldable pub decrement_bytes : ℕ → ℕ → List ℕ → List ℕ × Bool
decrement_bytes offset zero lsm = (lsm, false)
decrement_bytes offset (suc j) lsm =
    let borrowed = decrement_bytes offset j (set lsm (offset + j) 0xFF) in
    if ltb 0 (get_or lsm (offset + j) 0)
    then (set lsm (offset + j) (get_or lsm (offset + j) 0 - 1), true)
    else borrowed

unfoldable pub increment_node_id : List ℕ → List ℕ × Bool
increment_node_id lsm = increment_bytes 0 uid_size lsm

unfoldable pub increment_attr_id : List ℕ → List ℕ × Bool
increment_attr_id lsm = increment_bytes uid_size uid_size lsm

unfoldable pub increment_item_id : List ℕ → List ℕ × Bool
increment_item_id lsm = increment_bytes (2 * uid_size) uid_size lsm

unfoldable pub decrement_node_id : List ℕ → List ℕ × Bool
decrement_node_id lsm = decrement_bytes 0 uid_size lsm

unfoldable pub decrement_attr_id : List ℕ → List ℕ × Bool
decrement_attr_id lsm = decrement_bytes uid_size uid_size lsm

unfoldable pub decrement_item_id : List ℕ → List ℕ × Bool
decrement_item_id lsm = decrement_bytes (2 * uid_size) uid_size lsm

-- `SetNodeID`, `SetAttrID`, `SetItemID` write 16 bytes in place, at 0, 16 and 32.
unfoldable pub set_uid_at : List ℕ → ℕ → Uid → List ℕ
unfolding put_uid
set_uid_at lsm ofs id = take ofs lsm ++ put_uid id (drop (ofs + uid_size) lsm)
