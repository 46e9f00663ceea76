-- ===== src/Tag/Address/Fields.antt =====
-- IncrementNodeID and its kin on the key of an element: the UID moves by one, the others stay.
use amp_sdk.Base.{ℕ, ◌+◌, ◌-◌, ◌^◌, ◌≡◌, refl, sym, ap, ◌∙◌, arith}
use amp_sdk.Base.{
  Bool, List, [], ◌++◌, length, ltb, if◌then◌else◌, append_assoc, Bool-cases, inl, inr,
}
use amp_sdk.Base.Bytes.{put_be, put_be-append}
use amp_sdk.Tag.Uid.{Uid, IsUid, value, add, subtract}
use amp_sdk.Tag.Uid.Arith.{value-add, value-subtract}
use amp_sdk.Tag.Address.{
  ElementId, put_uid, element_lsm, increment_bytes, decrement_bytes, increment_node_id,
  increment_attr_id, increment_item_id, decrement_node_id, decrement_attr_id, decrement_item_id,
}
use amp_sdk.Tag.Address.Keys.{IsElementId}
use amp_sdk.Tag.Address.Step.{increment_word, decrement_word}

abbrev pub one : Uid
one = record { w0 = 0; w1 = 1 }

put_uid-value :
    (id : Uid) (rest : List ℕ) → IsUid id → put_uid id rest ≡ put_be 16 (value id) ++ rest
unfolding put_uid
put_uid-value id rest h =
    sym (append_assoc (put_be 8 id.w0) (put_be 8 id.w1) rest)
    ∙ ap (λ (t : List ℕ). t ++ rest) (sym (put_be-append 8 8 id.w0 id.w1 h.1))

all_ones : put_be 16 (2 ^ 128) ≡ put_be 16 0
unfolding put_be
all_ones = refl

next_word : (id : Uid) → IsUid id → put_be 16 (value id + 1) ≡ put_be 16 (value (add id one))
next_word id h = elim (Bool-cases (ltb (value id + 1) (2 ^ 128))) [
  | inl room ↦ ap (put_be 16) (ground (arith, value-add id one h (omega arith)))
  | inr full ↦
      ap (put_be 16) (ground arith)
      ∙ all_ones
      ∙ ap (put_be 16) (ground (arith, value-add id one h (omega arith)))
]

previous_word :
    (id : Uid)
    → IsUid id
    → (if ltb 0 (value id) then value id - 1 else 256 ^ 16 - 1) ≡ value (subtract id one)
previous_word id h = ground (arith, value-subtract id one h (omega arith))

abbrev pair : List ℕ → Bool → List ℕ × Bool
pair l b = (l, b)

module _ (pre rest : List ℕ) (id : Uid) (h : IsUid id) where
  increment_uid :
      increment_bytes (length pre) 16 (pre ++ put_uid id rest)
      ≡ (pre ++ put_uid (add id one) rest, ltb (value id + 1) (2 ^ 128))
  increment_uid =
      ap (λ (t : List ℕ). increment_bytes (length pre) 16 (pre ++ t)) (put_uid-value id rest h)
      ∙ increment_word pre rest 16 (value id) (omega arith)
      ∙ ap (λ (t : List ℕ). pair (pre ++ t) (ltb (value id + 1) (2 ^ 128)))
          (ap (λ (t : List ℕ). t ++ rest) (next_word id h)
            ∙ sym (put_uid-value (add id one) rest (unfold add in omega arith)))

  decrement_uid :
      decrement_bytes (length pre) 16 (pre ++ put_uid id rest)
      ≡ (pre ++ put_uid (subtract id one) rest, ltb 0 (value id))
  decrement_uid =
      ap (λ (t : List ℕ). decrement_bytes (length pre) 16 (pre ++ t)) (put_uid-value id rest h)
      ∙ decrement_word pre rest 16 (value id) (omega arith)
      ∙ ap (λ (t : List ℕ). pair (pre ++ t) (ltb 0 (value id)))
          (ap (λ (t : ℕ). put_be 16 t ++ rest) (previous_word id h)
            ∙ sym (put_uid-value (subtract id one) rest (unfold subtract in omega arith)))

-- Each increment adds one to its UID in the element's key, wrapping around to zero with the answer
-- false, and leaves the other two UIDs as they are.
pub increment_ids :
    (e : ElementId)
    → IsElementId e
    → (increment_node_id (element_lsm e) ≡ (
      element_lsm (record e { node_id = add e.node_id one }),
      ltb (value e.node_id + 1) (2 ^ 128),
    ))
      × (increment_attr_id (element_lsm e) ≡ (
        element_lsm (record e { attr_id = add e.attr_id one }),
        ltb (value e.attr_id + 1) (2 ^ 128),
      ))
      × (increment_item_id (element_lsm e) ≡ (
        element_lsm (record e { item_id = add e.item_id one }),
        ltb (value e.item_id + 1) (2 ^ 128),
      ))
unfolding increment_node_id increment_attr_id increment_item_id element_lsm put_be
increment_ids e h = (
  increment_uid [] (put_uid e.attr_id (put_uid e.item_id [])) e.node_id h.0,
  increment_uid (put_uid e.node_id []) (put_uid e.item_id []) e.attr_id h.1,
  increment_uid (put_uid e.node_id (put_uid e.attr_id [])) [] e.item_id h.2,
)

-- Each decrement subtracts one from its UID in the element's key, wrapping around from zero with the
-- answer false, and leaves the other two UIDs as they are.
pub decrement_ids :
    (e : ElementId)
    → IsElementId e
    → (decrement_node_id (element_lsm e)
        ≡ (element_lsm (record e { node_id = subtract e.node_id one }), ltb 0 (value e.node_id)))
      × (decrement_attr_id (element_lsm e)
          ≡ (element_lsm (record e { attr_id = subtract e.attr_id one }), ltb 0 (value e.attr_id)))
      × (decrement_item_id (element_lsm e)
          ≡ (element_lsm (record e { item_id = subtract e.item_id one }), ltb 0 (value e.item_id)))
unfolding decrement_node_id decrement_attr_id decrement_item_id element_lsm put_be
decrement_ids e h = (
  decrement_uid [] (put_uid e.attr_id (put_uid e.item_id [])) e.node_id h.0,
  decrement_uid (put_uid e.node_id []) (put_uid e.item_id []) e.attr_id h.1,
  decrement_uid (put_uid e.node_id (put_uid e.attr_id [])) [] e.item_id h.2,
)
