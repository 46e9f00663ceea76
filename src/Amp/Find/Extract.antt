-- ===== src/Amp/Find/Extract.antt =====
-- ExtractValue behind Upsert.
use amp_sdk.Base.{ℕ, ◌+◌, ◌^◌, ◌<◌, ◌≡◌, refl, sym, ap, ◌∙◌}
use amp_sdk.Base.{Bool, true, false, ◌&&◌, List, [], ◌∷◌, ◌++◌, All, some, length}
use amp_sdk.Tag.Uid.{Uid, same_uid}
use amp_sdk.Tag.UidMap.{same_uid_refl}
use amp_sdk.Amp.Ops.{TxOp}
use amp_sdk.Amp.Tx.{TxMsg, value_bytes, value_of_found, op_value_bytes, marshal_value, marshal_op}
use amp_sdk.Amp.Tx.Result.{ok}
use amp_sdk.Amp.Tx.Values.{get_elem?-last, op_value_bytes-marshal_value}
use amp_sdk.Amp.Find.{extract_loop, extract_value, upsert, op_on, upsert_flag}

abbrev is_on : Uid → Uid → TxOp → Bool
is_on attr item op =
    same_uid op.addr.element_id.attr_id attr && same_uid op.addr.element_id.item_id item

-- An operation on another attribute or another item.
abbrev pub IsElsewhere : Uid → Uid → TxOp → Type 0
IsElsewhere attr item op = is_on attr item op ≡ false

extract_loop-last :
    (store : List ℕ) (attr item : Uid) (ops : List TxOp) (last : TxOp)
    → All (IsElsewhere attr item) ops
    → is_on attr item last ≡ true
    → extract_loop store attr item (ops ++ last ∷ []) ≡ value_bytes store last
unfolding extract_loop
extract_loop-last store attr item [] last others here = rw here refl
extract_loop-last store attr item (op ∷ ops) last others here =
    rw others.0 (extract_loop-last store attr item ops last others.1 here)

-- Upsert of a value that can be marshalled succeeds, and ExtractValue then finds the value, in a
-- transaction that has no earlier operation on the attribute and the item; the data store and the value
-- are shorter together than 2 ^ 64 - 17.
pub extract_value-upsert :
    (tx : TxMsg) (node attr item : Uid) (content : List ℕ)
    → All (IsElsewhere attr item) tx.ops
    → length tx.data_store + 17 + length content < 2 ^ 64
    → (out : TxMsg) × (upsert tx node attr item (some (some content)) ≡ ok out)
      × (extract_value out attr item ≡ ok content)
unfolding upsert marshal_op extract_value op_value_bytes marshal_value
extract_value-upsert tx node attr item content others small =
    let made : TxOp =
      op_on upsert_flag (record { node_id = node; attr_id = attr; item_id = item }) in
    let out : TxMsg = marshal_value tx made content in
    let here : is_on attr item made ≡ true = rw (same_uid_refl attr, same_uid_refl item) refl in
    (
      out,
      refl,
      extract_loop-last out.data_store attr item tx.ops _ others here
          ∙ sym (ap (value_of_found out.data_store) (get_elem?-last tx.ops _))
          ∙ op_value_bytes-marshal_value tx made content small,
    )
