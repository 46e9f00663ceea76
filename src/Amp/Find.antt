-- ===== src/Amp/Find.antt =====
-- amp/amp.support.tx.go: the values of a transaction by their elements, and the operations that write
-- and delete one.
pub mod Search
pub mod Loads
pub mod Extract
mod Tests
use amp_sdk.Base.{
  ℕ, zero, suc, ◌+◌, ◌/◌, Bool, true, false, ◌&&◌, List, [], ◌∷◌, Option, none, some, length,
  get_elem?, ltb, leb, if◌then◌else◌,
}
use amp_sdk.Base.Bytes.{bytes_compare}
use amp_sdk.Tag.Uid.{Uid, nil, same_uid, is_wildcard}
use amp_sdk.Tag.Address.{ElementId, Address, element_lsm, compare_element_id}
use amp_sdk.Amp.Ops.{TxOp}
use amp_sdk.Amp.Tx.{TxMsg, Result, is_equal, value_bytes, normalize, marshal_op}
use amp_sdk.Amp.Tx.TxError.{attr_not_found}
use amp_sdk.Amp.Tx.Result.{fail}
use Prim.Native.Nat.{Ordering}
use Prim.Native.Nat.Ordering.{lt, eq, gt}

-- The loop of `ExtractValue`: the value, before it is unmarshalled, of the first operation on an
-- attribute and an item.
unfoldable pub extract_loop : List ℕ → Uid → Uid → List TxOp → Result (List ℕ)
extract_loop store attr item [] = fail attr_not_found
extract_loop store attr item (op ∷ ops) =
    let later = extract_loop store attr item ops in
    if same_uid op.addr.element_id.attr_id attr && same_uid op.addr.element_id.item_id item
    then value_bytes store op
    else later

unfoldable pub extract_value : TxMsg → Uid → Uid → Result (List ℕ)
extract_value tx attr item = extract_loop tx.data_store attr item tx.ops

abbrev pub is_after : Ordering → Bool
is_after lt = false
is_after eq = false
is_after gt = true

-- `sort.Find`: the half of the indices from `i` to `j` that is searched next, on fuel. It takes a
-- positive comparison to say that the target is behind `h`.
unfoldable pub find_loop : (ℕ → Ordering) → ℕ → ℕ → ℕ → ℕ
find_loop cmp zero i j = i
find_loop cmp (suc fuel) i j =
    let h = (i + j) / 2 in
    let right = find_loop cmp fuel (h + 1) j in
    let left = find_loop cmp fuel i h in
    if ltb i j then (if is_after (cmp h) then right else left) else i

unfoldable pub sort_find : ℕ → (ℕ → Ordering) → ℕ
sort_find n cmp = find_loop cmp n 0 n

-- The comparison that `LoadValue` searches with: the operation's element with the wanted one.
abbrev pub compare_found : ElementId → Option TxOp → Ordering
compare_found want none = eq
compare_found want (some op) = compare_element_id op.addr.element_id want

unfoldable pub compare_at : List TxOp → ElementId → ℕ → Ordering
compare_at ops want i = compare_found want (get_elem? ops i)

-- The loop of `LoadValue` for a wildcard item.
unfoldable pub first_of_attr : List ℕ → ElementId → List TxOp → Result (List ℕ)
first_of_attr store want [] = fail attr_not_found
first_of_attr store want (op ∷ ops) =
    let later = first_of_attr store want ops in
    if same_uid op.addr.element_id.node_id want.node_id
      && same_uid op.addr.element_id.attr_id want.attr_id
    then value_bytes store op
    else later

-- What `LoadValue` makes of the index that it finds.
unfoldable pub matching_value : List ℕ → ElementId → Option TxOp → Result (List ℕ)
matching_value store want none = fail attr_not_found
matching_value store want (some op) =
    if is_equal (bytes_compare (element_lsm op.addr.element_id) (element_lsm want))
    then value_bytes store op
    else fail attr_not_found

unfoldable pub load_normal : TxMsg → ElementId → Result (List ℕ)
load_normal tx want =
    if is_wildcard want.item_id
    then first_of_attr tx.data_store want tx.ops
    else matching_value tx.data_store want
        (get_elem? tx.ops (sort_find (length tx.ops) (compare_at tx.ops want)))

-- `LoadValue`, which goes on where `Normalize` returns an error: the value, and the transaction.
unfoldable pub load_value : TxMsg → Address → Result (List ℕ) × TxMsg
load_value tx want =
    let normal = (normalize false tx).0 in (load_normal normal want.element_id, normal)

-- TxOpFlags_Upsert and TxOpFlags_Delete.
abbrev pub upsert_flag : ℕ
upsert_flag = 4

abbrev pub delete_flag : ℕ
delete_flag = 8

abbrev pub op_on : ℕ → ElementId → TxOp
op_on flags element = record {
  addr = record { element_id = element; edit_id = nil };
  flags = flags;
  logical = 0;
  data_ofs = 0;
  data_len = 0;
}

unfoldable pub upsert : TxMsg → Uid → Uid → Uid → Option (Option (List ℕ)) → Result TxMsg
upsert tx node_id attr_id item_id val =
    marshal_op tx
      (op_on upsert_flag (record { node_id = node_id; attr_id = attr_id; item_id = item_id })) val

unfoldable pub delete : TxMsg → ElementId → Option (Option (List ℕ)) → Result TxMsg
delete tx elem_id val = marshal_op tx (op_on delete_flag elem_id) val
