-- ===== src/Amp/Tx.antt =====
-- amp/amp.support.tx.go: a transaction with its operations and its data store.
pub mod Values
pub mod Sorting
pub mod Order
pub mod Edits
pub mod Signature
mod Tests
use amp_sdk.Base.{
  ℕ, zero, suc, ◌+◌, ◌-◌, ◌*◌, ◌%◌, ◌^◌, bit_and, Bool, true, false, not, ◌&&◌, ◌||◌,
}
use amp_sdk.Base.{
  List, [], ◌∷◌, ◌++◌, Option, none, some, length, get_elem?, get_or, take, drop, map, ltb, leb,
  ◌==◌, if◌then◌else◌,
}
use amp_sdk.Base.Bytes.{put_be, be_value}
use amp_sdk.Base.Int.{ℤ, pos, negsuc}
use amp_sdk.Tag.Uid.{Uid, u64, is_nil}
use amp_sdk.Tag.Address.{Address, uid_size, uid_at, compare_address}
use amp_sdk.Tag.Rank.{is_before}
use amp_sdk.Amp.Ops.{TxOp}
use Prim.Native.Nat.{Ordering}
use Prim.Native.Nat.Ordering.{lt, eq, gt}

-- The errors of package status that this file returns.
pub data TxError : Type 0 where
  malformed_tx : TxError
  bad_tx_op : TxError
  bad_tx_edit : TxError
  bad_value : TxError
  bad_signature_length : TxError
  attr_not_found : TxError

pub data Result (A : Type 0) : Type 0 where
  ok : A → Result A
  fail : TxError → Result A

-- The parts of a TxMsg that these operations read and write.
pub record TxMsg : Type 0 where
  pub tx_id : Uid
  pub from_id : Uid
  pub ops : List TxOp
  pub data_store : List ℕ
  pub normalized : Bool

-- The loop over the lower nibble of a value header, from bit `i` on.
unfoldable pub skip_inline : ℕ → ℕ → ℕ → ℕ → ℕ
skip_inline zero i header ofs = ofs
skip_inline (suc left) i header ofs =
    skip_inline left (i + 1) header (if bit_and header (2 ^ i) == 0 then ofs else ofs + uid_size)

-- The part of `OpValueBytes` behind the look-up of the operation.
unfoldable pub value_bytes : List ℕ → TxOp → Result (List ℕ)
value_bytes store op =
    let end = u64 (op.data_ofs + op.data_len) in
    let ofs = skip_inline 4 0 (get_or store op.data_ofs 0) (op.data_ofs + 1) in
    if ltb op.data_len 1 || ltb end op.data_ofs || ltb (length store) end
    then fail bad_tx_op
    else if ltb end ofs
    then fail bad_tx_op
    else ok (take (end - ofs) (drop ofs store))

abbrev pub value_of_found : List ℕ → Option TxOp → Result (List ℕ)
value_of_found store none = fail malformed_tx
value_of_found store (some op) = value_bytes store op

unfoldable pub op_value_bytes : TxMsg → ℤ → Result (List ℕ)
op_value_bytes tx (negsuc n) = fail malformed_tx
op_value_bytes tx (pos i) = value_of_found tx.data_store (get_elem? tx.ops i)

-- `MarshalOp`. The value is what `checkTagSyntax` and `proto.Marshal` make of it: no value, an error, or
-- its bytes. The header is the flag for the author, 1, and the author.
unfoldable pub marshal_value : TxMsg → TxOp → List ℕ → TxMsg
marshal_value tx op content =
    let start = length tx.data_store in
    let ds =
      tx.data_store ++ (1 ∷ (put_be 8 tx.from_id.w0 ++ (put_be 8 tx.from_id.w1 ++ content))) in
    record tx {
      ops =
          tx.ops
          ++ (record op {
            addr = record op.addr { edit_id = tx.tx_id };
            data_ofs = start;
            data_len = length ds - start;
          }
              ∷ []);
      data_store = ds;
      normalized = false;
    }

unfoldable pub marshal_op : TxMsg → TxOp → Option (Option (List ℕ)) → Result TxMsg
marshal_op tx op none = ok (marshal_value tx op [])
marshal_op tx op (some none) = fail bad_value
marshal_op tx op (some (some content)) = ok (marshal_value tx op content)

unfoldable pub marshal_op_and_data : TxMsg → TxOp → List ℕ → TxMsg
marshal_op_and_data tx op value = record tx {
  ops = tx.ops ++ (record op { data_ofs = length tx.data_store; data_len = length value } ∷ []);
  data_store = tx.data_store ++ value;
  normalized = false;
}

-- The first loop of `Normalize`: the first operation that is refused.
unfoldable pub check_ops : ℕ → List TxOp → Option TxError
check_ops store_len [] = none
check_ops store_len (op ∷ ops) =
    let rest = check_ops store_len ops in
    let span_end = u64 (op.data_ofs + op.data_len) in
    if is_nil op.addr.edit_id
    then some bad_tx_edit
    else if ltb span_end op.data_ofs || ltb store_len span_end
    then some bad_tx_op
    else rest

-- `sort.Slice` by address.
unfoldable pub insert_op : TxOp → List TxOp → List TxOp
insert_op op [] = op ∷ []
insert_op op (x ∷ xs) =
    let later = insert_op op xs in
    if is_before (compare_address op.addr x.addr) then op ∷ x ∷ xs else x ∷ later

unfoldable pub sort_ops : List TxOp → List TxOp
sort_ops [] = []
sort_ops (op ∷ ops) = insert_op op (sort_ops ops)

abbrev pub is_equal : Ordering → Bool
is_equal lt = false
is_equal eq = true
is_equal gt = false

-- Whether two neighbours have one address.
unfoldable pub has_duplicate_after : TxOp → List TxOp → Bool
has_duplicate_after op [] = false
has_duplicate_after op (x ∷ xs) =
    is_equal (compare_address op.addr x.addr) || has_duplicate_after x xs

unfoldable pub has_duplicate : List TxOp → Bool
has_duplicate [] = false
has_duplicate (op ∷ ops) = has_duplicate_after op ops

-- The part of `Normalize` behind its first loop, with the error that it returns. The operations stay
-- sorted where it refuses.
unfoldable pub sorted_tx : TxMsg → TxMsg × Option TxError
sorted_tx tx =
    let sorted = sort_ops tx.ops in
    if has_duplicate sorted
    then (record tx { ops = sorted }, some bad_tx_op)
    else (record tx { ops = sorted; normalized = true }, none)

abbrev pub after_check : Option TxError → TxMsg → TxMsg × Option TxError
after_check none tx = sorted_tx tx
after_check (some e) tx = (tx, some e)

unfoldable pub normalize : Bool → TxMsg → TxMsg × Option TxError
normalize force tx =
    if not force && tx.normalized
    then (tx, none)
    else after_check (check_ops (length tx.data_store) tx.ops) tx

-- One round of `reconstructEditIDs`: the envelope's TxID, or the one that the value header carries.
unfoldable pub edit_of : Uid → List ℕ → TxOp → Uid
edit_of tx_id store op =
    let flags = get_or store op.data_ofs 0 in
    let at_flag = u64 (op.data_ofs + 1) in
    let ofs = if bit_and flags 1 == 0 then at_flag else u64 (at_flag + uid_size) in
    let stop = u64 (ofs + uid_size) in
    if op.data_len == 0 || leb (length store) op.data_ofs
    then tx_id
    else if bit_and flags 2 == 0
    then tx_id
    else if ltb (u64 (op.data_ofs + op.data_len)) stop || ltb (length store) stop
    then tx_id
    else uid_at store ofs

unfoldable pub reconstruct_edit_ids : TxMsg → TxMsg
reconstruct_edit_ids tx = record tx {
  ops =
      map {A = TxOp} {B = TxOp}
        (λ op. record op { addr = record op.addr { edit_id = edit_of tx.tx_id tx.data_store op } })
        tx.ops;
}

-- TxPreambleSize
abbrev pub preamble_size : ℕ
preamble_size = 16

-- `TxSigOffset`
unfoldable pub tx_sig_offset : List ℕ → Result ℕ
tx_sig_offset raw =
    let sig_len = be_value (take 2 (drop 12 raw)) in
    if ltb (length raw) preamble_size
    then fail malformed_tx
    else if sig_len == 0 || ltb (length raw - preamble_size) sig_len
    then fail bad_signature_length
    else ok (length raw - sig_len)
