-- ===== src/Amp/Ops.antt =====
-- amp/amp.support.tx.go: the delta-compressed operations of a transaction, appendOps and readOps.
pub mod Fields
pub mod Single
pub mod RoundTrip
pub mod Skips
use amp_sdk.Base.{ℕ, zero, suc, ◌+◌, ◌-◌, ◌*◌, ◌%◌, ◌^◌, bit_and, bit_or, Bool, true, false}
use amp_sdk.Base.{
  List, [], ◌∷◌, ◌++◌, Option, none, some, length, take, drop, get_or, ltb, leb, ◌==◌,
  if◌then◌else◌,
}
use amp_sdk.Base.Bytes.{put_be, be_value}
use amp_sdk.Tag.Uid.{u64, nil}
use amp_sdk.Tag.Address.{Address}
use amp_sdk.Amp.Wire.{Read, put_uvarint, uvarint, after_uvarint, after_read}
use amp_sdk.Amp.Wire.Read.{done, malformed, panics, unfinished}

pub record TxOp : Type 0 where
  pub addr : Address
  pub flags : ℕ
  pub logical : ℕ
  pub data_ofs : ℕ
  pub data_len : ℕ

-- The slots of TxField: the words of the item, the attribute and the node, then ten that are not used.
abbrev pub op_fields : TxOp → List ℕ
op_fields op =
    op.addr.element_id.item_id.w0 ∷ op.addr.element_id.item_id.w1 ∷ op.addr.element_id.attr_id.w0
    ∷ op.addr.element_id.attr_id.w1 ∷ op.addr.element_id.node_id.w0 ∷ op.addr.element_id.node_id.w1
    ∷ 0 ∷ 0 ∷ 0 ∷ 0 ∷ 0 ∷ 0 ∷ 0 ∷ 0 ∷ 0 ∷ 0 ∷ []

abbrev pub no_fields : List ℕ
no_fields = 0 ∷ 0 ∷ 0 ∷ 0 ∷ 0 ∷ 0 ∷ 0 ∷ 0 ∷ 0 ∷ 0 ∷ 0 ∷ 0 ∷ 0 ∷ 0 ∷ 0 ∷ 0 ∷ []

-- `hasFields`: a bit for each slot from `i` on that differs from the operation before.
unfoldable pub changed_from : ℕ → List ℕ → List ℕ → ℕ
changed_from i [] cur = 0
changed_from i (p ∷ prv) [] = 0
changed_from i (p ∷ prv) (c ∷ cur) =
    bit_or (changed_from (i + 1) prv cur) (if c == p then 0 else 2 ^ i)

unfoldable pub put_fields : ℕ → ℕ → List ℕ → List ℕ
put_fields i has [] = []
put_fields i has (c ∷ cur) =
    let rest = put_fields (i + 1) has cur in
    if bit_and has (2 ^ i) == 0 then rest else put_be 8 c ++ rest

-- One round of the loop of `appendOps`; the fourth number is the count of bytes to skip.
unfoldable pub put_op : List ℕ → TxOp → List ℕ
put_op prv op =
    let has = changed_from 0 prv (op_fields op) in
    op.flags % 2 ^ 8
    ∷ (put_uvarint op.logical
        ++ (put_uvarint op.data_ofs
            ++ (put_uvarint op.data_len
                ++ (put_uvarint 0 ++ (put_uvarint has ++ put_fields 0 has (op_fields op))))))

unfoldable pub put_ops : List ℕ → List TxOp → List ℕ
put_ops prv [] = []
put_ops prv (op ∷ ops) = put_op prv op ++ put_ops (op_fields op) ops

-- The length of the section goes in front of it, as 32 bits.
unfoldable pub append_ops : List ℕ → List TxOp → List ℕ
append_ops dst ops = let body = put_ops no_fields ops in dst ++ (put_be 4 (length body) ++ body)

abbrev pub cons_field : ℕ → Read (List ℕ × ℕ) → Read (List ℕ × ℕ)
cons_field c fields = after_read fields λ f. done (c ∷ f.0, f.1)

-- The slots from `i` on: those in `has` are read, the others stay as they were.
unfoldable pub read_fields : ℕ → ℕ → List ℕ → List ℕ → ℕ → Read (List ℕ × ℕ)
read_fields i has [] src p = done ([], p)
read_fields i has (c ∷ cur) src p =
    let keep = read_fields (i + 1) has cur src p in
    let fresh = read_fields (i + 1) has cur src (p + 8) in
    if bit_and has (2 ^ i) == 0
    then cons_field c keep
    else if ltb (length src) (p + 8)
    then malformed
    else cons_field (be_value (take 8 (drop p src))) fresh

-- `p += n + int(skip)`, as the 64-bit pattern of the sum: a negative position passes the guard and then
-- slices out of range.
abbrev pub after_skip : {A : Type 0} → List ℕ → ℕ → (ℕ → Read A) → Read A
after_skip src q k =
    if leb (2 ^ 63) q then panics else if ltb (length src) q then malformed else k q

abbrev pub op_of_fields : ℕ → ℕ → ℕ → ℕ → List ℕ → TxOp
op_of_fields flags logical data_ofs data_len cur = record {
  addr = record {
    element_id = record {
      node_id = record { w0 = get_or cur 4 0; w1 = get_or cur 5 0 };
      attr_id = record { w0 = get_or cur 2 0; w1 = get_or cur 3 0 };
      item_id = record { w0 = get_or cur 0 0; w1 = get_or cur 1 0 };
    };
    edit_id = nil;
  };
  flags = flags;
  logical = logical;
  data_ofs = data_ofs;
  data_len = data_len;
}

-- One round of the loop of `readOps`: the operation, the slots and the position behind it.
unfoldable pub read_op : List ℕ → List ℕ → ℕ → Read (TxOp × List ℕ × ℕ)
read_op src cur p = after_uvarint (uvarint (drop (p + 1) src)) λ logical n1.
    after_uvarint (uvarint (drop (p + 1 + n1) src)) λ data_ofs n2.
      after_uvarint (uvarint (drop (p + 1 + n1 + n2) src)) λ data_len n3.
        after_uvarint (uvarint (drop (p + 1 + n1 + n2 + n3) src)) λ skip n4.
          after_skip src (u64 (p + 1 + n1 + n2 + n3 + n4 + skip)) λ q.
            after_uvarint (uvarint (drop q src)) λ has n5.
              after_read (read_fields 0 has cur src (q + n5)) λ fields. done (
                op_of_fields (get_or src p 0) logical data_ofs data_len fields.0,
                fields.0,
                fields.1,
              )

abbrev pub cons_op : TxOp → Read (List TxOp) → Read (List TxOp)
cons_op op ops = after_read ops λ rest. done (op ∷ rest)

unfoldable pub read_ops : ℕ → List ℕ → List ℕ → ℕ → Read (List TxOp)
read_ops zero src cur p = unfinished
read_ops (suc fuel) src cur p =
    if ltb p (length src)
    then after_read (read_op src cur p) (λ r. cons_op r.0 (read_ops fuel src r.1 r.2))
    else done []

-- The operations of the section at `p`, and the position behind it. The fuel is a round for each byte
-- of the section, and one for its end.
unfoldable pub read_ops_section : List ℕ → ℕ → Read (List TxOp × ℕ)
read_ops_section src p =
    let ops_len = be_value (take 4 (drop p src)) in
    if ltb (length src) (p + 4)
    then malformed
    else if ltb (length src - (p + 4)) ops_len
    then malformed
    else after_read (read_ops (ops_len + 1) (take ops_len (drop (p + 4) src)) no_fields 0)
        λ ops. done (ops, p + 4 + ops_len)
