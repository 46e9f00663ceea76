-- ===== src/Amp/Tx/Values.antt =====
-- MarshalOp and OpValueBytes: the value of an operation comes back without its header.
use amp_sdk.Base.{ℕ, ◌+◌, ◌-◌, ◌^◌, ◌<◌, ◌≡◌, refl, sym, ap, ◌∙◌, arith, false, ◌||◌}
use amp_sdk.Base.{
  List, [], ◌∷◌, ◌++◌, append-nil, some, length, length-append, get_elem?, get_or, get_or-append,
  take, drop, take-append, drop-append, drop_step, ltb,
}
use amp_sdk.Base.Bytes.{put_be, length-put_be}
use amp_sdk.Base.Int.{pos}
use amp_sdk.Tag.Uid.{u64}
use amp_sdk.Amp.Ops.{TxOp}
use amp_sdk.Amp.Tx.{TxMsg, skip_inline, value_bytes, value_of_found, op_value_bytes, marshal_value}
use amp_sdk.Amp.Tx.Result.{ok}

pub get_elem?-last :
    {A : Type 0} (xs : List A) (x : A) → get_elem? (xs ++ x ∷ []) (length xs) ≡ some x
get_elem?-last [] x = refl
get_elem?-last (y ∷ xs) x = get_elem?-last xs x

-- An author's header is one flag and sixteen bytes.
author_header : (ofs : ℕ) → skip_inline 4 0 1 ofs ≡ ofs + 16
unfolding skip_inline
author_header ofs = refl

-- The header and the value behind `store`.
abbrev stored : TxMsg → List ℕ → List ℕ
stored tx content =
    tx.data_store ++ (1 ∷ (put_be 8 tx.from_id.w0 ++ (put_be 8 tx.from_id.w1 ++ content)))

module _ (tx : TxMsg) (content : List ℕ) where
  header_end : drop (length tx.data_store + 1 + 16) (stored tx content) ≡ content
  header_end =
      let n0 = length-put_be 8 tx.from_id.w0 in
      let n1 = length-put_be 8 tx.from_id.w1 in
      let e : length tx.data_store + 1 + 16
          ≡ length tx.data_store
            + 1
            + length (put_be 8 tx.from_id.w0)
            + length (put_be 8 tx.from_id.w1) =
        omega (arith, n0, n1) in
      ap (λ t. drop t (stored tx content)) e
      ∙ drop_step (length tx.data_store + 1 + length (put_be 8 tx.from_id.w0)) (stored tx content)
          (put_be 8 tx.from_id.w1) content
          (drop_step (length tx.data_store + 1) (stored tx content) (put_be 8 tx.from_id.w0) _ (
            drop_step (length tx.data_store) (stored tx content) (1 ∷ []) _
              (drop-append tx.data_store _)))

  stored_size : length (stored tx content) ≡ length tx.data_store + 17 + length content
  stored_size = omega (
    arith,
    length-put_be 8 tx.from_id.w0,
    length-put_be 8 tx.from_id.w1,
    length-append tx.data_store
        (1 ∷ (put_be 8 tx.from_id.w0 ++ (put_be 8 tx.from_id.w1 ++ content))),
    length-append (put_be 8 tx.from_id.w0) (put_be 8 tx.from_id.w1 ++ content),
    length-append (put_be 8 tx.from_id.w1) content,
  )

  value_bytes-stored :
      (op : TxOp)
      → op.data_ofs ≡ length tx.data_store
      → op.data_len ≡ 17 + length content
      → length tx.data_store + 17 + length content < 2 ^ 64
      → value_bytes (stored tx content) op ≡ ok content
  unfolding value_bytes
  value_bytes-stored op ho hl small =
      let n : ℕ = length tx.data_store in
      let m : ℕ = n + 17 + length content in
      let header : get_or (stored tx content) op.data_ofs 0 ≡ 1 =
        ap (λ t. get_or (stored tx content) t 0) ho ∙ get_or-append tx.data_store 1 _ 0 in
      let start : skip_inline 4 0 1 (op.data_ofs + 1) ≡ n + 1 + 16 =
        author_header (op.data_ofs + 1) ∙ omega arith in
      let stop : u64 (op.data_ofs + op.data_len) ≡ m = omega arith in
      let guard : (ltb op.data_len 1 || ltb m op.data_ofs || ltb (length (stored tx content)) m)
          ≡ false =
        ground (arith, stored_size) in
      let order : ltb m (n + 1 + 16) ≡ false = ground arith in
      let size : m - (n + 1 + 16) ≡ length content = omega arith in
      rw (header, start, stop, guard, order, header_end, size)
        (ap ok (ap (take (length content)) (sym (append-nil content)) ∙ take-append content []))

-- The value that MarshalOp appends is what OpValueBytes reads of the operation that it appends, header
-- and author left out.
pub op_value_bytes-marshal_value :
    (tx : TxMsg) (op : TxOp) (content : List ℕ)
    → length tx.data_store + 17 + length content < 2 ^ 64
    → op_value_bytes (marshal_value tx op content) (pos (length tx.ops)) ≡ ok content
unfolding op_value_bytes marshal_value
op_value_bytes-marshal_value tx op content small =
    ap (value_of_found (stored tx content)) (get_elem?-last tx.ops _)
    ∙ value_bytes-stored tx content _ refl (omega (arith, stored_size tx content)) small
