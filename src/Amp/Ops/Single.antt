-- ===== src/Amp/Ops/Single.antt =====
-- read_op gives back one operation that appendOps wrote.
use amp_sdk.Base.{ℕ, zero, suc, ◌+◌, ◌%◌, ◌^◌, ◌≤◌, ◌<◌, ◌≡◌, ap, ◌∙◌, arith}
use amp_sdk.Base.{false, List, [], ◌∷◌, ◌++◌, some, length, drop, get_or, ltb, leb}
use amp_sdk.Base.{append_assoc, drop_step, drop_within, length-append}
use amp_sdk.Tag.Uid.{IsU64, u64, nil}
use amp_sdk.Tag.Address.Keys.{IsElementId}
use amp_sdk.Amp.Wire.{put_uvarint, uvarint}
use amp_sdk.Amp.Wire.Read.{done}
use amp_sdk.Amp.Wire.Uvarint.{uvarint-put_uvarint, put_uvarint-nonempty}
use amp_sdk.Amp.Ops.{TxOp, op_fields, changed_from, put_fields, put_op, read_fields, read_op}
use amp_sdk.Amp.Ops.Fields.{changed_from-differing, differing-lt, read_fields-put}

-- An operation in the ranges of its Go types.
abbrev pub IsOp : TxOp → Type 0
IsOp op =
    IsElementId op.addr.element_id
    × (op.flags < 2 ^ 8)
    × IsU64 op.logical
    × IsU64 op.data_ofs
    × IsU64 op.data_len

-- What the wire carries of an operation: all but its edit.
abbrev pub wire_op : TxOp → TxOp
wire_op op = record op { addr = record op.addr { edit_id = nil } }

number_at :
    (src : List ℕ) (p v : ℕ) (rest : List ℕ)
    → v < 2 ^ 64
    → drop p src ≡ put_uvarint v ++ rest
    → uvarint (drop p src) ≡ some (v, length (put_uvarint v))
number_at src p v rest hv h = ap uvarint h ∙ uvarint-put_uvarint v rest hv

get_or-drop : (src : List ℕ) (p x : ℕ) (rest : List ℕ) → drop p src ≡ x ∷ rest → get_or src p 0 ≡ x
get_or-drop [] zero x rest h = absurd (omega (arith, ap length h))
get_or-drop [] (suc p) x rest h = absurd (omega (arith, ap length h))
get_or-drop (y ∷ src) zero x rest h = ap (λ t. get_or t 0 0) h
get_or-drop (y ∷ src) (suc p) x rest h = get_or-drop src p x rest h

mask_lt : (prv : List ℕ) (op : TxOp) → changed_from 0 prv (op_fields op) < 2 ^ 64
mask_lt prv op =
    omega (arith, changed_from-differing 0 prv (op_fields op), differing-lt prv (op_fields op))

-- The parts of an operation on the wire, and the positions between them.
module _ (prv : List ℕ) (op : TxOp) (src : List ℕ) (p : ℕ) (rest : List ℕ) where
  abbrev has : ℕ
  has = changed_from 0 prv (op_fields op)

  abbrev fields : List ℕ
  fields = put_fields 0 has (op_fields op)

  abbrev from_mask : List ℕ
  from_mask = put_uvarint has ++ (fields ++ rest)

  abbrev from_skip : List ℕ
  from_skip = put_uvarint 0 ++ from_mask

  abbrev from_len : List ℕ
  from_len = put_uvarint op.data_len ++ from_skip

  abbrev from_ofs : List ℕ
  from_ofs = put_uvarint op.data_ofs ++ from_len

  abbrev from_logical : List ℕ
  from_logical = put_uvarint op.logical ++ from_ofs

  spell : put_op prv op ++ rest ≡ op.flags % 2 ^ 8 ∷ from_logical
  unfolding put_op
  spell =
      ap (λ t. op.flags % 2 ^ 8 ∷ t)
        (append_assoc (put_uvarint op.logical) _ rest
          ∙ ap (λ t. put_uvarint op.logical ++ t)
              (append_assoc (put_uvarint op.data_ofs) _ rest
                ∙ ap (λ t. put_uvarint op.data_ofs ++ t)
                    (append_assoc (put_uvarint op.data_len) _ rest
                      ∙ ap (λ t. put_uvarint op.data_len ++ t)
                          (append_assoc (put_uvarint 0) _ rest
                            ∙ ap (λ t. put_uvarint 0 ++ t)
                                (append_assoc (put_uvarint has) fields rest)))))

  pub read_op-put :
      IsOp op
      → length prv ≡ 16
      → length src < 2 ^ 63
      → drop p src ≡ put_op prv op ++ rest
      → read_op src prv p ≡ done (wire_op op, op_fields op, p + length (put_op prv op))
  unfolding read_op
  read_op-put valid slots small h =
      rw (n1, n2, n3, n4, q_fits, wild, far, n5, fields_read, flags)
        (ap (λ (t : ℕ). done (wire_op op, op_fields op, t)) size)
    where
      d0 : drop p src ≡ op.flags % 2 ^ 8 ∷ from_logical
      d0 = h ∙ spell

      d1 : drop (p + 1) src ≡ from_logical
      d1 = drop_step p src (op.flags % 2 ^ 8 ∷ []) from_logical d0

      n1 : uvarint (drop (p + 1) src) ≡ some (op.logical, length (put_uvarint op.logical))
      n1 = number_at src (p + 1) op.logical from_ofs valid.2 d1

      p2 : ℕ
      p2 = p + 1 + length (put_uvarint op.logical)

      d2 : drop p2 src ≡ from_ofs
      d2 = drop_step (p + 1) src (put_uvarint op.logical) from_ofs d1

      n2 : uvarint (drop p2 src) ≡ some (op.data_ofs, length (put_uvarint op.data_ofs))
      n2 = number_at src p2 op.data_ofs from_len valid.3 d2

      p3 : ℕ
      p3 = p2 + length (put_uvarint op.data_ofs)

      d3 : drop p3 src ≡ from_len
      d3 = drop_step p2 src (put_uvarint op.data_ofs) from_len d2

      n3 : uvarint (drop p3 src) ≡ some (op.data_len, length (put_uvarint op.data_len))
      n3 = number_at src p3 op.data_len from_skip valid.4 d3

      p4 : ℕ
      p4 = p3 + length (put_uvarint op.data_len)

      d4 : drop p4 src ≡ from_skip
      d4 = drop_step p3 src (put_uvarint op.data_len) from_skip d3

      n4 : uvarint (drop p4 src) ≡ some (0, length (put_uvarint 0))
      n4 = number_at src p4 0 from_mask (omega arith) d4

      p5 : ℕ
      p5 = p4 + length (put_uvarint 0)

      d5 : drop p5 src ≡ from_mask
      d5 = drop_step p4 src (put_uvarint 0) from_mask d4

      inside : p5 ≤ length src
      inside =
          omega (arith, drop_within p4 src (put_uvarint 0) from_mask (put_uvarint-nonempty 0) d4)

      q_fits : u64 (p5 + 0) ≡ p5
      q_fits = omega (arith, inside)

      wild : leb (2 ^ 63) p5 ≡ false
      wild = ground (arith, inside)

      far : ltb (length src) p5 ≡ false
      far = ground (arith, inside)

      n5 : uvarint (drop p5 src) ≡ some (has, length (put_uvarint has))
      n5 = number_at src p5 has (fields ++ rest) (mask_lt prv op) d5

      p6 : ℕ
      p6 = p5 + length (put_uvarint has)

      d6 : drop p6 src ≡ fields ++ rest
      d6 = drop_step p5 src (put_uvarint has) (fields ++ rest) d5

      fields_read : read_fields 0 has prv src p6 ≡ done (op_fields op, p6 + length fields)
      fields_read =
          read_fields-put 0 has prv (op_fields op) src p6 rest slots (omega arith)
            (omega (arith, changed_from-differing 0 prv (op_fields op))) d6

      flags : get_or src p 0 ≡ op.flags
      flags = get_or-drop src p (op.flags % 2 ^ 8) from_logical d0 ∙ omega arith

      size : p6 + length fields ≡ p + length (put_op prv op)
      size = omega (
        arith,
        drop_within p src (op.flags % 2 ^ 8 ∷ []) from_logical (omega arith) d0,
        drop_within p5 src (put_uvarint has) (fields ++ rest) (put_uvarint-nonempty has) d5,
        length-append fields rest,
        length-append (put_op prv op) rest,
        ap length spell,
      )
