-- ===== src/Amp/Ops/Skips.antt =====
-- A count of bytes to skip that wraps around: readOps goes back to bytes that it has read.
use amp_sdk.Base.{
  ℕ, zero, suc, ◌*◌, ◌-◌, ◌^◌, ◌<◌, ◌≡◌, refl, arith, List, ◌∷◌, some, length, bit_or, ltb, lt→ltb,
  true, false,
}
use amp_sdk.Tag.Uid.{u64}
use amp_sdk.Amp.Wire.{uvarint, uvarint_loop}
use amp_sdk.Amp.Wire.Read.{done, unfinished}
use amp_sdk.Amp.Ops.{TxOp, no_fields, read_fields, op_of_fields, read_op, read_ops}

-- An empty operation, and one with the flags, the logical time, the offset and the length, of which three
-- are one byte each, that skips 2 ^ 64 - 15 bytes, that is, back to the mask of the first.
abbrev pub skipping_back : ℕ → ℕ → ℕ → ℕ → List ℕ → List ℕ
skipping_back flags logical data_ofs data_len rest =
    0 ∷ 0 ∷ 0 ∷ 0 ∷ 0 ∷ 0 ∷ flags ∷ logical ∷ data_ofs ∷ data_len ∷ 0xF1 ∷ 0xFF ∷ 0xFF ∷ 0xFF ∷ 0xFF
    ∷ 0xFF ∷ 0xFF ∷ 0xFF ∷ 0xFF ∷ 1 ∷ rest

-- The number that one byte below 128 is read as.
abbrev number_of : ℕ → ℕ
number_of b = bit_or (u64 (b * 2 ^ 0)) 0

one_byte : (b : ℕ) (rest : List ℕ) → b < 128 → uvarint (b ∷ rest) ≡ some (number_of b, 1)
unfolding uvarint uvarint_loop
one_byte b rest h = rw (lt→ltb b 128 h) refl

stuck :
    (src cur : List ℕ) (p : ℕ) (op : TxOp) (fuel : ℕ)
    → ltb p (length src) ≡ true
    → read_op src cur p ≡ done (op, cur, p)
    → read_ops fuel src cur p ≡ unfinished
unfolding read_ops
stuck src cur p op zero hp h = refl
stuck src cur p op (suc fuel) hp h = rw (hp, h, stuck src cur p op fuel hp h) refl

module _ (flags logical data_ofs data_len : ℕ) (rest : List ℕ) where
  abbrev src : List ℕ
  src = skipping_back flags logical data_ofs data_len rest

  long : ltb (length src) 5 ≡ false
  long = ground arith

  first_round : read_op src no_fields 0 ≡ done (op_of_fields 0 0 0 0 no_fields, no_fields, 6)
  unfolding read_op uvarint uvarint_loop read_fields
  first_round = rw long refl

  second_round :
      logical < 128
      → data_ofs < 128
      → data_len < 128
      → (op : TxOp) × (read_op src no_fields 6 ≡ done (op, no_fields, 6))
  unfolding read_op read_fields
  second_round hl ho hd =
      let wrapped : uvarint
            (0xF1 ∷ 0xFF ∷ 0xFF ∷ 0xFF ∷ 0xFF ∷ 0xFF ∷ 0xFF ∷ 0xFF ∷ 0xFF ∷ 1 ∷ rest)
          ≡ some (2 ^ 64 - 15, 10) =
        unfold uvarint uvarint_loop in refl in
      (
        op_of_fields flags (number_of logical) (number_of data_ofs) (number_of data_len) no_fields,
        rw
            (
              one_byte logical _ hl,
              one_byte data_ofs _ ho,
              one_byte data_len _ hd,
              wrapped,
              long,
              one_byte 0 _ (omega arith),
            )
            refl,
      )

  -- On the bytes of an empty operation and of one that skips 2 ^ 64 - 15 bytes, with whatever flags, one-byte
  -- logical time, offset and length, and whatever follows them, the loop of readOps never ends: no amount
  -- of fuel is enough.
  pub read_ops-unfinished :
      (fuel : ℕ)
      → logical < 128
      → data_ofs < 128
      → data_len < 128
      → read_ops fuel (skipping_back flags logical data_ofs data_len rest) no_fields 0 ≡ unfinished
  unfolding read_ops
  read_ops-unfinished zero hl ho hd = refl
  read_ops-unfinished (suc fuel) hl ho hd =
      let some_left : ltb 0 (length src) ≡ true = ground arith in
      let more : ltb 6 (length src) ≡ true = ground arith in
      let (op, again) = second_round hl ho hd in
      rw (some_left, first_round, stuck src no_fields 6 op fuel more again) refl
