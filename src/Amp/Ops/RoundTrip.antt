-- ===== src/Amp/Ops/RoundTrip.antt =====
-- readOps gives back the operations that appendOps wrote.
use amp_sdk.Base.{ℕ, zero, suc, ◌+◌, ◌-◌, ◌^◌, ◌≤◌, ◌<◌, ◌≡◌, refl, sym, ap, ◌∙◌, arith}
use amp_sdk.Base.{true, false, List, [], ◌∷◌, ◌++◌, map, All, length, take, drop, ltb}
use amp_sdk.Base.{
  append_assoc, take-append, drop-append, drop_step, drop_within, length-append, length-drop,
}
use amp_sdk.Base.Bytes.{put_be, be_value, be_value-put_be, length-put_be}
use amp_sdk.Amp.Wire.Read.{done}
use amp_sdk.Amp.Ops.{
  TxOp, op_fields, no_fields, put_op, put_ops, append_ops, read_ops, read_ops_section,
}
use amp_sdk.Amp.Ops.Single.{IsOp, wire_op, read_op-put}

put_op-nonempty : (prv : List ℕ) (op : TxOp) → 0 < length (put_op prv op)
unfolding put_op
put_op-nonempty prv op = omega arith

read_ops-put :
    (ops : List TxOp) (fuel : ℕ) (prv : List ℕ) (src : List ℕ) (p : ℕ)
    → All IsOp ops
    → length prv ≡ 16
    → length src < 2 ^ 63
    → p ≤ length src
    → drop p src ≡ put_ops prv ops
    → length (put_ops prv ops) < fuel
    → read_ops fuel src prv p ≡ done (map wire_op ops)
unfolding read_ops put_ops
read_ops-put ops zero prv src p valid slots small hp h hf = absurd (omega arith)
read_ops-put [] (suc fuel) prv src p valid slots small hp h hf =
    let ends : ltb p (length src) ≡ false = ground (arith, ap length h, length-drop p src) in
    rw ends refl
read_ops-put (op ∷ ops) (suc fuel) prv src p valid slots small hp h hf =
    let rest : List ℕ = put_ops (op_fields op) ops in
    let some_left = put_op-nonempty prv op in
    let ends = drop_within p src (put_op prv op) rest some_left h in
    let more : ltb p (length src) ≡ true = ground arith in
    let next : read_ops fuel src (op_fields op) (p + length (put_op prv op))
        ≡ done (map wire_op ops) =
      read_ops-put ops fuel (op_fields op) src (p + length (put_op prv op)) valid.1 refl small
        (omega arith) (drop_step p src (put_op prv op) rest h)
        (omega (arith, length-append (put_op prv op) rest)) in
    rw (more, read_op-put prv op src p rest valid.0 slots small h, next) refl

read_head : (n : ℕ) (rest : List ℕ) → n < 2 ^ 32 → be_value (take 4 (put_be 4 n ++ rest)) ≡ n
unfolding put_be
read_head n rest h = be_value-put_be 4 n h

-- A section of operations that appendOps wrote is read back by readOpsSection, without their edits, as
-- long as its length fits the 32 bits in front of it: neither an error nor a panic, the fuel is enough,
-- and the position is behind the section, whatever stands before and after.
pub read_ops_section-append_ops :
    (dst rest : List ℕ) (ops : List TxOp)
    → All IsOp ops
    → length (put_ops no_fields ops) < 2 ^ 32
    → length dst + length rest < 2 ^ 62
    → read_ops_section (append_ops dst ops ++ rest) (length dst)
      ≡ done (map wire_op ops, length (append_ops dst ops))
unfolding read_ops_section append_ops
read_ops_section-append_ops dst rest ops valid fits small =
    rw (prefix, room, inside, span)
      (rw whole (ap (λ (t : ℕ). done (map wire_op ops, t)) (omega (arith, size))))
  where
    body : List ℕ
    body = put_ops no_fields ops

    n : ℕ
    n = length body

    head : List ℕ
    head = put_be 4 n

    src : List ℕ
    src = (dst ++ (head ++ body)) ++ rest

    four : length head ≡ 4
    four = length-put_be 4 n

    start : drop (length dst) src ≡ head ++ (body ++ rest)
    start =
        ap (drop (length dst)) (append_assoc dst (head ++ body) rest)
        ∙ drop-append dst ((head ++ body) ++ rest)
        ∙ append_assoc head body rest

    behind : drop (length dst + 4) src ≡ body ++ rest
    behind =
        ap (λ t. drop (length dst + t) src) (sym four)
        ∙ drop_step (length dst) src head (body ++ rest) start

    span : take n (drop (length dst + 4) src) ≡ body
    span = ap (take n) behind ∙ take-append body rest

    prefix : be_value (take 4 (drop (length dst) src)) ≡ n
    prefix = ap (λ t. be_value (take 4 t)) start ∙ read_head n (body ++ rest) fits

    size : length (dst ++ (head ++ body)) ≡ length dst + 4 + n
    size = omega (arith, four, length-append dst (head ++ body), length-append head body)

    total : length src ≡ length dst + 4 + n + length rest
    total = omega (arith, size, length-append (dst ++ (head ++ body)) rest)

    room : ltb (length src) (length dst + 4) ≡ false
    room = ground (arith, total)

    inside : ltb (length src - (length dst + 4)) n ≡ false
    inside = ground (arith, total)

    whole : read_ops (n + 1) body no_fields 0 ≡ done (map wire_op ops)
    whole =
        read_ops-put ops (n + 1) no_fields body 0 valid refl (omega arith) (omega arith) refl
          (omega arith)
