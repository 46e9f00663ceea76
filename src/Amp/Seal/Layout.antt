-- ===== src/Amp/Seal/Layout.antt =====
-- The bytes of a transaction: where its envelope, its payload and its preamble stand.
use amp_sdk.Base.{ℕ, zero, suc, ◌+◌, ◌≤◌, ◌≡◌, refl, sym, ap, ◌∙◌, arith}
use amp_sdk.Base.{
  List, [], ◌++◌, Option, none, some, length, take, drop, take-append, drop-append, length-append,
  length-take, ltb, append-nil, append_assoc, if_either,
}
use amp_sdk.Amp.Wire.{write_pb, append_message}
use amp_sdk.Amp.Ops.{append_ops}
use amp_sdk.Amp.Seal.{
  Transaction, Codec, zeros, scratch, put_lengths, write_envelope, marshal_head, marshal_payload,
  marshal_head_and_ops,
}

length-zeros : (n : ℕ) → length (zeros n) ≡ n
unfolding zeros
length-zeros zero = refl
length-zeros (suc n) = ap suc (length-zeros n)

-- A buffer's first sixteen bytes are there, since a smaller one is not used.
pub length-scratch :
    (limit : ℕ) (backing : List ℕ) → 16 ≤ limit → length (scratch limit backing) ≡ 16
unfolding scratch
length-scratch limit backing h =
    if_either (λ (t : List ℕ). length (take 16 t) ≡ 16) (ltb (length backing) limit)
      (λ short. length-take 16 (zeros 2048) (omega (arith, length-zeros 2048)))
      (λ long. length-take 16 backing (ground arith))

append_message-append :
    (dst : List ℕ) (buf : Option (List ℕ))
    → (append_message dst buf).0 ≡ dst ++ (append_message [] buf).0
append_message-append dst none = sym (append-nil dst)
append_message-append dst (some buf) = refl

module _ (codec : Codec) (tx : Transaction) where
  pub payload_at :
      (dst : List ℕ) → marshal_payload codec tx dst ≡ dst ++ marshal_payload codec tx []
  unfolding marshal_payload append_ops write_pb
  payload_at dst =
      let written = append_message [] (codec.marshal_header tx.header) in
      ap (λ t. t ++ append_ops [] tx.ops)
        (append_message-append dst (codec.marshal_header tx.header))
      ∙ append_assoc dst written.0 (append_ops [] tx.ops)

  abbrev pub head : List ℕ
  head = marshal_payload codec tx (write_envelope codec [] tx.envelope)

  pub marshal_head_at : (dst : List ℕ) → marshal_head codec dst tx ≡ dst ++ head
  unfolding marshal_head marshal_payload write_pb
  marshal_head_at dst =
      let env : List ℕ = write_envelope codec [] tx.envelope in
      ap (marshal_payload codec tx) (append_message-append dst (codec.marshal_envelope tx.envelope))
      ∙ payload_at (dst ++ env)
      ∙ append_assoc dst env (marshal_payload codec tx [])
      ∙ ap (λ t. dst ++ t) (sym (payload_at env))

  pub length-head :
      length head
      ≡ length (write_envelope codec [] tx.envelope) + length (marshal_payload codec tx [])
  length-head =
      ap length (payload_at (write_envelope codec [] tx.envelope))
      ∙ length-append (write_envelope codec [] tx.envelope) (marshal_payload codec tx [])

  pub marshal_head_and_ops-layout :
      (backing : List ℕ)
      → marshal_head_and_ops codec backing tx
        ≡ put_lengths (scratch 300 backing) (16 + length head) (length tx.data_store) ++ head
  unfolding marshal_head_and_ops
  marshal_head_and_ops-layout backing =
      let buf : List ℕ = scratch 300 backing in
      let size : length buf ≡ 16 = length-scratch 300 backing (omega arith) in
      let front : take 16 (buf ++ head) ≡ buf =
        ap (λ n. take n (buf ++ head)) (sym size) ∙ take-append buf head in
      let behind : drop 16 (buf ++ head) ≡ head =
        ap (λ n. drop n (buf ++ head)) (sym size) ∙ drop-append buf head in
      let total : length (buf ++ head) ≡ 16 + length head =
        omega (arith, size, length-append buf head) in
      rw (marshal_head_at buf, front, behind, total) refl
