-- ===== src/Amp/Open/Payload.antt =====
-- The envelope, the header and the operations that a reader finds in a transaction's head.
use amp_sdk.Base.{ℕ, ◌+◌, ◌^◌, ◌<◌, ◌≡◌, refl, sym, ap, ap₂, ◌∙◌, arith}
use amp_sdk.Base.{
  List, [], ◌∷◌, ◌++◌, Option, some, map, All, false, length, length-append, append-nil,
  append_assoc,
}
use amp_sdk.Base.Bytes.{put_be, length-put_be}
use amp_sdk.Amp.Wire.{put_uvarint, write_pb, read_pb, after_read, append_message}
use amp_sdk.Amp.Wire.Read.{done}
use amp_sdk.Amp.Wire.Message.{read_pb-write_pb}
use amp_sdk.Amp.Ops.{TxOp, no_fields, put_ops, append_ops, read_ops_section}
use amp_sdk.Amp.Ops.Single.{IsOp, wire_op}
use amp_sdk.Amp.Ops.RoundTrip.{read_ops_section-append_ops}
use amp_sdk.Tag.Uid.{Uid}
use amp_sdk.Amp.Tx.{edit_of, reconstruct_edit_ids}
use amp_sdk.Amp.Seal.{
  TxEnvelope, Transaction, Codec, CodecLaws, write_envelope, write_header, marshal_payload,
}
use amp_sdk.Amp.Seal.Layout.{payload_at, head}
use amp_sdk.Amp.Open.{read_envelope, read_payload, unmarshal_head, restored}

length-write_pb :
    {M : Type 0} (marshal : M → Option (List ℕ)) (unmarshal : List ℕ → Option M) (dst : List ℕ)
    (pb : M) (buf : List ℕ)
    → marshal pb ≡ some buf
    → length (write_pb marshal unmarshal dst pb).0
      ≡ length dst + length (put_uvarint (length buf)) + length buf
unfolding write_pb
length-write_pb marshal unmarshal dst pb buf h =
    let number : List ℕ = put_uvarint (length buf) in
    ap (λ o. length (append_message dst o).0) h
    ∙ omega (arith, length-append dst (number ++ buf), length-append number buf)

module _ (codec : Codec) (laws : CodecLaws codec) where
  pub read_envelope-write :
      (env : TxEnvelope) (rest : List ℕ)
      → length (write_envelope codec [] env) + length rest < 2 ^ 32
      → read_envelope codec (write_envelope codec [] env ++ rest) 0
        ≡ done (env, length (write_envelope codec [] env))
  read_envelope-write env rest small =
      let buf : List ℕ = laws.envelope_bytes env in
      let size : length (write_envelope codec [] env)
          ≡ length (put_uvarint (length buf)) + length buf =
        omega (
          arith,
          length-write_pb codec.marshal_envelope codec.unmarshal_envelope [] env buf
              (laws.marshal_envelope env),
        ) in
      read_pb-write_pb codec.marshal_envelope codec.unmarshal_envelope [] env buf rest
        (laws.marshal_envelope env) (laws.unmarshal_envelope env) (omega arith)

  -- The payload of a transaction, behind any bytes and before any.
  pub read_payload-marshal :
      (tx : Transaction) (dst rest : List ℕ)
      → All IsOp tx.ops
      → length (marshal_payload codec tx dst) + length rest < 2 ^ 32
      → read_payload codec (marshal_payload codec tx dst ++ rest) (length dst)
        ≡ done (tx.header, map wire_op tx.ops, length (marshal_payload codec tx dst))
  unfolding read_payload marshal_payload append_ops
  read_payload-marshal tx dst rest valid small =
      let w : List ℕ = write_header codec dst tx.header in
      let section : List ℕ = append_ops [] tx.ops in
      let buf : List ℕ = laws.header_bytes tx.header in
      let size : length w ≡ length dst + length (put_uvarint (length buf)) + length buf =
        length-write_pb codec.marshal_header codec.unmarshal_header dst tx.header buf
          (laws.marshal_header tx.header) in
      let total : length (append_ops w tx.ops) ≡ length w + length section =
        length-append w section in
      let body : length section ≡ 4 + length (put_ops no_fields tx.ops) = omega (
        arith,
        length-append (put_be 4 (length (put_ops no_fields tx.ops))) (put_ops no_fields tx.ops),
        length-put_be 4 (length (put_ops no_fields tx.ops)),
      ) in
      let both : length (section ++ rest) ≡ length section + length rest =
        length-append section rest in
      let first : read_pb codec.marshal_header codec.unmarshal_header (append_ops w tx.ops ++ rest)
            (length dst)
          ≡ done (tx.header, length w) =
        ap (λ t. read_pb codec.marshal_header codec.unmarshal_header t (length dst))
          (append_assoc w section rest)
        ∙ read_pb-write_pb codec.marshal_header codec.unmarshal_header dst tx.header buf
            (section ++ rest) (laws.marshal_header tx.header) (laws.unmarshal_header tx.header)
            (omega arith) in
      let second : read_ops_section (append_ops w tx.ops ++ rest) (length w)
          ≡ done (map wire_op tx.ops, length (append_ops w tx.ops)) =
        read_ops_section-append_ops w rest tx.ops valid (omega arith) (omega arith) in
      ap
        (λ r. after_read r (λ head.
          after_read (read_ops_section (append_ops w tx.ops ++ rest) head.1)
            (λ found. done (head.0, found.0, found.1))))
        first
      ∙ ap (λ r. after_read r (λ found. done (tx.header, found.0, found.1))) second

  -- The head of a transaction.
  pub unmarshal_head-marshal :
      (tx : Transaction)
      → All IsOp tx.ops
      → length (head codec tx) < 2 ^ 32
      → unmarshal_head codec (head codec tx) ≡ done (tx.envelope, tx.header, map wire_op tx.ops)
  unfolding unmarshal_head
  unmarshal_head-marshal tx valid small =
      let env : List ℕ = write_envelope codec [] tx.envelope in
      let payload : List ℕ = marshal_payload codec tx [] in
      let size = length-append env payload in
      let split : head codec tx ≡ env ++ payload = payload_at codec tx env in
      let first : read_envelope codec (head codec tx) 0 ≡ done (tx.envelope, length env) =
        ap (λ t. read_envelope codec t 0) split
        ∙ read_envelope-write tx.envelope payload (omega (arith, ap length split)) in
      let second : read_payload codec (head codec tx) (length env)
          ≡ done (tx.header, map wire_op tx.ops, length (head codec tx)) =
        ap (λ t. read_payload codec t (length env)) (sym (append-nil (head codec tx)))
        ∙ read_payload-marshal tx env [] valid (omega arith) in
      rw (first, second) refl

-- A transaction whose edits are those that a reader gives its operations.
abbrev pub IsAuthored : Transaction → Type 0
IsAuthored tx = All (λ op. op.addr.edit_id ≡ edit_of tx.envelope.tx_id tx.data_store op) tx.ops

authored_ops :
    (id : Uid) (store : List ℕ) (ops : List TxOp)
    → All (λ op. op.addr.edit_id ≡ edit_of id store op) ops
    → map
        (λ (op : TxOp). record op { addr = record op.addr { edit_id = edit_of id store op } })
        (map wire_op ops)
      ≡ ops
unfolding edit_of
authored_ops id store [] authored = refl
authored_ops id store (op ∷ ops) authored =
    ap₂ ◌∷◌ (ap (λ (e : Uid). record op { addr = record op.addr { edit_id = e } }) (sym authored.0))
      (authored_ops id store ops authored.1)

-- The transaction that a reader hands out.
pub restored-authored :
    (tx : Transaction)
    → IsAuthored tx
    → restored tx.envelope tx.header (map wire_op tx.ops) tx.data_store
      ≡ record tx { normalized = false }
unfolding restored reconstruct_edit_ids
restored-authored tx authored =
    ap (λ (ops : List TxOp). record tx { ops = ops; normalized = false })
      (authored_ops tx.envelope.tx_id tx.data_store tx.ops authored)
