-- ===== src/Amp/Open.antt =====
-- amp/amp.support.tx.go: OpenTx, ParseTxEnvelope, TxSignedDigest and ReadTxMsg.
pub mod Preamble
pub mod Payload
pub mod Local
pub mod Reads
pub mod Stream
pub mod Signed
pub mod Sealed
pub mod Inversion
pub mod RoundTrip
mod Samples
mod Tests
use amp_sdk.Base.{
  ℕ, ◌+◌, ◌-◌, Bool, true, false, not, ◌||◌, List, [], ◌∷◌, ◌++◌, Option, none, some, length, take,
  drop, ltb, ◌==◌, if◌then◌else◌,
}
use amp_sdk.Base.Bytes.{be_value, bytes_compare}
use amp_sdk.Tag.Uid.{Uid}
use amp_sdk.Amp.Wire.{Read, read_pb, after_read}
use amp_sdk.Amp.Ops.{TxOp, read_ops_section}
use amp_sdk.Amp.Tx.{
  TxError, Result, TxMsg, preamble_size, tx_sig_offset, is_equal, reconstruct_edit_ids,
}
use amp_sdk.Amp.Tx.TxError.{malformed_tx}
use amp_sdk.Amp.Seal.{
  SealError, Answer, ◌>>=◌, or_refuse, TxEnvelope, TxHeader, Transaction, Codec, CryptoProvider,
  is_public, preamble_signature, tx_author,
}
use amp_sdk.Amp.Seal.SealError.{tx_error, no_digest, end_of_stream}
use amp_sdk.Amp.Seal.Answer.{answers, refuses, panics, unfinished}
use amp_sdk.Safe.Sign.{signing_parts, signing_digest}

abbrev pub malformed : SealError
malformed = tx_error malformed_tx

abbrev pub of_read : {A : Type 0} → Read A → Answer A
of_read (Read.done a) = answers a
of_read Read.malformed = refuses malformed
of_read Read.panics = panics
of_read Read.unfinished = unfinished

abbrev pub of_result : {A : Type 0} → Result A → Answer A
of_result (Result.ok a) = answers a
of_result (Result.fail e) = refuses (tx_error e)

-- The fields of `TxPreamble`: `TxHeadLen`, `TxDataLen` and `TxSignatureSize`.
unfoldable pub tx_head_len : List ℕ → ℕ
tx_head_len preamble = be_value (take 4 (drop 4 preamble))

unfoldable pub tx_data_len : List ℕ → ℕ
tx_data_len preamble = be_value (take 4 (drop 8 preamble))

unfoldable pub tx_signature_size : List ℕ → ℕ
tx_signature_size preamble = be_value (take 2 (drop 12 preamble))

-- The first four bytes are the signature of a preamble.
unfoldable pub is_signed_preamble : List ℕ → Bool
is_signed_preamble wire = is_equal (bytes_compare (take 4 wire) preamble_signature)

-- The bytes behind the preamble up to the end of the head, where the lengths of the preamble lie
-- inside the wire.
unfoldable pub head_body : List ℕ → Option (List ℕ)
head_body wire =
    let head_len = tx_head_len wire in
    if ltb head_len preamble_size
      || ltb (length wire) head_len
      || ltb (length wire - head_len) (tx_data_len wire)
    then none
    else some (drop preamble_size (take head_len wire))

-- The data store behind the head.
unfoldable pub data_behind : List ℕ → List ℕ
data_behind wire = take (tx_data_len wire) (drop (tx_head_len wire) wire)

-- `reconstructEditIDs` on a whole transaction, at the exit of a decoder.
unfoldable pub restored : TxEnvelope → TxHeader → List TxOp → List ℕ → Transaction
restored env header ops store =
    let msg : TxMsg = record {
      tx_id = env.tx_id;
      from_id = header.from_id;
      ops = ops;
      data_store = store;
      normalized = false;
    } in
    record {
      envelope = env;
      header = header;
      ops = (reconstruct_edit_ids msg).ops;
      data_store = store;
      normalized = false;
    }

-- The check of the signature behind `sig_ofs`.
unfoldable pub verify_wire : CryptoProvider → List ℕ → Uid → List ℕ → ℕ → Answer Unit
verify_wire crypto signer kit wire sig_ofs = do
  framed ← or_refuse no_digest (signing_parts tx_author (take sig_ofs wire ∷ []))
  digest ← crypto.hash_digest framed
  crypto.verify_digest (drop sig_ofs wire) digest signer kit

module _ (codec : Codec) where
  abbrev pub read_envelope : List ℕ → ℕ → Read (TxEnvelope × ℕ)
  read_envelope = read_pb codec.marshal_envelope codec.unmarshal_envelope

  -- The header and the section of operations at a position, and the position behind them.
  unfoldable pub read_payload : List ℕ → ℕ → Read (TxHeader × List TxOp × ℕ)
  read_payload src p =
      after_read (read_pb codec.marshal_header codec.unmarshal_header src p) λ head.
        after_read (read_ops_section src head.1) λ section. Read.done (head.0, section.0, section.1)

  unfoldable pub unmarshal_head : List ℕ → Read (TxEnvelope × TxHeader × List TxOp)
  unmarshal_head src =
      after_read (read_envelope src 0) λ env.
        after_read (read_payload src env.1) λ payload. Read.done (env.0, payload.0, payload.1)

  -- `OpenTx` without a provider, behind the tests of the preamble.
  unfoldable pub open_local : List ℕ → Answer Transaction
  open_local wire = do
    body ← or_refuse malformed (head_body wire)
    head ← of_read (unmarshal_head body)
    answers (restored head.0 head.1 head.2 (data_behind wire))

  unfoldable pub open_public : List ℕ → List ℕ → TxEnvelope → ℕ → Answer Transaction
  open_public wire body env p = do
    payload ← of_read (read_payload (drop p body) 0)
    answers (restored env payload.0 payload.1 (data_behind wire))

  unfoldable pub open_private : CryptoProvider → List ℕ → TxEnvelope → ℕ → ℕ → Answer Transaction
  open_private crypto wire env p sig_ofs =
      let start = preamble_size + p in
      if ltb (length wire) sig_ofs || ltb sig_ofs start then refuses malformed else do
        plaintext ← crypto.decrypt_payload (take (sig_ofs - start) (drop start wire)) env
        payload ← of_read (read_payload plaintext 0)
        answers (restored env payload.0 payload.1 (drop payload.2 plaintext))

  unfoldable pub open_sealed : CryptoProvider → List ℕ → Uid → Bool → List ℕ → Answer Transaction
  open_sealed crypto signer kit verify_sig wire = do
    body ← or_refuse malformed (head_body wire)
    env ← of_read (read_envelope body 0)
    sig_ofs ← of_result (tx_sig_offset wire)
    verified ← if verify_sig then verify_wire crypto signer kit wire sig_ofs else answers tt
    if is_public env.0
        then open_public wire body env.0 env.1
        else open_private crypto wire env.0 env.1 sig_ofs

  abbrev pub open_with : Option CryptoProvider → List ℕ → Uid → Bool → List ℕ → Answer Transaction
  open_with none signer kit verify_sig wire = open_local wire
  open_with (some crypto) signer kit verify_sig wire = open_sealed crypto signer kit verify_sig wire

  -- `openTx`: `OpenTx` verifies the signature, `OpenTxSansVerify` does not.
  unfoldable pub open_tx : Option CryptoProvider → List ℕ → Uid → Bool → List ℕ → Answer Transaction
  open_tx crypto signer kit verify_sig wire =
      if ltb (length wire) preamble_size || not (is_signed_preamble wire)
      then refuses malformed
      else open_with crypto signer kit verify_sig wire

  unfoldable pub parse_tx_envelope : List ℕ → Answer TxEnvelope
  parse_tx_envelope wire =
      if ltb (length wire) preamble_size || not (is_signed_preamble wire)
      then refuses malformed
      else do env ← of_read (read_envelope (drop preamble_size wire) 0); answers env.0

-- The digest under a hash, where the kit has one, and the signature.
unfoldable pub tx_signed_digest : Option (List ℕ → List ℕ) → List ℕ → Answer (List ℕ × List ℕ)
tx_signed_digest kit raw = do
  sig_ofs ← of_result (tx_sig_offset raw)
  digest ← or_refuse no_digest (signing_digest kit tx_author (take sig_ofs raw ∷ []))
  answers (digest, drop sig_ofs raw)

-- What a reader gives up to the next boundary between its reads, and whether the read that takes the last
-- of it returns an error beside the bytes.
pub record Chunk : Type 0 where
  pub bytes : List ℕ
  pub with_error : Bool

abbrev pub behind_chunk : List ℕ → Option (List ℕ × List Chunk) → Option (List ℕ × List Chunk)
behind_chunk bytes none = none
behind_chunk bytes (some (more, rest)) = some (bytes ++ more, rest)

-- `readBytes` in `ReadTxMsg`: one `Read` gives at most the bytes that a chunk of the stream still has; an
-- error beside them is returned, also where they are as many as are asked for. There is an error behind the
-- last chunk.
unfoldable pub read_bytes : ℕ → List Chunk → Option (List ℕ × List Chunk)
read_bytes n [] = if n == 0 then some ([], []) else none
read_bytes n (chunk ∷ chunks) =
    let rest = read_bytes (n - length chunk.bytes) chunks in
    if n == 0
    then some ([], chunk ∷ chunks)
    else if ltb n (length chunk.bytes)
    then some (take n chunk.bytes, record chunk { bytes = drop n chunk.bytes } ∷ chunks)
    else if chunk.with_error
    then none
    else behind_chunk chunk.bytes rest

-- The part of `ReadTxMsg` behind the preamble.
unfoldable pub read_behind : Codec → List ℕ → List Chunk → Answer (Transaction × List Chunk)
read_behind codec preamble stream = do
  body ← or_refuse end_of_stream (read_bytes (tx_head_len preamble - preamble_size) stream)
  head ← of_read (unmarshal_head codec body.0)
  store ← or_refuse end_of_stream (read_bytes (tx_data_len preamble) body.1)
  answers (restored head.0 head.1 head.2 store.0, store.1)

-- `ReadTxMsg`; a head that is shorter than the preamble makes the slice of its buffer panic.
unfoldable pub read_tx_msg : Codec → List Chunk → Answer (Transaction × List Chunk)
read_tx_msg codec stream = do
  preamble ← or_refuse end_of_stream (read_bytes preamble_size stream)
  if not (is_signed_preamble preamble.0)
      then refuses malformed
      else if ltb (tx_head_len preamble.0) preamble_size
      then panics
      else read_behind codec preamble.0 preamble.1
