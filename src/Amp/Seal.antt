-- ===== src/Amp/Seal.antt =====
-- amp/amp.support.tx.go: the envelope, the header and the preamble of a transaction, and SealTx.
pub mod Layout
use amp_sdk.Base.{
  ℕ, zero, suc, ◌+◌, ◌≡◌, Bool, true, false, ◌&&◌, List, [], ◌∷◌, ◌++◌, Option, none, some, length,
  take, drop, ltb, ◌==◌, if◌then◌else◌,
}
use amp_sdk.Base.Bytes.{put_be}
use amp_sdk.Tag.Uid.{Uid, append_to}
use amp_sdk.Amp.Wire.{write_pb}
use amp_sdk.Amp.Ops.{TxOp, append_ops}
use amp_sdk.Amp.Tx.{TxError, preamble_size}
use amp_sdk.Safe.Sign.{signing_parts}

-- What these functions return: the errors on a transaction's bytes, a part that is too long to sign or
-- a hash that is not known, what the reader of a stream or the provider returns, a run-time panic, or a
-- loop that has used up its fuel.
pub data SealError : Type 0 where
  tx_error : TxError → SealError
  no_digest : SealError
  end_of_stream : SealError
  provider : ℕ → SealError

pub data Answer (A : Type 0) : Type 0 where
  answers : A → Answer A
  refuses : SealError → Answer A
  panics : Answer A
  unfinished : Answer A

infixl 10 ◌>>=◌
abbrev pub ◌>>=◌ : {A : Type 0} {B : Type 0} → Answer A → (A → Answer B) → Answer B
answers a >>= f = f a
refuses e >>= f = refuses e
panics >>= f = panics
unfinished >>= f = unfinished

abbrev pub or_refuse : {A : Type 0} → SealError → Option A → Answer A
or_refuse e none = refuses e
or_refuse e (some a) = answers a

-- The fields of `TxEnvelope`, `TxHeader` and `TxMsg`; the request is in its marshalled form.
pub record TxEnvelope : Type 0 where
  pub tx_id : Uid
  pub planet_id : Uid
  pub epoch_id : Uid
  pub member_proof : List ℕ
  pub planet_epoch_id : Uid

pub record TxHeader : Type 0 where
  pub context_id : Uid
  pub from_id : Uid
  pub status : ℕ
  pub request : Option (List ℕ)

pub record Transaction : Type 0 where
  pub envelope : TxEnvelope
  pub header : TxHeader
  pub ops : List TxOp
  pub data_store : List ℕ
  pub normalized : Bool

-- `IsPublic`
unfoldable pub is_public : TxEnvelope → Bool
is_public env = env.epoch_id.w0 == 0 && env.epoch_id.w1 == 0

unfoldable pub member_proof_input : TxEnvelope → List ℕ
member_proof_input env = append_to env.tx_id []

-- `proto.Marshal` and `proto.Unmarshal` of the two messages.
pub record Codec : Type 0 where
  pub marshal_envelope : TxEnvelope → Option (List ℕ)
  pub unmarshal_envelope : List ℕ → Option TxEnvelope
  pub marshal_header : TxHeader → Option (List ℕ)
  pub unmarshal_header : List ℕ → Option TxHeader

-- What a transaction needs of them: a message that is marshalled unmarshals.
pub record CodecLaws (codec : Codec) : Type 0 where
  pub envelope_bytes : TxEnvelope → List ℕ
  pub header_bytes : TxHeader → List ℕ
  pub marshal_envelope : (env : TxEnvelope) → codec.marshal_envelope env ≡ some (envelope_bytes env)
  pub unmarshal_envelope :
      (env : TxEnvelope) → codec.unmarshal_envelope (envelope_bytes env) ≡ some env
  pub marshal_header : (head : TxHeader) → codec.marshal_header head ≡ some (header_bytes head)
  pub unmarshal_header : (head : TxHeader) → codec.unmarshal_header (header_bytes head) ≡ some head

-- The interface `CryptoProvider`, as far as sealing and opening call it.
pub record CryptoProvider : Type 0 where
  pub signature_size : ℕ
  pub hash_digest : List (List ℕ) → Answer (List ℕ)
  pub sign_digest : List ℕ → Answer (List ℕ)
  pub verify_digest : List ℕ → List ℕ → List ℕ → Uid → Answer Unit
  pub encrypt_payload : List ℕ → TxEnvelope → Answer (List ℕ)
  pub decrypt_payload : List ℕ → TxEnvelope → Answer (List ℕ)
  pub compute_member_proof : List ℕ → TxEnvelope → Answer (List ℕ)

-- TxPreambleSignature, "AMP1", and SigningDomain_TxAuthor, "amp.sig.tx.v1".
abbrev pub preamble_signature : List ℕ
preamble_signature = 0x41 ∷ 0x4D ∷ 0x50 ∷ 0x31 ∷ []

abbrev pub tx_author : List ℕ
tx_author =
    0x61 ∷ 0x6D ∷ 0x70 ∷ 0x2E ∷ 0x73 ∷ 0x69 ∷ 0x67 ∷ 0x2E ∷ 0x74 ∷ 0x78 ∷ 0x2E ∷ 0x76 ∷ 0x31 ∷ []

-- `n` zeros: a fresh buffer.
unfoldable pub zeros : ℕ → List ℕ
zeros zero = []
zeros (suc n) = 0 ∷ zeros n

-- The first bytes of the caller's buffer, whose backing array is given, or of a fresh one where it
-- holds fewer than `limit`.
unfoldable pub scratch : ℕ → List ℕ → List ℕ
scratch limit backing =
    take preamble_size (if ltb (length backing) limit then zeros 2048 else backing)

-- The preamble that is written over such bytes: those behind the two lengths stay.
unfoldable pub put_lengths : List ℕ → ℕ → ℕ → List ℕ
put_lengths buf head_len data_len =
    preamble_signature ++ (put_be 4 head_len ++ (put_be 4 data_len ++ drop 12 buf))

-- The preamble of `SealTx` has a third length.
unfoldable pub put_sizes : List ℕ → ℕ → ℕ → ℕ → List ℕ
put_sizes buf head_len data_len sig_size =
    preamble_signature
    ++ (put_be 4 head_len ++ (put_be 4 data_len ++ (put_be 2 sig_size ++ drop 14 buf)))

-- The signature behind the bytes that it covers.
unfoldable pub sign_wire : CryptoProvider → List ℕ → Answer (List ℕ)
sign_wire crypto wire = do
  framed ← or_refuse no_digest (signing_parts tx_author (wire ∷ []))
  digest ← crypto.hash_digest framed
  sig ← crypto.sign_digest digest
  answers (wire ++ sig)

module _ (codec : Codec) where
  abbrev pub write_envelope : List ℕ → TxEnvelope → List ℕ
  write_envelope dst env = (write_pb codec.marshal_envelope codec.unmarshal_envelope dst env).0

  abbrev pub write_header : List ℕ → TxHeader → List ℕ
  write_header dst header = (write_pb codec.marshal_header codec.unmarshal_header dst header).0

  unfoldable pub marshal_head : List ℕ → Transaction → List ℕ
  marshal_head dst tx = append_ops (write_header (write_envelope dst tx.envelope) tx.header) tx.ops

  unfoldable pub marshal_payload : Transaction → List ℕ → List ℕ
  marshal_payload tx dst = append_ops (write_header dst tx.header) tx.ops

  unfoldable pub marshal_head_and_ops : List ℕ → Transaction → List ℕ
  marshal_head_and_ops backing tx =
      let head_and_ops = marshal_head (scratch 300 backing) tx in
      put_lengths (take preamble_size head_and_ops) (length head_and_ops) (length tx.data_store)
      ++ drop preamble_size head_and_ops

  unfoldable pub marshal_to_buffer : List ℕ → Transaction → List ℕ
  marshal_to_buffer backing tx = marshal_head_and_ops backing tx ++ tx.data_store

  -- The plaintext payload with the store behind it.
  unfoldable pub public_wire : CryptoProvider → List ℕ → Transaction → List ℕ
  public_wire crypto backing tx =
      let env_buf = write_envelope [] tx.envelope in
      let payload = marshal_payload tx [] in
      put_sizes (scratch 2048 backing) (preamble_size + length env_buf + length payload)
        (length tx.data_store) crypto.signature_size
      ++ (env_buf ++ (payload ++ tx.data_store))

  -- The ciphertext behind the envelope, which has the proof.
  unfoldable pub private_wire : CryptoProvider → List ℕ → TxEnvelope → List ℕ → List ℕ
  private_wire crypto backing env cipher =
      let env_buf = write_envelope [] env in
      put_sizes (scratch 2048 backing) (preamble_size + length env_buf + length cipher) 0
        crypto.signature_size
      ++ (env_buf ++ cipher)

  unfoldable pub seal_public : CryptoProvider → List ℕ → Transaction → Answer (List ℕ × Transaction)
  seal_public crypto backing tx = do
    wire ← sign_wire crypto (public_wire crypto backing tx)
    answers (wire, tx)

  unfoldable pub seal_private :
      CryptoProvider → List ℕ → Transaction → Answer (List ℕ × Transaction)
  seal_private crypto backing tx = do
    cipher ← crypto.encrypt_payload (marshal_payload tx [] ++ tx.data_store) tx.envelope
    proof ← crypto.compute_member_proof (member_proof_input tx.envelope) tx.envelope
    let env = record tx.envelope { member_proof = proof }
    wire ← sign_wire crypto (private_wire crypto backing env cipher)
    answers (wire, record tx { envelope = env })

  -- `SealTx`: the bytes, and the transaction, whose proof it sets. The list is the backing array of the
  -- caller's buffer.
  unfoldable pub seal_tx :
      Option CryptoProvider → List ℕ → Transaction → Answer (List ℕ × Transaction)
  seal_tx none backing tx = answers (marshal_head_and_ops backing tx, tx)
  seal_tx (some crypto) backing tx =
      if is_public tx.envelope
      then seal_public crypto backing tx
      else seal_private crypto backing tx

-- What the two sides of a provider promise each other: a signature has the announced size and verifies
-- under the signer's key, and a ciphertext decrypts, also once the envelope has its proof, unless the
-- envelope is public, for which a provider need not encrypt or decrypt.
pub record CryptoLaws (crypto : CryptoProvider) (signer : List ℕ) (kit : Uid) : Type 0 where
  pub signature_size :
      (digest sig : List ℕ)
      → crypto.sign_digest digest ≡ answers sig
      → length sig ≡ crypto.signature_size
  pub verify_digest :
      (digest sig : List ℕ)
      → crypto.sign_digest digest ≡ answers sig
      → crypto.verify_digest sig digest signer kit ≡ answers tt
  pub decrypt_payload :
      (plaintext cipher proof : List ℕ) (env : TxEnvelope)
      → is_public env ≡ false
      → crypto.encrypt_payload plaintext env ≡ answers cipher
      → crypto.decrypt_payload cipher (record env { member_proof = proof }) ≡ answers plaintext
