-- ===== src/Amp/Open/RoundTrip.antt =====
-- SealTx and its readers: openTx, ParseTxEnvelope and TxSignedDigest on what SealTx answers.
use amp_sdk.Base.{ℕ, ◌+◌, ◌^◌, ◌<◌, ◌≡◌, refl, sym, ap, ◌∙◌, arith}
use amp_sdk.Base.{
  List, [], ◌++◌, some, All, Bool, false, length, drop, drop-append, length-append, append_assoc,
  inl, inr,
}
use amp_sdk.Tag.Uid.{Uid}
use amp_sdk.Safe.Sign.{concat}
use amp_sdk.Amp.Ops.Single.{IsOp}
use amp_sdk.Amp.Seal.{
  TxEnvelope, Transaction, Codec, CodecLaws, CryptoProvider, CryptoLaws, write_envelope, seal_tx,
}
use amp_sdk.Amp.Seal.Answer.{answers}
use amp_sdk.Amp.Open.Preamble.{front, wire, length-front, length_of_wire, wire-is_accepted}
use amp_sdk.Amp.Open.Payload.{IsAuthored, read_envelope-write}
use amp_sdk.Amp.Open.Signed.{IsSigned, length-sealed_tail, sealed_sizes, tx_signed_digest-sealed}
use amp_sdk.Amp.Open.Sealed.{
  payload, tail, public_head, private_head, with_proof, open_public_wire, open_private_wire,
}
use amp_sdk.Amp.Open.{open_tx, parse_tx_envelope, tx_signed_digest}
use amp_sdk.Amp.Open.Inversion.{seal_tx-cases}

parse-wire :
    (codec : Codec) (laws : CodecLaws codec) (t : List ℕ) (env : TxEnvelope)
    (rest store sig : List ℕ)
    → length t ≡ 4
    → 16 + length (write_envelope codec [] env ++ rest) < 2 ^ 32
    → length store < 2 ^ 32
    → length (wire t (write_envelope codec [] env ++ rest) store sig) < 2 ^ 32
    → parse_tx_envelope codec (wire t (write_envelope codec [] env ++ rest) store sig) ≡ answers env
unfolding parse_tx_envelope
parse-wire codec laws t env rest store sig four head_fits store_fits small =
    let buf : List ℕ = write_envelope codec [] env in
    let size = length_of_wire t (buf ++ rest) store sig four in
    let start : 16 ≡ length (front t (buf ++ rest) store sig) =
      sym (length-front t (buf ++ rest) store sig four head_fits store_fits) in
    let behind : drop 16 (wire t (buf ++ rest) store sig) ≡ buf ++ (rest ++ (store ++ sig)) =
      ap (λ n. drop n (wire t (buf ++ rest) store sig)) start
      ∙ drop-append (front t (buf ++ rest) store sig) _
      ∙ append_assoc buf rest (store ++ sig) in
    let total : length buf + length (rest ++ (store ++ sig)) < 2 ^ 32 =
      omega (
        arith,
        length-append buf rest,
        length-append rest (store ++ sig),
        length-append store sig,
      ) in
    rw
      (
        wire-is_accepted t (buf ++ rest) store sig four head_fits store_fits,
        behind,
        read_envelope-write codec laws env (rest ++ (store ++ sig)) total,
      )
      refl

module _ (codec : Codec) (crypto : CryptoProvider) (signer : List ℕ) (kit : Uid)
    (codec_laws : CodecLaws codec) (laws : CryptoLaws crypto signer kit) (backing : List ℕ)
    (tx out : Transaction) (bytes : List ℕ) (some_sig : 0 < crypto.signature_size)
    (sig_fits : crypto.signature_size < 2 ^ 16) (small : length bytes < 2 ^ 32)
    (answered : seal_tx codec (some crypto) backing tx ≡ answers (bytes, out)) where
  -- Where SealTx answers with a provider, openTx gives back, with and without the check of the
  -- signature, the transaction that SealTx leaves, except that it is not normalized; SealTx has changed
  -- at most the proof of its envelope. The messages unmarshal from what they marshal to, the
  -- provider's signatures have the announced size and verify, what it encrypts for an envelope
  -- that is not public it decrypts, also under the proof, signatures have a size from 1 to 65535, the operations are in
  -- the ranges of their types, their edits are those that reconstructEditIDs gives them, and the bytes
  -- and the plaintext are shorter than 2 ^ 32.
  pub open_tx-seal_tx :
      (verify_sig : Bool)
      → All IsOp tx.ops
      → IsAuthored tx
      → length (payload codec tx) + length tx.data_store < 2 ^ 32
      → (open_tx codec (some crypto) signer kit verify_sig bytes
          ≡ answers (record out { normalized = false }))
        × (out ≡ with_proof tx out.envelope.member_proof)
  open_tx-seal_tx verify_sig valid authored plain_fits =
      elim (seal_tx-cases codec crypto backing tx bytes out answered) [
        | inl (sig, (public, left, e, signed)) ↦
            let whole =
              open_public_wire codec crypto signer kit codec_laws laws backing tx valid authored
                plain_fits some_sig sig_fits sig verify_sig public signed
                (omega (arith, ap length e)) in
            (
              ap (open_tx codec (some crypto) signer kit verify_sig) e
                  ∙ whole
                  ∙ ap (λ (t : Transaction). answers (record t { normalized = false })) (sym left),
              left ∙ ap (λ (t : Transaction). with_proof tx t.envelope.member_proof) (sym left),
            )
        | inr (proof, cipher, sig, (private, left, e, signed, encrypted)) ↦
            let whole =
              open_private_wire codec crypto signer kit codec_laws laws backing tx valid authored
                plain_fits some_sig sig_fits proof cipher sig verify_sig private encrypted signed
                (omega (arith, ap length e)) in
            (
              ap (open_tx codec (some crypto) signer kit verify_sig) e
                  ∙ whole
                  ∙ ap (λ (t : Transaction). answers (record t { normalized = false })) (sym left),
              left ∙ ap (λ (t : Transaction). with_proof tx t.envelope.member_proof) (sym left),
            )
      ]

  -- Where SealTx answers with a provider, TxSignedDigest finds in its bytes a digest and a signature of
  -- the provider for that digest, under a hash with which the provider computes its digests. The
  -- messages and the provider are as for openTx, the signatures have a size from 1 to 65535, and the bytes
  -- are shorter than 2 ^ 32.
  pub tx_signed_digest-seal_tx :
      (hash : List ℕ → List ℕ)
      → ((framed : List (List ℕ)) → crypto.hash_digest framed ≡ answers (hash (concat framed)))
      → (digest : List ℕ) × (sig : List ℕ) × (tx_signed_digest (some hash) bytes
          ≡ answers (digest, sig))
        × (crypto.sign_digest digest ≡ answers sig)
  tx_signed_digest-seal_tx hash same =
      elim (seal_tx-cases codec crypto backing tx bytes out answered) [
        | inl (sig, (public, left, e, signed)) ↦
            (signed.1, sig, digest_of (public_head codec tx) tx.data_store sig e signed, signed.4)
        | inr (proof, cipher, sig, (private, left, e, signed, encrypted)) ↦ (
          signed.1,
          sig,
          digest_of (private_head codec tx proof cipher) [] sig e signed,
          signed.4,
        )
      ]
    where
      digest_of :
          (head store sig : List ℕ)
          → bytes ≡ wire (tail codec crypto backing) head store sig
          → (signed : IsSigned crypto (wire (tail codec crypto backing) head store []) sig)
          → tx_signed_digest (some hash) bytes ≡ answers (signed.1, sig)
      digest_of head store sig e signed =
          ap (tx_signed_digest (some hash)) e
          ∙ tx_signed_digest-sealed codec crypto signer kit laws backing head store sig signed
              some_sig sig_fits (omega (arith, ap length e)) hash same

  -- Where SealTx answers with a provider, ParseTxEnvelope finds the envelope that SealTx leaves, with
  -- its proof, without a key. The messages and the provider are as for openTx: messages unmarshal from what
  -- they marshal to, and signatures have the announced size, from 1 to 65535, and verify, and what is
  -- encrypted for an envelope that is not public is decrypted. The bytes are shorter than 2 ^ 32.
  pub parse_tx_envelope-seal_tx : parse_tx_envelope codec bytes ≡ answers out.envelope
  parse_tx_envelope-seal_tx = elim (seal_tx-cases codec crypto backing tx bytes out answered) [
    | inl (sig, (public, left, e, signed)) ↦
        envelope_of tx.envelope (payload codec tx) tx.data_store sig e signed
        ∙ ap (λ (t : Transaction). answers t.envelope) (sym left)
    | inr (proof, cipher, sig, (private, left, e, signed, encrypted)) ↦
        envelope_of (with_proof tx proof).envelope cipher [] sig e signed
        ∙ ap (λ (t : Transaction). answers t.envelope) (sym left)
  ]
    where
      envelope_of :
          (env : TxEnvelope) (rest store sig : List ℕ)
          → bytes ≡ wire (tail codec crypto backing) (write_envelope codec [] env ++ rest) store sig
          → IsSigned crypto
              (wire (tail codec crypto backing) (write_envelope codec [] env ++ rest) store [])
              sig
          → parse_tx_envelope codec bytes ≡ answers env
      envelope_of env rest store sig e signed =
          let head : List ℕ = write_envelope codec [] env ++ rest in
          let four = length-sealed_tail crypto backing in
          let sizes =
            sealed_sizes codec crypto signer kit laws backing head store sig signed some_sig
              sig_fits (omega (arith, ap length e)) in
          ap (parse_tx_envelope codec) e
          ∙ parse-wire codec codec_laws (tail codec crypto backing) env rest store sig four sizes.0
              sizes.1 (omega (arith, ap length e))
