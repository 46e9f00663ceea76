-- ===== src/Amp/Open/Sealed.antt =====
-- openTx gives back what SealTx sealed, with and without the check of the signature.
use amp_sdk.Base.{ℕ, ◌+◌, ◌-◌, ◌^◌, ◌<◌, ◌≡◌, sym, ap, ap₂, ◌∙◌, arith}
use amp_sdk.Base.{
  List, [], ◌++◌, some, map, All, Bool, true, false, ◌||◌, length, take, drop, length-append,
  take-append, drop-append, ltb, append-nil, append_assoc,
}
use amp_sdk.Tag.Uid.{Uid}
use amp_sdk.Amp.Wire.Read.{done}
use amp_sdk.Amp.Ops.Single.{IsOp, wire_op}
use amp_sdk.Amp.Seal.{
  TxEnvelope, Transaction, Codec, CodecLaws, CryptoProvider, CryptoLaws, is_public, put_sizes,
  write_envelope, marshal_payload, public_wire, private_wire,
}
use amp_sdk.Amp.Seal.Answer.{answers}
use amp_sdk.Amp.Open.Preamble.{
  preamble, front, wire, length-front, length_of_wire, wire-data_behind,
}
use amp_sdk.Amp.Open.Payload.{
  read_envelope-write, read_payload-marshal, IsAuthored, restored-authored,
}
use amp_sdk.Amp.Open.Signed.{
  IsSigned, sealed_tail, length-sealed_tail, length-sealed, sealed_sizes, open_tx-sealed,
}
use amp_sdk.Amp.Open.{read_payload, open_public, open_private, open_tx}

module _ (codec : Codec) (tx : Transaction) where
  abbrev pub env_buf : List ℕ
  env_buf = write_envelope codec [] tx.envelope

  abbrev pub payload : List ℕ
  payload = marshal_payload codec tx []

  abbrev pub public_head : List ℕ
  public_head = env_buf ++ payload

  abbrev pub private_head : List ℕ → List ℕ → List ℕ
  private_head proof cipher =
      write_envelope codec [] (record tx.envelope { member_proof = proof }) ++ cipher

module _ (codec : Codec) (crypto : CryptoProvider) (backing : List ℕ) where
  abbrev pub tail : List ℕ
  tail = sealed_tail crypto backing

  pub public_wire-layout :
      (tx : Transaction)
      → public_wire codec crypto backing tx
        ≡ wire tail (env_buf codec tx ++ payload codec tx) tx.data_store []
  unfolding public_wire put_sizes
  public_wire-layout tx =
      let env : List ℕ = env_buf codec tx in
      let rest : List ℕ = payload codec tx in
      let size : 16 + length env + length rest ≡ 16 + length (env ++ rest) =
        omega (arith, length-append env rest) in
      ap (λ n. preamble n (length tx.data_store) tail ++ (env ++ (rest ++ tx.data_store))) size
      ∙ ap (λ t. preamble (16 + length (env ++ rest)) (length tx.data_store) tail ++ t)
          (sym (append_assoc env rest tx.data_store)
            ∙ ap (λ t. (env ++ rest) ++ t) (sym (append-nil tx.data_store)))

  pub private_wire-layout :
      (env : TxEnvelope) (cipher : List ℕ)
      → private_wire codec crypto backing env cipher
        ≡ wire tail (write_envelope codec [] env ++ cipher) [] []
  unfolding private_wire put_sizes
  private_wire-layout env cipher =
      let buf : List ℕ = write_envelope codec [] env in
      let size : 16 + length buf + length cipher ≡ 16 + length (buf ++ cipher) =
        omega (arith, length-append buf cipher) in
      ap (λ n. preamble n 0 tail ++ (buf ++ cipher)) size
      ∙ ap (λ t. preamble (16 + length (buf ++ cipher)) 0 tail ++ t)
          (sym (append-nil (buf ++ cipher)))

-- The bytes between two positions.
cut_out :
    (pre a b post : List ℕ) (p q : ℕ)
    → p ≡ length pre + length a
    → q ≡ p + length b
    → take (q - p) (drop p (pre ++ ((a ++ b) ++ post))) ≡ b
cut_out pre a b post p q hp hq =
    let whole : pre ++ ((a ++ b) ++ post) ≡ (pre ++ a) ++ (b ++ post) =
      ap (λ t. pre ++ t) (append_assoc a b post) ∙ sym (append_assoc pre a (b ++ post)) in
    let start : p ≡ length (pre ++ a) = omega (arith, length-append pre a) in
    let size : q - p ≡ length b = omega arith in
    ap₂ take size (ap₂ drop start whole ∙ drop-append (pre ++ a) (b ++ post)) ∙ take-append b post

-- What SealTx does to a transaction: it sets the proof of the envelope.
abbrev pub with_proof : Transaction → List ℕ → Transaction
with_proof tx proof = record tx { envelope = record tx.envelope { member_proof = proof } }

module _ (codec : Codec) (crypto : CryptoProvider) (signer : List ℕ) (kit : Uid)
    (codec_laws : CodecLaws codec) (laws : CryptoLaws crypto signer kit) (backing : List ℕ)
    (tx : Transaction) (valid : All IsOp tx.ops) (authored : IsAuthored tx)
    (plain_fits : length (payload codec tx) + length tx.data_store < 2 ^ 32)
    (some_sig : 0 < crypto.signature_size) (sig_fits : crypto.signature_size < 2 ^ 16) where
  abbrev pub front_of : List ℕ
  front_of = tail codec crypto backing

  pub open_public_wire :
      (sig : List ℕ) (verify_sig : Bool)
      → is_public tx.envelope ≡ true
      → IsSigned crypto (wire front_of (public_head codec tx) tx.data_store []) sig
      → length (wire front_of (public_head codec tx) tx.data_store sig) < 2 ^ 32
      → open_tx codec
          (some crypto)
          signer
          kit
          verify_sig
          (wire front_of (public_head codec tx) tx.data_store sig)
        ≡ answers (record tx { normalized = false })
  unfolding open_public
  open_public_wire sig verify_sig public signed small =
      let env : List ℕ = env_buf codec tx in
      let rest : List ℕ = payload codec tx in
      let sizes =
        sealed_sizes codec crypto signer kit laws backing (public_head codec tx) tx.data_store sig
          signed some_sig sig_fits small in
      let both = length-append env rest in
      let first = read_envelope-write codec codec_laws tx.envelope rest (omega (arith, sizes)) in
      let second : read_payload codec rest 0 ≡ done (tx.header, map wire_op tx.ops, length rest) =
        ap (λ t. read_payload codec t 0) (sym (append-nil rest))
        ∙ read_payload-marshal codec codec_laws tx [] [] valid (omega arith) in
      let store =
        wire-data_behind front_of (public_head codec tx) tx.data_store sig
          (length-sealed_tail crypto backing) sizes.0 sizes.1 in
      open_tx-sealed codec crypto signer kit laws backing (public_head codec tx) tx.data_store sig
        signed some_sig sig_fits small verify_sig
      ∙ rw (first, public, drop-append env rest, second, store)
          (ap answers (restored-authored tx authored))

  pub open_private_wire :
      (proof cipher sig : List ℕ) (verify_sig : Bool)
      → is_public tx.envelope ≡ false
      → crypto.encrypt_payload (payload codec tx ++ tx.data_store) tx.envelope ≡ answers cipher
      → IsSigned crypto (wire front_of (private_head codec tx proof cipher) [] []) sig
      → length (wire front_of (private_head codec tx proof cipher) [] sig) < 2 ^ 32
      → open_tx codec
          (some crypto)
          signer
          kit
          verify_sig
          (wire front_of (private_head codec tx proof cipher) [] sig)
        ≡ answers (record (with_proof tx proof) { normalized = false })
  unfolding open_private is_public
  open_private_wire proof cipher sig verify_sig private encrypted signed small =
      let env : List ℕ = write_envelope codec [] (with_proof tx proof).envelope in
      let rest : List ℕ = payload codec tx in
      let ds : List ℕ = tx.data_store in
      let cov : List ℕ = wire front_of (private_head codec tx proof cipher) [] [] in
      let four = length-sealed_tail crypto backing in
      let sizes =
        sealed_sizes codec crypto signer kit laws backing (private_head codec tx proof cipher) []
          sig signed some_sig sig_fits small in
      let whole =
        length-sealed codec crypto signer kit laws backing (private_head codec tx proof cipher) []
          sig signed some_sig sig_fits small in
      let both = length-append env cipher in
      let start =
        length-front front_of (private_head codec tx proof cipher) [] sig four sizes.0 sizes.1 in
      let stop = length_of_wire front_of (private_head codec tx proof cipher) [] [] four in
      let first =
        read_envelope-write codec codec_laws (with_proof tx proof).envelope cipher
          (omega (arith, sizes)) in
      let inside : (ltb (length (wire front_of (private_head codec tx proof cipher) [] sig))
              (length cov)
            || ltb (length cov) (16 + length env))
          ≡ false =
        ground arith in
      let cut : take (length cov - (16 + length env))
            (drop (16 + length env) (wire front_of (private_head codec tx proof cipher) [] sig))
          ≡ cipher =
        cut_out (front front_of (private_head codec tx proof cipher) [] sig) env cipher sig
          (16 + length env) (length cov) (omega arith) (omega arith) in
      let opened_text =
        laws.decrypt_payload (rest ++ ds) cipher proof tx.envelope private encrypted in
      let second = read_payload-marshal codec codec_laws tx [] ds valid (omega arith) in
      open_tx-sealed codec crypto signer kit laws backing (private_head codec tx proof cipher) []
        sig signed some_sig sig_fits small verify_sig
      ∙ rw (first, private, inside, cut, opened_text, second, drop-append rest ds)
          (ap answers (restored-authored (with_proof tx proof) authored))
