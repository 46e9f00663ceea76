-- ===== src/Amp/Open/Inversion.antt =====
-- What SealTx has done where it answers with a provider.
use amp_sdk.Base.{ℕ, ◌≡◌, sym, ap, ◌∙◌}
use amp_sdk.Base.{List, [], ◌++◌, some, Bool, true, false, Bool-cases, ◌⊎◌, inl, inr, if◌then◌else◌}
use amp_sdk.Amp.Seal.{
  Answer, TxEnvelope, Transaction, Codec, CryptoProvider, is_public, member_proof_input, sign_wire,
  public_wire, private_wire, seal_public, seal_private, seal_tx,
}
use amp_sdk.Amp.Seal.Answer.{answers}
use amp_sdk.Amp.Open.Preamble.{wire, wire-append}
use amp_sdk.Amp.Open.Signed.{bind-answers, answers-injective, IsSigned, sign_wire-IsSigned}
use amp_sdk.Amp.Open.Sealed.{
  payload, tail, public_head, private_head, public_wire-layout, private_wire-layout, with_proof,
}

-- What SealTx answers: the bytes of a head and a store with their signature, for a transaction whose
-- envelope may have been given its proof.
module _ (codec : Codec) (crypto : CryptoProvider) (backing : List ℕ) (tx : Transaction) where
  abbrev pub IsPublicWire : List ℕ → Transaction → List ℕ → Type 0
  IsPublicWire bytes out sig =
      (is_public tx.envelope ≡ true)
      × (out ≡ tx)
      × (bytes ≡ wire (tail codec crypto backing) (public_head codec tx) tx.data_store sig)
      × IsSigned crypto (wire (tail codec crypto backing) (public_head codec tx) tx.data_store [])
          sig

  sign_whole :
      (head store whole : List ℕ)
      → sign_wire crypto (wire (tail codec crypto backing) head store []) ≡ answers whole
      → (sig : List ℕ) × (whole ≡ wire (tail codec crypto backing) head store sig)
        × IsSigned crypto (wire (tail codec crypto backing) head store []) sig
  sign_whole head store whole h =
      let (sig, e, signed) = sign_wire-IsSigned crypto _ whole h in
      (sig, e ∙ wire-append (tail codec crypto backing) head store sig, signed)

  seal_public-IsPublicWire :
      (bytes : List ℕ) (out : Transaction)
      → is_public tx.envelope ≡ true
      → seal_public codec crypto backing tx ≡ answers (bytes, out)
      → (sig : List ℕ) × IsPublicWire bytes out sig
  unfolding seal_public
  seal_public-IsPublicWire bytes out public h =
      let (whole, h1, h2) =
        bind-answers (sign_wire crypto (public_wire codec crypto backing tx)) _ (bytes, out) h in
      let same = answers-injective (whole, tx) (bytes, out) h2 in
      let (sig, e, signed) =
        sign_whole (public_head codec tx) tx.data_store whole
          (ap (sign_wire crypto) (sym (public_wire-layout codec crypto backing tx)) ∙ h1) in
      (
        sig,
        (
          public,
          sym (ap (λ (p : List ℕ × Transaction). p.1) same),
          sym (ap (λ (p : List ℕ × Transaction). p.0) same) ∙ e,
          signed,
        ),
      )

  abbrev pub IsPrivateWire : List ℕ → Transaction → List ℕ → List ℕ → List ℕ → Type 0
  IsPrivateWire bytes out proof cipher sig =
      (is_public tx.envelope ≡ false)
      × (out ≡ with_proof tx proof)
      × (bytes ≡ wire (tail codec crypto backing) (private_head codec tx proof cipher) [] sig)
      × IsSigned crypto
          (wire (tail codec crypto backing) (private_head codec tx proof cipher) [] []) sig
      × (crypto.encrypt_payload (payload codec tx ++ tx.data_store) tx.envelope ≡ answers cipher)

  seal_private-IsPrivateWire :
      (bytes : List ℕ) (out : Transaction)
      → is_public tx.envelope ≡ false
      → seal_private codec crypto backing tx ≡ answers (bytes, out)
      → (proof : List ℕ) × (cipher : List ℕ) × (sig : List ℕ) × IsPrivateWire bytes out proof cipher
          sig
  unfolding seal_private
  seal_private-IsPrivateWire bytes out private h =
      let (cipher, h1, k1) =
        bind-answers (crypto.encrypt_payload (payload codec tx ++ tx.data_store) tx.envelope) _
          (bytes, out) h in
      let (proof, h2, k2) =
        bind-answers (crypto.compute_member_proof (member_proof_input tx.envelope) tx.envelope) _
          (bytes, out) k1 in
      let env : TxEnvelope = (with_proof tx proof).envelope in
      let (whole, h3, k3) =
        bind-answers (sign_wire crypto (private_wire codec crypto backing env cipher)) _
          (bytes, out) k2 in
      let same = answers-injective (whole, with_proof tx proof) (bytes, out) k3 in
      let (sig, e, signed) =
        sign_whole (private_head codec tx proof cipher) [] whole (
          ap (sign_wire crypto) (sym (private_wire-layout codec crypto backing env cipher)) ∙ h3) in
      (
        proof,
        cipher,
        sig,
        (
          private,
          sym (ap (λ (p : List ℕ × Transaction). p.1) same),
          sym (ap (λ (p : List ℕ × Transaction). p.0) same) ∙ e,
          signed,
          h1,
        ),
      )

  pub seal_tx-cases :
      (bytes : List ℕ) (out : Transaction)
      → seal_tx codec (some crypto) backing tx ≡ answers (bytes, out)
      → ((sig : List ℕ) × IsPublicWire bytes out sig)
        ⊎ ((proof : List ℕ) × (cipher : List ℕ) × (sig : List ℕ) × IsPrivateWire bytes out proof
              cipher sig)
  unfolding seal_tx
  seal_tx-cases bytes out h = elim (Bool-cases (is_public tx.envelope)) [
    | inl public ↦ inl (seal_public-IsPublicWire bytes out public (ap choose (sym public) ∙ h))
    | inr private ↦ inr (seal_private-IsPrivateWire bytes out private (ap choose (sym private) ∙ h))
  ]
    where
      choose : Bool → Answer (List ℕ × Transaction)
      choose b =
          if b then seal_public codec crypto backing tx else seal_private codec crypto backing tx
