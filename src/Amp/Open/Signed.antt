-- ===== src/Amp/Open/Signed.antt =====
-- The signature of a sealed transaction: what SealTx signs is what openTx and TxSignedDigest find.
use amp_sdk.Base.{ℕ, ◌+◌, ◌^◌, ◌≤◌, ◌<◌, ◌≡◌, refl, sym, ap, ◌∙◌, arith}
use amp_sdk.Base.{
  List, [], ◌∷◌, ◌++◌, Option, none, some, Bool, true, false, not, ◌||◌, length, take, drop,
  length-append, length-drop, take-append, drop-append, ltb, if◌then◌else◌,
}
use amp_sdk.Base.Bytes.{put_be, be_value, be_value-put_be, length-put_be}
use amp_sdk.Tag.Uid.{Uid}
use amp_sdk.Safe.Sign.{signing_parts, signing_digest, concat}
use amp_sdk.Amp.Tx.{Result, tx_sig_offset}
use amp_sdk.Amp.Tx.Signature.{tx_sig_offset_iff}
use amp_sdk.Amp.Seal.{
  Answer, ◌>>=◌, or_refuse, Codec, CryptoProvider, CryptoLaws, tx_author, scratch, sign_wire,
  is_public,
}
use amp_sdk.Amp.Seal.Answer.{answers, refuses, panics, unfinished}
use amp_sdk.Amp.Seal.SealError.{no_digest}
use amp_sdk.Amp.Seal.Layout.{length-scratch}
use amp_sdk.Amp.Open.Preamble.{wire, length_of_wire, wire-append, wire-head_body, wire-is_accepted}
use amp_sdk.Amp.Open.{
  head_body, is_signed_preamble, read_envelope, verify_wire, open_public, open_private, open_sealed,
  open_tx, of_read, tx_signed_digest,
}

-- What stands behind a step that answers.
pub bind-answers :
    {A : Type 0} {B : Type 0} (r : Answer A) (f : A → Answer B) (b : B)
    → (r >>= f) ≡ answers b
    → (a : A) × (r ≡ answers a) × (f a ≡ answers b)
bind-answers (answers a) f b h = (a, refl, h)
bind-answers (refuses e) f b h = absurd (grind arith)
bind-answers panics f b h = absurd (grind arith)
bind-answers unfinished f b h = absurd (grind arith)

pub answers-injective : {A : Type 0} (a b : A) → answers a ≡ answers b → a ≡ b
answers-injective a b h = grind arith

or_refuse-answers :
    {A : Type 0} (o : Option A) (a : A) → or_refuse no_digest o ≡ answers a → o ≡ some a
or_refuse-answers none a h = absurd (grind arith)
or_refuse-answers (some x) a h = grind arith

-- The signature of some bytes, and how it came about.
abbrev pub IsSigned : CryptoProvider → List ℕ → List ℕ → Type 0
IsSigned crypto bytes sig =
    (framed : List (List ℕ)) × (digest : List ℕ) × (signing_parts tx_author (bytes ∷ [])
      ≡ some framed)
    × (crypto.hash_digest framed ≡ answers digest)
    × (crypto.sign_digest digest ≡ answers sig)

pub sign_wire-IsSigned :
    (crypto : CryptoProvider) (bytes whole : List ℕ)
    → sign_wire crypto bytes ≡ answers whole
    → (sig : List ℕ) × (whole ≡ bytes ++ sig) × IsSigned crypto bytes sig
unfolding sign_wire
sign_wire-IsSigned crypto bytes whole h =
    let (framed, h1, rest1) =
      bind-answers (or_refuse no_digest (signing_parts tx_author (bytes ∷ []))) _ whole h in
    let (digest, h2, rest2) = bind-answers (crypto.hash_digest framed) _ whole rest1 in
    let (sig, h3, rest3) = bind-answers (crypto.sign_digest digest) _ whole rest2 in
    (sig, grind arith, (framed, digest, or_refuse-answers _ framed h1, h2, h3))

-- The sixteen bytes of a sealed transaction's preamble, behind its two lengths.
abbrev pub sealed_tail : CryptoProvider → List ℕ → List ℕ
sealed_tail crypto backing = put_be 2 crypto.signature_size ++ drop 14 (scratch 2048 backing)

pub length-sealed_tail :
    (crypto : CryptoProvider) (backing : List ℕ) → length (sealed_tail crypto backing) ≡ 4
length-sealed_tail crypto backing = omega (
  arith,
  length-append (put_be 2 crypto.signature_size) (drop 14 (scratch 2048 backing)),
  length-put_be 2 crypto.signature_size,
  length-drop 14 (scratch 2048 backing),
  length-scratch 2048 backing (omega arith),
)

module _ (codec : Codec) (crypto : CryptoProvider) (signer : List ℕ) (kit : Uid)
    (laws : CryptoLaws crypto signer kit) (backing head store sig : List ℕ) where
  abbrev covered : List ℕ
  covered = wire (sealed_tail crypto backing) head store []

  abbrev sealed : List ℕ
  sealed = wire (sealed_tail crypto backing) head store sig

  states_size :
      crypto.signature_size < 2 ^ 16 → be_value (take 2 (drop 12 sealed)) ≡ crypto.signature_size
  unfolding put_be
  states_size fits = be_value-put_be 2 crypto.signature_size fits

  module _ (signed : IsSigned crypto covered sig) (some_sig : 0 < crypto.signature_size)
      (sig_fits : crypto.signature_size < 2 ^ 16) (small : length sealed < 2 ^ 32) where
    size_of_sig : length sig ≡ crypto.signature_size
    size_of_sig = laws.signature_size signed.1 sig signed.4

    whole : covered ++ sig ≡ sealed
    whole = wire-append (sealed_tail crypto backing) head store sig

    pub length-sealed : length sealed ≡ length covered + length sig
    length-sealed = sym (ap length whole) ∙ length-append covered sig

    pub sealed_sizes : (16 + length head < 2 ^ 32) × (length store < 2 ^ 32) × (16 ≤ length covered)
    sealed_sizes =
        let four = length-sealed_tail crypto backing in
        let one = length_of_wire (sealed_tail crypto backing) head store sig four in
        let two = length_of_wire (sealed_tail crypto backing) head store [] four in
        (omega arith, omega arith, omega arith)

    sig_offset : tx_sig_offset sealed ≡ Result.ok (length covered)
    sig_offset = (tx_sig_offset_iff sealed (length covered)).1 (
      sealed_sizes.2,
      omega (arith, length-sealed, size_of_sig),
      omega (arith, length-sealed, size_of_sig, states_size sig_fits),
    )

    front_part : take (length covered) sealed ≡ covered
    front_part = ap (take (length covered)) (sym whole) ∙ take-append covered sig

    last_part : drop (length covered) sealed ≡ sig
    last_part = ap (drop (length covered)) (sym whole) ∙ drop-append covered sig

    verified : verify_wire crypto signer kit sealed (length covered) ≡ answers tt
    unfolding verify_wire
    verified =
        rw (front_part, last_part, signed.2, signed.3) (laws.verify_digest signed.1 sig signed.4)

    four : length (sealed_tail crypto backing) ≡ 4
    four = length-sealed_tail crypto backing

    accepted : (ltb (length sealed) 16 || not (is_signed_preamble sealed)) ≡ false
    accepted =
        wire-is_accepted (sealed_tail crypto backing) head store sig four sealed_sizes.0
          sealed_sizes.1

    found : head_body sealed ≡ some head
    found =
        wire-head_body (sealed_tail crypto backing) head store sig four sealed_sizes.0
          sealed_sizes.1

    -- The part of openTx behind the signature.
    pub open_tx-sealed :
        (verify_sig : Bool)
        → open_tx codec (some crypto) signer kit verify_sig sealed ≡ (
            of_read (read_envelope codec head 0) >>= λ env.
            if is_public env.0
            then open_public codec sealed head env.0 env.1
            else open_private codec crypto sealed env.0 env.1 (length covered))
    unfolding open_tx open_sealed
    open_tx-sealed false = rw (accepted, found, sig_offset) refl
    open_tx-sealed true = rw (accepted, found, sig_offset, verified) refl

    -- The digest that a verifier computes under a hash, where the provider computes its digests so.
    pub tx_signed_digest-sealed :
        (hash : List ℕ → List ℕ)
        → ((framed : List (List ℕ)) → crypto.hash_digest framed ≡ answers (hash (concat framed)))
        → tx_signed_digest (some hash) sealed ≡ answers (signed.1, sig)
    unfolding tx_signed_digest signing_digest
    tx_signed_digest-sealed hash same =
        let one : answers signed.1 ≡ answers (hash (concat signed.0)) =
          sym signed.3 ∙ same signed.0 in
        let agreed : hash (concat signed.0) ≡ signed.1 = grind arith in
        rw (sig_offset, front_part, last_part, signed.2, agreed) refl
