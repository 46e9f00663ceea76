-- ===== src/Amp/Rekey/Gate.antt =====
-- What VerifyReKeyQuorum lets through.
use amp_sdk.Base.{
  ℕ, ◌≡◌, refl, sym, ◌∙◌, subst, Bool, true, false, not, ◌&&◌, ◌||◌, List, [], ◌∷◌, Option, some,
  length, ◌==◌, Bool-cases, inl, inr,
}
use amp_sdk.Base.Int.{ℤ}
use amp_sdk.Tag.Uid.{Uid, is_nil, same_uid, append_to}
use amp_sdk.Safe.Sign.{signing_digest}
use amp_sdk.Amp.Wire.{put_uvarint, put_uvarint_loop}
use amp_sdk.Amp.Member.{KeyRef, has_bytes}
use amp_sdk.Amp.Epoch.Passing.{or-false}
use amp_sdk.Amp.Quorum.Sound.{IsQuorum, verify_quorum-IsQuorum}
use amp_sdk.Amp.Rekey.{
  ReKey, is_listed, frame_part, did_key_uid, is_fold, member_rekey, retires_own_fold, rekey_digest,
  verify_rekey,
}
use amp_sdk.Amp.Rekey.Parts.{
  key_bytes, did_key, with_part-some, unless-some, not-false, frame_part-some,
}

module _ (hash_kit : Option (List ℕ → List ℕ)) (hash_name : List ℕ → Uid) (poly_kit : Uid) where
  module _ {K : Type 0} (verify : K → List ℕ → List ℕ → Bool) (planet : Uid)
      (founders : List (Uid × K)) (required : ℤ) where
    -- What an accepted re-key has: it makes the member active; planet and member are named; the retired
    -- key is not an Ed25519 key whose did:key the member is; and the co-signatures are a quorum of the
    -- founders over the digest of the planet, the member and the three keys, under the domain.
    pub record IsAccepted (me : ReKey) (ids : List Uid) : Type 0 where
      pub member : Uid
      pub prior : KeyRef
      pub signing_key : KeyRef
      pub encrypt_key : KeyRef
      pub digest : List ℕ
      pub reinstates : me.active ≡ true
      pub names_member : me.member_tag ≡ some member
      pub names_prior : me.prior ≡ some prior
      pub names_signing_key : me.signing_key ≡ some signing_key
      pub names_encrypt_key : me.encrypt_key ≡ some encrypt_key
      pub has_member : is_nil member ≡ false
      pub has_planet : is_nil planet ≡ false
      pub has_prior : has_bytes prior.pub_key ≡ true
      pub has_signing_key : has_bytes signing_key.pub_key ≡ true
      pub has_encrypt_key : has_bytes encrypt_key.pub_key ≡ true
      pub is_not_fold :
          (same_uid prior.kit poly_kit
            && (length prior.pub_key == 32)
            && same_uid (did_key hash_name prior.pub_key) member)
          ≡ false
      pub is_digest :
          signing_digest hash_kit member_rekey (
            append_to planet []
            ∷ append_to member []
            ∷ key_bytes prior
            ∷ key_bytes signing_key
            ∷ key_bytes encrypt_key
            ∷ [])
          ≡ some digest
      pub quorum : IsQuorum verify founders digest required me.cosignatures (some ids)

    is_fold-did_key :
        (kit : Uid) (pub_key : List ℕ) (member : Uid)
        → is_fold hash_kit hash_name poly_kit
            (did_key_uid hash_kit hash_name poly_kit kit pub_key)
            member
          ≡ (same_uid kit poly_kit
              && (length pub_key == 32)
              && same_uid (did_key hash_name pub_key) member)
    unfolding did_key_uid put_uvarint put_uvarint_loop
    is_fold-did_key kit pub_key member = elim (Bool-cases (same_uid kit poly_kit)) [
      | inl same ↦ elim (Bool-cases (length pub_key == 32)) [
        | inl long ↦ rw (same, long) refl
        | inr short ↦ rw (same, short) refl
      ]
      | inr other ↦ rw other refl
    ]

    not_fold :
        (me : ReKey) (member : Uid) (prior : KeyRef)
        → me.member_tag ≡ some member
        → me.prior ≡ some prior
        → retires_own_fold hash_kit hash_name poly_kit me ≡ false
        → (same_uid prior.kit poly_kit
            && (length prior.pub_key == 32)
            && same_uid (did_key hash_name prior.pub_key) member)
          ≡ false
    unfolding retires_own_fold
    not_fold me member prior hm hp h =
        let asked : retires_own_fold hash_kit hash_name poly_kit me
            ≡ is_fold hash_kit hash_name poly_kit
                (did_key_uid hash_kit hash_name poly_kit prior.kit prior.pub_key) member =
          rw (hm, hp) refl in
        sym (is_fold-did_key prior.kit prior.pub_key member) ∙ sym asked ∙ h

    -- The parts of a digest.
    abbrev IsFramed : ReKey → List ℕ → Uid → KeyRef → KeyRef → KeyRef → Type 0
    IsFramed me digest member prior signing encrypt =
        (me.member_tag ≡ some member)
        × (is_nil member ≡ false)
        × (is_nil planet ≡ false)
        × (me.prior ≡ some prior)
        × (has_bytes prior.pub_key ≡ true)
        × (me.signing_key ≡ some signing)
        × (has_bytes signing.pub_key ≡ true)
        × (me.encrypt_key ≡ some encrypt)
        × (has_bytes encrypt.pub_key ≡ true)
        × (signing_digest hash_kit member_rekey (
              append_to planet []
              ∷ append_to member []
              ∷ key_bytes prior
              ∷ key_bytes signing
              ∷ key_bytes encrypt
              ∷ [])
            ≡ some digest)

    rekey_digest-IsFramed :
        (me : ReKey) (digest : List ℕ)
        → rekey_digest hash_kit hash_name poly_kit planet me ≡ some digest
        → (member : Uid) × (prior : KeyRef) × (signing : KeyRef) × (encrypt : KeyRef) × (IsFramed me
            digest member prior signing encrypt)
    unfolding rekey_digest
    rekey_digest-IsFramed me digest h =
        let (member, tagged, h4) = with_part-some me.member_tag _ digest h in
        let (named, h5) = unless-some (is_nil member || is_nil planet) _ digest h4 in
        let (part1, framed1, h6) = with_part-some (frame_part me.prior) _ digest h5 in
        let (part2, framed2, h7) = with_part-some (frame_part me.signing_key) _ digest h6 in
        let (part3, framed3, made) = with_part-some (frame_part me.encrypt_key) _ digest h7 in
        let (prior, at1, filled1, e1) = frame_part-some me.prior part1 framed1 in
        let (signing, at2, filled2, e2) = frame_part-some me.signing_key part2 framed2 in
        let (encrypt, at3, filled3, e3) = frame_part-some me.encrypt_key part3 framed3 in
        let (some_member, some_planet) = or-false (is_nil member) (is_nil planet) named in
        let parts : List ℕ → List ℕ → List ℕ → Option (List ℕ) = λ x y z.
          signing_digest hash_kit member_rekey
            (append_to planet [] ∷ append_to member [] ∷ x ∷ y ∷ z ∷ []) in
        let same : parts (key_bytes prior) (key_bytes signing) (key_bytes encrypt)
            ≡ parts part1 part2 part3 =
          λ i. parts (sym e1 i) (sym e2 i) (sym e3 i) in
        (
          member,
          prior,
          signing,
          encrypt,
          (tagged, some_member, some_planet, at1, filled1, at2, filled2, at3, filled3, same ∙ made),
        )

    -- VerifyReKeyQuorum accepts only a record that makes the member active, and that names its member, the
    -- retired key and the two new ones, all with bytes. The member is not the fold of the retired key: that
    -- is not a key of 32 bytes of the kit Poly25519 whose did:key URI hashes to the member. The signers are a
    -- quorum of distinct founders over the digest, under SigningDomain_MemberReKey, of the planet, the
    -- member and the kits and bytes of the three keys; neither planet nor member is nil.
    pub verify_rekey-IsAccepted :
        (me : ReKey) (ids : List Uid)
        → verify_rekey hash_kit hash_name poly_kit verify planet founders required me ≡ some ids
        → IsAccepted me ids
    unfolding verify_rekey
    verify_rekey-IsAccepted me ids h =
        let (listed, h1) = unless-some (not (is_listed me.cosignatures)) _ ids h in
        let (active, h2) = unless-some (not me.active) _ ids h1 in
        let (fold, h3) = unless-some (retires_own_fold hash_kit hash_name poly_kit me) _ ids h2 in
        let (digest, framed, checked) =
          with_part-some (rekey_digest hash_kit hash_name poly_kit planet me) _ ids h3 in
        let (member, prior, signing, encrypt, parts) = rekey_digest-IsFramed me digest framed in
        record {
          member = member;
          prior = prior;
          signing_key = signing;
          encrypt_key = encrypt;
          digest = digest;
          reinstates = not-false me.active active;
          names_member = parts.0;
          has_member = parts.1;
          has_planet = parts.2;
          names_prior = parts.3;
          has_prior = parts.4;
          names_signing_key = parts.5;
          has_signing_key = parts.6;
          names_encrypt_key = parts.7;
          has_encrypt_key = parts.8;
          is_digest = parts.9;
          is_not_fold = not_fold me member prior parts.0 parts.3 fold;
          quorum =
              subst (IsQuorum verify founders digest required me.cosignatures) checked
                (verify_quorum-IsQuorum verify founders digest required me.cosignatures);
        }
