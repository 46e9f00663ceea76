-- ===== src/Amp/Rekey.antt =====
-- amp/amp.support.rekey.go: the digest and the quorum of a member's re-key, and the did:key fold. The
-- hash of the planet's policy and the hash of a name are parameters.
pub mod Parts
pub mod Gate
mod Tests
use amp_sdk.Base.{
  ℕ, zero, suc, ◌+◌, ◌-◌, ◌*◌, ◌/◌, ◌%◌, ◌^◌, Bool, true, false, not, ◌&&◌, ◌||◌, List, [], ◌∷◌,
  ◌++◌, Option, none, some,
}
use amp_sdk.Base.{length, get_or, drop, ◌==◌, if◌then◌else◌}
use amp_sdk.Base.Int.{ℤ}
use amp_sdk.Tag.Uid.{Uid, nil, is_nil, append_to}
use amp_sdk.Tag.Uid.Base32.{codes}
use amp_sdk.Tag.Uid.{same_uid}
use amp_sdk.Amp.Wire.{put_uvarint}
use amp_sdk.Safe.Sign.{signing_digest}
use amp_sdk.Amp.Quorum.{CoSignature, verify_quorum}
use amp_sdk.Amp.Member.{KeyRef, has_bytes}

-- The parts of a MemberEpoch that a re-key reads.
pub record ReKey : Type 0 where
  pub member_tag : Option Uid
  pub active : Bool
  pub prior : Option KeyRef
  pub signing_key : Option KeyRef
  pub encrypt_key : Option KeyRef
  pub cosignatures : List (Option CoSignature)

-- `reKeyFramePart`: `none` is an error.
unfoldable pub frame_part : Option KeyRef → Option (List ℕ)
frame_part none = none
frame_part (some ref) =
    if has_bytes ref.pub_key then some (append_to ref.kit [] ++ ref.pub_key) else none

abbrev pub with_part : {A : Type 0} {B : Type 0} → Option A → (A → Option B) → Option B
with_part none k = none
with_part (some part) k = k part

abbrev pub is_listed : List (Option CoSignature) → Bool
is_listed [] = false
is_listed (c ∷ cs) = true

-- The count of leading zero bytes.
unfoldable pub leading_zeros : List ℕ → ℕ
leading_zeros [] = 0
leading_zeros (b ∷ bytes) = let rest = leading_zeros bytes in if b == 0 then rest + 1 else 0

-- The digits of a carry, lowest first, on fuel: a carry below 58 ^ fuel is written whole.
unfoldable pub carry_digits : ℕ → ℕ → List ℕ
carry_digits zero carry = []
carry_digits (suc fuel) carry =
    let rest = carry_digits fuel (carry / 58) in if carry == 0 then [] else carry % 58 ∷ rest

-- One byte goes in below the digits, lowest digit first. A carry stays below 15104.
unfoldable pub add_byte : List ℕ → ℕ → List ℕ
add_byte [] carry = carry_digits 3 carry
add_byte (d ∷ digits) carry = (carry + d * 2 ^ 8) % 58 ∷ add_byte digits ((carry + d * 2 ^ 8) / 58)

unfoldable pub add_bytes : List ℕ → List ℕ → List ℕ
add_bytes digits [] = digits
add_bytes digits (b ∷ bytes) = add_bytes (add_byte digits b) bytes

abbrev pub base58_alphabet : List ℕ
base58_alphabet = codes "123456789ABCDEFGHJKLMNPQRSTUVWXYZabcdefghijkmnopqrstuvwxyz"

unfoldable pub ones : ℕ → List ℕ
ones zero = []
ones (suc n) = get_or base58_alphabet 0 0 ∷ ones n

-- The digits, highest first, as characters.
unfoldable pub spell_digits : List ℕ → List ℕ
spell_digits [] = []
spell_digits (d ∷ digits) = spell_digits digits ++ get_or base58_alphabet d 0 ∷ []

unfoldable pub base58_encode : List ℕ → List ℕ
base58_encode raw =
    ones (leading_zeros raw) ++ spell_digits (add_bytes [] (drop (leading_zeros raw) raw))

-- SigningDomain_MemberReKey, "amp.sig.rekey.v1".
abbrev pub member_rekey : List ℕ
member_rekey =
    0x61 ∷ 0x6D ∷ 0x70 ∷ 0x2E ∷ 0x73 ∷ 0x69 ∷ 0x67 ∷ 0x2E ∷ 0x72 ∷ 0x65 ∷ 0x6B ∷ 0x65 ∷ 0x79 ∷ 0x2E
    ∷ 0x76 ∷ 0x31 ∷ []

module _ (hash_kit : Option (List ℕ → List ℕ)) (hash_name : List ℕ → Uid) (poly_kit : Uid) where
  -- `DIDKeyUID`: `none` where the kit has no did:key form.
  unfoldable pub did_key_uid : Uid → List ℕ → Option Uid
  did_key_uid kit pub_key =
      if not (same_uid kit poly_kit) || not (length pub_key == 32)
      then none
      else some (hash_name (codes "did:key:z" ++ base58_encode (put_uvarint 0xED ++ pub_key)))

  abbrev pub is_fold : Option Uid → Uid → Bool
  is_fold none member = false
  is_fold (some id) member = same_uid id member

  -- The member's identity is the fold of the key that is retired.
  unfoldable pub retires_own_fold : ReKey → Bool
  retires_own_fold me = elim me.member_tag [
    | none ↦ false
    | some member ↦ elim me.prior [
      | none ↦ false
      | some ref ↦ is_fold (did_key_uid ref.kit ref.pub_key) member
    ]
  ]

  -- `ReKeyCoSignatureDigest`
  unfoldable pub rekey_digest : Uid → ReKey → Option (List ℕ)
  rekey_digest planet me = with_part me.member_tag λ member.
      let framed = with_part (frame_part me.prior) λ prior.
        with_part (frame_part me.signing_key) λ new_signing.
          with_part (frame_part me.encrypt_key) λ new_encrypt.
            signing_digest hash_kit member_rekey (
              append_to planet [] ∷ append_to member [] ∷ prior ∷ new_signing ∷ new_encrypt ∷ []) in
      if is_nil member || is_nil planet then none else framed

  -- `VerifyReKeyQuorum`
  unfoldable pub verify_rekey :
      {K : Type 0}
      → (K → List ℕ → List ℕ → Bool)
      → Uid
      → List (Uid × K)
      → ℤ
      → ReKey
      → Option (List Uid)
  verify_rekey verify planet founders required me =
      let checked =
        with_part (rekey_digest planet me)
          λ digest. verify_quorum verify me.cosignatures digest founders required in
      if not (is_listed me.cosignatures)
      then none
      else if not me.active
      then none
      else if retires_own_fold me
      then none
      else checked
