-- ===== src/Amp/Quorum.antt =====
-- amp/amp.support.rekey.go: VerifyCoSignatureQuorum. The check of one signature by safe.VerifySignature is
-- a parameter.
pub mod Steps
pub mod Sound
pub mod Complete
mod Tests
use amp_sdk.Base.{
  ℕ, zero, suc, Bool, true, false, ◌||◌, List, [], ◌∷◌, ◌++◌, Option, none, some, length, ltb, leb,
  if◌then◌else◌,
}
use amp_sdk.Base.Int.{ℤ, pos, negsuc}
use amp_sdk.Tag.Uid.{Uid}
use amp_sdk.Tag.Uid.{same_uid}

pub record CoSignature : Type 0 where
  pub member_tag : Option Uid
  pub signature : List ℕ

-- `seen[id]`
unfoldable pub has_uid : Uid → List Uid → Bool
has_uid id [] = false
has_uid id (x ∷ xs) = same_uid x id || has_uid id xs

abbrev pub is_empty : List ℕ → Bool
is_empty [] = true
is_empty (b ∷ bytes) = false

-- `required <= 0` asks for every declared signer, and at least one is asked for.
unfoldable pub quorum_size : ℤ → ℕ → ℕ
quorum_size (negsuc n) signers = if ltb signers 1 then 1 else signers
quorum_size (pos zero) signers = if ltb signers 1 then 1 else signers
quorum_size (pos (suc n)) signers = suc n

-- `none` is an error.
abbrev pub enough : ℕ → Option (List Uid) → Option (List Uid)
enough size none = none
enough size (some verified) = if ltb (length verified) size then none else some verified

abbrev pub when_named : {A : Type 0} → Option Uid → A → (Uid → A) → A
when_named none skipped k = skipped
when_named (some id) skipped k = k id

abbrev pub when_declared : {K : Type 0} → Option K → (K → Option (List Uid)) → Option (List Uid)
when_declared none k = none
when_declared (some key) k = k key

-- `signerKeys map[tag.UID]safe.PubKey`
unfoldable pub find_key : {K : Type 0} → Uid → List (Uid × K) → Option K
find_key id [] = none
find_key id ((x, key) ∷ keys) = if same_uid x id then some key else find_key id keys

module _ {K : Type 0} (verify : K → List ℕ → List ℕ → Bool) where
  -- The loop over the signatures, with the signers that are verified so far.
  unfoldable pub collect :
      List (Uid × K) → List ℕ → List Uid → List (Option CoSignature) → Option (List Uid)
  collect keys digest verified [] = some verified
  collect keys digest verified (none ∷ rest) = collect keys digest verified rest
  collect keys digest verified (some cosig ∷ rest) =
      let skipped = collect keys digest verified rest in
      when_named cosig.member_tag skipped λ id.
        let counted = collect keys digest (verified ++ id ∷ []) rest in
        when_declared (find_key id keys) λ key.
          if has_uid id verified
          then skipped
          else if is_empty cosig.signature
          then none
          else if verify key cosig.signature digest
          then counted
          else none

  unfoldable pub verify_quorum :
      List (Option CoSignature) → List ℕ → List (Uid × K) → ℤ → Option (List Uid)
  verify_quorum signatures digest keys required =
      enough (quorum_size required (length keys)) (collect keys digest [] signatures)
