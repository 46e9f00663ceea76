-- ===== src/Amp/Quorum/Tests.antt =====
-- The quorum theorems at two signers, whose signatures are the digest after their key.
use amp_sdk.Base.{
  ℕ, ◌≡◌, refl, Bool, false, ◌&&◌, List, [], ◌∷◌, map, none, some, length, ltb, ◌==◌, if◌then◌else◌,
}
use amp_sdk.Base.Int.{pos}
use amp_sdk.Tag.Uid.{Uid}
use amp_sdk.Tag.Uid.{same_uid}
use amp_sdk.Amp.Quorum.{CoSignature, quorum_size, verify_quorum, find_key, has_uid}
use amp_sdk.Amp.Quorum.Sound.{IsQuorum, verify_quorum-IsQuorum}
use amp_sdk.Amp.Quorum.Complete.{AreValid, verify_quorum-valid}

abbrev uid : ℕ → Uid
uid n = record { w0 = 0; w1 = n }

abbrev verify : ℕ → List ℕ → List ℕ → Bool
verify key [] digest = false
verify key (b ∷ bytes) digest = b == key && length bytes == length digest

abbrev keys : List (Uid × ℕ)
keys = (uid 1, 11) ∷ (uid 2, 12) ∷ (uid 3, 13) ∷ []

abbrev signed : ℕ → ℕ → CoSignature
signed n key = record { member_tag = some (uid n); signature = key ∷ 5 ∷ [] }

abbrev two : List CoSignature
two = signed 2 12 ∷ signed 1 11 ∷ []

two_valid : AreValid verify keys (5 ∷ []) [] two (uid 2 ∷ uid 1 ∷ [])
unfolding find_key same_uid has_uid
two_valid = (12, refl, refl, refl, refl, refl, (11, refl, refl, refl, refl, refl, tt))

verify_quorum-IsQuorum_example :
    IsQuorum verify keys
      (5 ∷ [])
      (pos 2)
      (some (signed 2 12) ∷ none ∷ some (signed 2 12) ∷ some (signed 1 11) ∷ [])
      (verify_quorum verify
        (some (signed 2 12) ∷ none ∷ some (signed 2 12) ∷ some (signed 1 11) ∷ [])
        (5 ∷ [])
        keys
        (pos 2))
verify_quorum-IsQuorum_example =
    verify_quorum-IsQuorum verify keys (5 ∷ []) (pos 2)
      (some (signed 2 12) ∷ none ∷ some (signed 2 12) ∷ some (signed 1 11) ∷ [])

verify_quorum-valid_example :
    verify_quorum verify (map (λ c. some c) two) (5 ∷ []) keys (pos 2)
    ≡ (if ltb 2 (quorum_size (pos 2) 3) then none else some (uid 2 ∷ uid 1 ∷ []))
verify_quorum-valid_example =
    verify_quorum-valid verify keys (5 ∷ []) two (uid 2 ∷ uid 1 ∷ []) (pos 2) two_valid
