-- ===== src/Safe/Sign.antt =====
-- stdlib/safe/safe.sign.go: the segments that a signature under a domain covers.
pub mod Framing
mod Tests
use amp_sdk.Base.{ℕ, ◌-◌, ◌%◌, ◌^◌, ltb, if◌then◌else◌}
use amp_sdk.Base.{List, [], ◌∷◌, ◌++◌, Option, none, some, length}
use amp_sdk.Base.Bytes.{put_be}

-- `SigningDomainTag`: a domain behind its length in one byte.
unfoldable pub signing_domain_tag : List ℕ → List ℕ
signing_domain_tag domain = length domain % 2 ^ 8 ∷ domain

abbrev pub cons_frame : List ℕ → Option (List (List ℕ)) → Option (List (List ℕ))
cons_frame part none = none
cons_frame part (some framed) = some (put_be 4 (length part) ∷ part ∷ framed)

-- The loop of `SigningParts`: each part behind its length in four bytes, or the error for a part that
-- is longer than those can say.
unfoldable pub frame_parts : List (List ℕ) → Option (List (List ℕ))
frame_parts [] = some []
frame_parts (part ∷ parts) =
    let rest = frame_parts parts in
    if ltb (2 ^ 32 - 1) (length part) then none else cons_frame part rest

abbrev pub behind_tag : List ℕ → Option (List (List ℕ)) → Option (List (List ℕ))
behind_tag domain none = none
behind_tag domain (some framed) = some (signing_domain_tag domain ∷ framed)

unfoldable pub signing_parts : List ℕ → List (List ℕ) → Option (List (List ℕ))
signing_parts domain parts = behind_tag domain (frame_parts parts)

-- What a hasher that is fed the segments one after another has seen.
unfoldable pub concat : List (List ℕ) → List ℕ
concat [] = []
concat (part ∷ parts) = part ++ concat parts

-- `SigningDigest`: the digest of the segments under the hash that the kit provides, where there is one.
abbrev pub hash_framed : Option (List ℕ → List ℕ) → Option (List (List ℕ)) → Option (List ℕ)
hash_framed kit none = none
hash_framed none (some framed) = none
hash_framed (some hash) (some framed) = some (hash (concat framed))

unfoldable pub signing_digest : Option (List ℕ → List ℕ) → List ℕ → List (List ℕ) → Option (List ℕ)
signing_digest kit domain parts = hash_framed kit (signing_parts domain parts)
