-- ===== src/Safe/Sign/Tests.antt =====
-- The theorem on what is signed at a concrete input.
use amp_sdk.Base.{ℕ, ◌≡◌, refl, arith, List, [], ◌∷◌, some}
use amp_sdk.Base.Bytes.{put_be}
use amp_sdk.Safe.Sign.{signing_parts, frame_parts, signing_domain_tag}
use amp_sdk.Safe.Sign.Framing.{signing_parts-injective}

abbrev one_part : List (List ℕ)
one_part = (1 ∷ 2 ∷ []) ∷ []

abbrev one_domain : List ℕ
one_domain = 7 ∷ []

abbrev one_framed : List (List ℕ)
one_framed = (1 ∷ 7 ∷ []) ∷ (0 ∷ 0 ∷ 0 ∷ 2 ∷ []) ∷ (1 ∷ 2 ∷ []) ∷ []

framed_lem : signing_parts one_domain one_part ≡ some one_framed
unfolding signing_parts frame_parts signing_domain_tag put_be
framed_lem = refl

signing_parts-injective_example : (one_domain ≡ one_domain) × (one_part ≡ one_part)
signing_parts-injective_example =
    signing_parts-injective one_domain one_domain one_part one_part one_framed one_framed
      (omega arith) (omega arith) framed_lem framed_lem refl
