-- ===== src/Amp/Quorum/Steps.antt =====
-- One round of the loop of VerifyCoSignatureQuorum, by what the signature is.
use amp_sdk.Base.{
  ℕ, ◌≡◌, refl, arith, Bool, true, false, ◌⊎◌, inl, inr, List, [], ◌∷◌, ◌++◌, Option, none, some,
}
use amp_sdk.Tag.Uid.{Uid}
use amp_sdk.Amp.Quorum.{CoSignature, has_uid, is_empty, find_key, collect}

module _ {K : Type 0} (verify : K → List ℕ → List ℕ → Bool) (keys : List (Uid × K))
    (digest : List ℕ) where
  pub collect-end : (verified : List Uid) → collect verify keys digest verified [] ≡ some verified
  unfolding collect
  collect-end verified = refl

  pub collect-absent :
      (verified : List Uid) (rest : List (Option CoSignature))
      → collect verify keys digest verified (none ∷ rest) ≡ collect verify keys digest verified rest
  unfolding collect
  collect-absent verified rest = refl

  -- The loop at a signature, by what it is.
  module _ (verified : List Uid) (c : CoSignature) (rest : List (Option CoSignature)) where
    pub collect-unnamed :
        c.member_tag ≡ none
        → collect verify keys digest verified (some c ∷ rest)
          ≡ collect verify keys digest verified rest
    unfolding collect
    collect-unnamed h = rw h refl

    module _ (id : Uid) (named : c.member_tag ≡ some id) where
      pub collect-undeclared :
          find_key id keys ≡ none → collect verify keys digest verified (some c ∷ rest) ≡ none
      unfolding collect
      collect-undeclared h = rw (named, h) refl

      module _ (key : K) (declared : find_key id keys ≡ some key) where
        pub collect-before :
            has_uid id verified ≡ true
            → collect verify keys digest verified (some c ∷ rest)
              ≡ collect verify keys digest verified rest
        unfolding collect
        collect-before h = rw (named, declared, h) refl

        pub collect-refused :
            has_uid id verified ≡ false
            → (is_empty c.signature ≡ true) ⊎ (verify key c.signature digest ≡ false)
            → collect verify keys digest verified (some c ∷ rest) ≡ none
        unfolding collect
        collect-refused h (inl blank) = rw (named, declared, h, blank) refl
        collect-refused h (inr forged) = rw (named, declared, h, forged) (ground arith)

        pub collect-counted :
            has_uid id verified ≡ false
            → is_empty c.signature ≡ false
            → verify key c.signature digest ≡ true
            → collect verify keys digest verified (some c ∷ rest)
              ≡ collect verify keys digest (verified ++ id ∷ []) rest
        unfolding collect
        collect-counted h filled valid = rw (named, declared, h, filled, valid) refl
