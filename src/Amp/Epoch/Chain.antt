-- ===== src/Amp/Epoch/Chain.antt =====
-- VerifyCharterContinuity along a chain of epochs.
use amp_sdk.Base.{ℕ, suc, ◌+◌, ◌%◌, ◌^◌, ◌≡◌, refl, sym, ap, ap₂, ◌∙◌, arith}
use amp_sdk.Base.{Bool, true, false, not, List, [], ◌∷◌, Option, none, some, ◌==◌, ==_iff}
use amp_sdk.Tag.Uid.{same_uid}
use amp_sdk.Tag.UidMap.{same_uid_iff}
use amp_sdk.Amp.Epoch.{
  PlanetEpoch, EpochTerms, refuse_if, Library, tag_uid, same_bytes, parsed_terms, hash_bytes,
  follows, follows_if, verify_charter_continuity,
}
use amp_sdk.Amp.Epoch.EpochError.{auth_failed}
use amp_sdk.Amp.Epoch.Checked.{passes}
use amp_sdk.Amp.Epoch.Passing.{
  passes-injective, bind-passes, refuse_if-passes, or-false, same_bytes-eq,
}

not-false : (b : Bool) → not b ≡ false → b ≡ true
not-false true h = refl
not-false false h = sym h

module _ (lib : Library) where
  -- What an epoch has in common with the one that it follows.
  abbrev pub IsSuccessor : PlanetEpoch → EpochTerms → PlanetEpoch → EpochTerms → Type 0
  IsSuccessor pe terms prev prev_terms =
      (prev_terms.is_sealed ≡ false)
      × (pe.charter ≡ prev.charter)
      × (tag_uid terms.previous_epoch ≡ tag_uid prev_terms.epoch_tag)
      × (terms.epoch_height ≡ (prev_terms.epoch_height + 1) % 2 ^ 64)
      × (terms.hash_kit ≡ prev_terms.hash_kit)

  follows-IsSuccessor :
      (pe prev : PlanetEpoch) (terms prev_terms : EpochTerms) (u : Unit)
      → follows lib pe terms prev prev_terms ≡ passes u
      → IsSuccessor pe terms prev prev_terms
  unfolding follows
  follows-IsSuccessor pe prev terms prev_terms u h =
      let (open_chain, h1) = or-false prev_terms.is_sealed _ (refuse_if-passes _ auth_failed u h) in
      let (charter, h2) = or-false (not (same_bytes pe.charter prev.charter)) _ h1 in
      let (linked, h3) =
        or-false (not (same_uid (tag_uid terms.previous_epoch) (tag_uid prev_terms.epoch_tag))) _
          h2 in
      let (height, kit) =
        or-false (not (terms.epoch_height == (prev_terms.epoch_height + 1) % 2 ^ 64)) _ h3 in
      (
        open_chain,
        same_bytes-eq pe.charter prev.charter (not-false _ charter),
        (same_uid_iff _ _).0 (not-false _ linked),
        (==_iff _ _).0 (not-false _ height),
        (==_iff _ _).0 (not-false _ kit),
      )

  -- The terms that a check finds.
  continuity-parts :
      (pe : PlanetEpoch) (prev : Option PlanetEpoch) (u : Unit)
      → verify_charter_continuity lib pe prev ≡ passes u
      → (terms : EpochTerms) × (parsed_terms lib (some pe) ≡ passes terms)
        × (hash_bytes lib terms.hash_kit pe.charter ≡ passes terms.charter_hash)
        × (follows_if lib pe terms prev ≡ passes u)
  unfolding verify_charter_continuity
  continuity-parts pe prev u h =
      let (terms, parsed, h1) = bind-passes (parsed_terms lib (some pe)) _ u h in
      let (digest, hashed, h2) = bind-passes (hash_bytes lib terms.hash_kit pe.charter) _ u h1 in
      let (v, tested, h3) =
        bind-passes (refuse_if (not (same_bytes digest terms.charter_hash)) auth_failed) _ u h2 in
      let same =
        same_bytes-eq digest terms.charter_hash
          (not-false _ (refuse_if-passes _ auth_failed v tested)) in
      (terms, parsed, hashed ∙ ap passes same, h3)

  -- Each epoch of a list is accepted behind the one before it.
  abbrev pub IsAccepted : PlanetEpoch → List PlanetEpoch → Type 0
  IsAccepted prev [] = Unit
  IsAccepted prev (pe ∷ rest) =
      (verify_charter_continuity lib pe (some prev) ≡ passes tt) × IsAccepted pe rest

  -- An epoch that is `n` places behind a genesis: its charter is the genesis's, its terms have the hash
  -- of that charter under the genesis's kit, and its height is `n` more.
  abbrev pub IsHeir : PlanetEpoch → EpochTerms → ℕ → PlanetEpoch → Type 0
  IsHeir genesis first n pe =
      (terms : EpochTerms) × (parsed_terms lib (some pe) ≡ passes terms)
      × (pe.charter ≡ genesis.charter)
      × (hash_bytes lib first.hash_kit genesis.charter ≡ passes terms.charter_hash)
      × (terms.hash_kit ≡ first.hash_kit)
      × (terms.epoch_height % 2 ^ 64 ≡ (first.epoch_height + n) % 2 ^ 64)

  -- The terms of an epoch are not sealed.
  abbrev pub IsUnsealed : PlanetEpoch → Type 0
  IsUnsealed pe =
      (terms : EpochTerms) × (parsed_terms lib (some pe) ≡ passes terms) × (terms.is_sealed ≡ false)

  abbrev pub IsLineage : PlanetEpoch → EpochTerms → ℕ → PlanetEpoch → List PlanetEpoch → Type 0
  IsLineage genesis first n prev [] = Unit
  IsLineage genesis first n prev (pe ∷ rest) =
      (IsHeir genesis first n pe × IsUnsealed prev) × IsLineage genesis first (suc n) pe rest

  continuity-IsHeir :
      (genesis prev pe : PlanetEpoch) (first : EpochTerms) (n : ℕ)
      → IsHeir genesis first n prev
      → verify_charter_continuity lib pe (some prev) ≡ passes tt
      → IsHeir genesis first (suc n) pe × IsUnsealed prev
  continuity-IsHeir genesis prev pe first n (pt, found, charter, hashed, kit, height) h =
      let (terms, parsed, digest, behind) = continuity-parts pe (some prev) tt h in
      let (qt, again, h1) = bind-passes (parsed_terms lib (some prev)) _ tt behind in
      let same : qt ≡ pt = passes-injective qt pt (sym again ∙ found) in
      let next = follows-IsSuccessor pe prev terms qt tt h1 in
      let charters : pe.charter ≡ genesis.charter = next.1 ∙ charter in
      let kits : terms.hash_kit ≡ first.hash_kit =
        next.4 ∙ ap (λ (t : EpochTerms). t.hash_kit) same ∙ kit in
      (
        (
          terms,
          parsed,
          charters,
          ap₂ (hash_bytes lib) (sym kits) (sym charters) ∙ digest,
          kits,
          omega (arith, next.3, ap (λ (t : EpochTerms). t.epoch_height) same, height),
        ),
        (qt, again, next.0),
      )

  heir-IsLineage :
      (genesis prev : PlanetEpoch) (first : EpochTerms) (n : ℕ) (chain : List PlanetEpoch)
      → IsHeir genesis first n prev
      → IsAccepted prev chain
      → IsLineage genesis first (suc n) prev chain
  heir-IsLineage genesis prev first n [] heir accepted = tt
  heir-IsLineage genesis prev first n (pe ∷ rest) heir accepted =
      let next = continuity-IsHeir genesis prev pe first n heir accepted.0 in
      (next, heir-IsLineage genesis pe first (suc n) rest next.0 accepted.1)

  -- Behind a genesis that VerifyCharterContinuity accepts, every epoch of a chain that it accepts one
  -- by one has the charter of the genesis, terms that commit to that charter under the hash kit of the
  -- genesis, and the height of its place, and none but the last is sealed.
  pub accepted-IsLineage :
      (genesis : PlanetEpoch) (first : EpochTerms) (chain : List PlanetEpoch)
      → parsed_terms lib (some genesis) ≡ passes first
      → verify_charter_continuity lib genesis none ≡ passes tt
      → IsAccepted genesis chain
      → IsLineage genesis first 1 genesis chain
  accepted-IsLineage genesis first chain parsed sound accepted =
      let (terms, found, digest, behind) = continuity-parts genesis none tt sound in
      let same : terms ≡ first = passes-injective terms first (sym found ∙ parsed) in
      heir-IsLineage genesis genesis first 0 chain
        (
          first,
          parsed,
          refl,
          ap (λ (t : EpochTerms). hash_bytes lib t.hash_kit genesis.charter) (sym same)
              ∙ digest
              ∙ ap (λ (t : EpochTerms). passes t.charter_hash) same,
          refl,
          omega arith,
        )
        accepted
