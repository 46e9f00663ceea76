-- ===== src/Amp/Epoch/Assembled.antt =====
-- AssembleEpoch: what VerifyCharterContinuity makes of the epochs that it builds.
use amp_sdk.Base.{ℕ, ◌+◌, ◌%◌, ◌^◌, ◌≡◌, refl, sym, ap, ◌∙◌, subst, arith}
use amp_sdk.Base.{true, false, not, ◌||◌, List, Option, none, some, ◌==◌, ==_iff}
use amp_sdk.Tag.Uid.{same_uid}
use amp_sdk.Amp.Quorum.{is_empty}
use amp_sdk.Amp.Epoch.{
  PlanetEpoch, EpochTerms, Library, tag_uid, same_bytes, or_library, refuse_if, apply_hash,
  parsed_terms, hash_bytes, assemble_epoch, follows, verify_charter_continuity,
}
use amp_sdk.Amp.Epoch.EpochError.{auth_failed}
use amp_sdk.Amp.Epoch.Checked.{passes}
use amp_sdk.Amp.Epoch.Passing.{passes-injective, bind-passes, same_bytes_refl}

-- Terms that are marshalled unmarshal, and have bytes where a field is set, the hash of the charter; a hash
-- gives a digest that is not empty.
pub record LibraryLaws (lib : Library) : Type 0 where
  pub unmarshal_terms :
      (terms : EpochTerms) (content : List ℕ)
      → lib.marshal_terms terms ≡ some content
      → lib.unmarshal_terms content ≡ some terms
  pub marshal_terms :
      (terms : EpochTerms) (content : List ℕ)
      → is_empty terms.charter_hash ≡ false
      → lib.marshal_terms terms ≡ some content
      → is_empty content ≡ false
  pub hash_kit :
      (kit : ℕ) (hash : List ℕ → List ℕ) (content : List ℕ)
      → lib.hash_kit kit ≡ some hash
      → is_empty (hash content) ≡ false

or_library-passes : {A : Type 0} (o : Option A) (a : A) → or_library o ≡ passes a → o ≡ some a
or_library-passes none a h = absurd (grind arith)
or_library-passes (some x) a h = grind arith

some-injective : {A : Type 0} {a b : A} → some a ≡ some b → a ≡ b
some-injective h = grind arith

module _ (lib : Library) (laws : LibraryLaws lib) where
  apply_hash-filled :
      (kit : Option (List ℕ → List ℕ)) (content digest : List ℕ)
      → ((hash : List ℕ → List ℕ) → kit ≡ some hash → is_empty (hash content) ≡ false)
      → apply_hash kit content ≡ passes digest
      → is_empty digest ≡ false
  apply_hash-filled none content digest filled h = absurd (grind arith)
  apply_hash-filled (some hash) content digest filled h =
      ap is_empty (sym (passes-injective (hash content) digest h)) ∙ filled hash refl

  hash_bytes-filled :
      (kit : ℕ) (content digest : List ℕ)
      → hash_bytes lib kit content ≡ passes digest
      → is_empty digest ≡ false
  unfolding hash_bytes
  hash_bytes-filled kit content digest h =
      apply_hash-filled (lib.hash_kit kit) content digest
        (λ hash found. laws.hash_kit kit hash content found) h

  -- What an assembled epoch parses to, and the hash that its terms hold.
  abbrev IsAssembled : Option (List ℕ) → EpochTerms → EpochTerms → ℕ → PlanetEpoch → Type 0
  IsAssembled charter terms whole kit pe =
      (charter ≡ some pe.charter)
      × (parsed_terms lib (some pe) ≡ passes whole)
      × (hash_bytes lib whole.hash_kit pe.charter ≡ passes whole.charter_hash)
      × (whole ≡ record terms { hash_kit = kit; charter_hash = whole.charter_hash })

  assemble_epoch-IsAssembled :
      (charter : Option (List ℕ)) (terms whole : EpochTerms) (kit : ℕ) (pe : PlanetEpoch)
      → assemble_epoch lib charter terms kit ≡ passes (pe, whole)
      → IsAssembled charter terms whole kit pe
  unfolding assemble_epoch parsed_terms
  assemble_epoch-IsAssembled charter terms whole kit pe h =
      let (cb, found, k1) = bind-passes (or_library charter) _ (pe, whole) h in
      let (digest, hashed, k2) = bind-passes (hash_bytes lib kit cb) _ (pe, whole) k1 in
      let made : EpochTerms = record terms { hash_kit = kit; charter_hash = digest } in
      let (tb, written, k3) = bind-passes (or_library (lib.marshal_terms made)) _ (pe, whole) k2 in
      let built : PlanetEpoch = record { charter = cb; terms = tb; epoch_tag = terms.epoch_tag } in
      let bytes : lib.marshal_terms made ≡ some tb =
        or_library-passes (lib.marshal_terms made) tb written in
      let parsed : parsed_terms lib (some built) ≡ passes made =
        rw
          (
            laws.marshal_terms made tb (hash_bytes-filled kit cb digest hashed) bytes,
            laws.unmarshal_terms made tb bytes,
          )
          refl in
      subst (λ (p : PlanetEpoch × EpochTerms). IsAssembled charter terms p.1 kit p.0)
        (passes-injective (built, made) (pe, whole) k3)
        (or_library-passes charter cb found, parsed, hashed, refl)

  -- Two epochs that AssembleEpoch builds from one charter under one kit: VerifyCharterContinuity accepts
  -- the second as a genesis, and behind the first it accepts it exactly where the terms of the first are
  -- not sealed and those of the second name the first's epoch as previous and are one higher; otherwise it
  -- answers Code_AuthFailed. Terms that are marshalled unmarshal, to no empty bytes where they hold a
  -- hash, and hashes are not empty.
  pub verify_charter_continuity-assemble_epoch :
      (charter : Option (List ℕ)) (kit : ℕ) (t1 t2 w1 w2 : EpochTerms) (prev pe : PlanetEpoch)
      → assemble_epoch lib charter t1 kit ≡ passes (prev, w1)
      → assemble_epoch lib charter t2 kit ≡ passes (pe, w2)
      → (verify_charter_continuity lib pe none ≡ passes tt)
        × (verify_charter_continuity lib pe (some prev)
            ≡ refuse_if
                (t1.is_sealed
                  || (not (same_uid (tag_uid t2.previous_epoch) (tag_uid t1.epoch_tag))
                      || not (t2.epoch_height == (t1.epoch_height + 1) % 2 ^ 64)))
                auth_failed)
  unfolding verify_charter_continuity follows
  verify_charter_continuity-assemble_epoch charter kit t1 t2 w1 w2 prev pe h1 h2 =
      let (c1, p1, d1, e1) = assemble_epoch-IsAssembled charter t1 w1 kit prev h1 in
      let (c2, p2, d2, e2) = assemble_epoch-IsAssembled charter t2 w2 kit pe h2 in
      let charters : pe.charter ≡ prev.charter = some-injective (sym c2 ∙ c1) in
      let same : same_bytes pe.charter prev.charter ≡ true =
        ap (same_bytes pe.charter) (sym charters) ∙ same_bytes_refl pe.charter in
      let kits : (kit == kit) ≡ true = (==_iff _ _).1 refl in
      let previous = ap (λ (t : EpochTerms). tag_uid t.previous_epoch) e2 in
      let named = ap (λ (t : EpochTerms). tag_uid t.epoch_tag) e1 in
      let height1 = ap (λ (t : EpochTerms). t.epoch_height) e1 in
      let height2 = ap (λ (t : EpochTerms). t.epoch_height) e2 in
      let kit1 = ap (λ (t : EpochTerms). t.hash_kit) e1 in
      let kit2 = ap (λ (t : EpochTerms). t.hash_kit) e2 in
      let open1 = ap (λ (t : EpochTerms). t.is_sealed) e1 in
      (
        rw (p2, d2, same_bytes_refl w2.charter_hash) refl,
        rw
            (
              p2,
              d2,
              same_bytes_refl w2.charter_hash,
              p1,
              same,
              open1,
              previous,
              named,
              height1,
              height2,
              kit1,
              kit2,
              kits,
            )
            (ap (λ b. refuse_if b auth_failed) (ground arith)),
      )
