-- ===== src/Amp/Epoch.antt =====
-- amp/amp.support.epoch.go: the frame of an epoch, its assembly, and the chain of epochs. Protocol buffers
-- and hashes are parameters.
pub mod Passing
pub mod Frame
pub mod Chain
pub mod Assembled
mod Tests
use amp_sdk.Base.{
  ℕ, ◌+◌, ◌%◌, ◌^◌, Bool, true, false, not, ◌||◌, List, [], ◌∷◌, ◌++◌, Option, none, some, length,
  take, drop, ltb, ◌==◌, if◌then◌else◌,
}
use amp_sdk.Base.Bytes.{put_be, bytes_compare}
use amp_sdk.Tag.Uid.{Uid, nil, is_nil, same_uid, append_to, compare_to}
use amp_sdk.Tag.Rank.{is_before}
use amp_sdk.Tag.Address.{Address, element_lsm}
use amp_sdk.Safe.Keys.{SymKey}
use amp_sdk.Safe.Sign.{signing_digest}
use amp_sdk.Amp.Quorum.{is_empty}
use amp_sdk.Amp.Tx.{is_equal}

-- The codes Code_BadRequest, Code_AuthFailed and Code_DecryptFailed, and the error of a library.
pub data EpochError : Type 0 where
  bad_request : EpochError
  auth_failed : EpochError
  decrypt_failed : EpochError
  from_library : EpochError

pub data Checked (A : Type 0) : Type 0 where
  passes : A → Checked A
  refuses : EpochError → Checked A

infixl 10 ◌>>=◌
abbrev pub ◌>>=◌ : {A : Type 0} {B : Type 0} → Checked A → (A → Checked B) → Checked B
passes a >>= f = f a
refuses e >>= f = refuses e

abbrev pub or_library : {A : Type 0} → Option A → Checked A
or_library none = refuses from_library
or_library (some a) = passes a

-- A test that returns an error where it holds.
abbrev pub refuse_if : Bool → EpochError → Checked Unit
refuse_if true e = refuses e
refuse_if false e = passes tt

-- The blobs that are signed, and the advisory copy of the tag.
pub record PlanetEpoch : Type 0 where
  pub charter : List ℕ
  pub terms : List ℕ
  pub epoch_tag : Option Uid

-- The terms that these functions read; a tag stands for its UID.
pub record EpochTerms : Type 0 where
  pub epoch_tag : Option Uid
  pub previous_epoch : Option Uid
  pub epoch_height : ℕ
  pub hash_kit : ℕ
  pub charter_hash : List ℕ
  pub is_sealed : Bool

-- `UID` of a tag that may be nil.
abbrev pub tag_uid : Option Uid → Uid
tag_uid none = nil
tag_uid (some id) = id

unfoldable pub is_genesis : EpochTerms → Bool
is_genesis terms = is_nil (tag_uid terms.previous_epoch)

unfoldable pub epoch_frame : List ℕ → List ℕ → List ℕ
epoch_frame charter terms =
    put_be 8 (length charter) ++ (charter ++ (put_be 8 (length terms) ++ terms))

unfoldable pub signed_bytes : Option PlanetEpoch → Checked (List ℕ)
signed_bytes none = refuses bad_request
signed_bytes (some pe) =
    if is_empty pe.charter || is_empty pe.terms
    then refuses bad_request
    else passes (epoch_frame pe.charter pe.terms)

-- SigningDomain_EpochCoSign, "amp.sig.epoch.v1".
abbrev pub epoch_cosign : List ℕ
epoch_cosign =
    0x61 ∷ 0x6D ∷ 0x70 ∷ 0x2E ∷ 0x73 ∷ 0x69 ∷ 0x67 ∷ 0x2E ∷ 0x65 ∷ 0x70 ∷ 0x6F ∷ 0x63 ∷ 0x68 ∷ 0x2E
    ∷ 0x76 ∷ 0x31 ∷ []

-- `bytes.Equal`
abbrev pub same_bytes : List ℕ → List ℕ → Bool
same_bytes xs ys = is_equal (bytes_compare xs ys)

-- `proto.Marshal` and `proto.Unmarshal` of the terms, and the hash of a kit that is registered.
pub record Library : Type 0 where
  pub marshal_terms : EpochTerms → Option (List ℕ)
  pub unmarshal_terms : List ℕ → Option EpochTerms
  pub hash_kit : ℕ → Option (List ℕ → List ℕ)

abbrev pub apply_hash : Option (List ℕ → List ℕ) → List ℕ → Checked (List ℕ)
apply_hash none content = refuses from_library
apply_hash (some hash) content = passes (hash content)

module _ (lib : Library) where
  unfoldable pub parsed_terms : Option PlanetEpoch → Checked EpochTerms
  parsed_terms none = refuses bad_request
  parsed_terms (some pe) =
      if is_empty pe.terms then refuses bad_request else or_library (lib.unmarshal_terms pe.terms)

  unfoldable pub hash_bytes : ℕ → List ℕ → Checked (List ℕ)
  hash_bytes kit content = apply_hash (lib.hash_kit kit) content

  unfoldable pub cosignature_digest : Option PlanetEpoch → Checked (List ℕ)
  cosignature_digest pe = do
    frame ← signed_bytes pe
    terms ← parsed_terms pe
    or_library (signing_digest (lib.hash_kit terms.hash_kit) epoch_cosign (frame ∷ []))

  -- `AssembleEpoch` on a charter that is marshalled, where it can be: the epoch, and the terms, which
  -- it completes.
  unfoldable pub assemble_epoch :
      Option (List ℕ) → EpochTerms → ℕ → Checked (PlanetEpoch × EpochTerms)
  assemble_epoch charter terms kit = do
    charter_bytes ← or_library charter
    digest ← hash_bytes kit charter_bytes
    let whole = record terms { hash_kit = kit; charter_hash = digest }
    terms_bytes ← or_library (lib.marshal_terms whole)
    passes (
      record { charter = charter_bytes; terms = terms_bytes; epoch_tag = whole.epoch_tag },
      whole,
    )

  -- The tests of `VerifyCharterContinuity` against the epoch before.
  unfoldable pub follows : PlanetEpoch → EpochTerms → PlanetEpoch → EpochTerms → Checked Unit
  follows pe terms prev prev_terms =
      refuse_if
        (prev_terms.is_sealed
          || (not (same_bytes pe.charter prev.charter)
              || (not (same_uid (tag_uid terms.previous_epoch) (tag_uid prev_terms.epoch_tag))
                  || (not (terms.epoch_height == (prev_terms.epoch_height + 1) % 2 ^ 64)
                      || not (terms.hash_kit == prev_terms.hash_kit)))))
        auth_failed

  abbrev pub follows_if : PlanetEpoch → EpochTerms → Option PlanetEpoch → Checked Unit
  follows_if pe terms none = passes tt
  follows_if pe terms (some prev) =
      parsed_terms (some prev) >>= λ prev_terms. follows pe terms prev prev_terms

  unfoldable pub verify_charter_continuity : PlanetEpoch → Option PlanetEpoch → Checked Unit
  verify_charter_continuity pe prev = do
    terms ← parsed_terms (some pe)
    digest ← hash_bytes terms.hash_kit pe.charter
    hashed ← refuse_if (not (same_bytes digest terms.charter_hash)) auth_failed
    follows_if pe terms prev
