-- ===== src/Amp/Epoch/Tests.antt =====
-- The theorems on epochs at concrete inputs.
use amp_sdk.Base.{
  ℕ, zero, suc, ◌+◌, ◌%◌, ◌^◌, ◌==◌, not, ◌||◌, ◌≡◌, refl, sym, ap, ◌∙◌, arith, Bool, true, false,
  List, [], ◌∷◌, Option, none, some,
}
use amp_sdk.Base.Bytes.{bytes_compare}
use amp_sdk.Tag.Uid.{Uid, same_uid}
use amp_sdk.Amp.Quorum.{is_empty}
use amp_sdk.Amp.Epoch.{
  PlanetEpoch, EpochTerms, Library, epoch_frame, signed_bytes, parsed_terms, hash_bytes, follows,
  assemble_epoch, verify_charter_continuity, refuse_if,
}
use amp_sdk.Amp.Epoch.EpochError.{auth_failed}
use amp_sdk.Amp.Epoch.Checked.{passes}
use amp_sdk.Amp.Epoch.Frame.{signed_bytes-injective}
use amp_sdk.Amp.Epoch.Chain.{IsLineage, accepted-IsLineage}
use amp_sdk.Amp.Epoch.Assembled.{LibraryLaws, verify_charter_continuity-assemble_epoch}

abbrev tag_fields : Option Uid → List ℕ → List ℕ
tag_fields none rest = 0 ∷ 0 ∷ 0 ∷ rest
tag_fields (some id) rest = 1 ∷ id.w0 ∷ id.w1 ∷ rest

abbrev tag_from : ℕ → ℕ → ℕ → Option Uid
tag_from zero w0 w1 = none
tag_from (suc n) w0 w1 = some record { w0 = w0; w1 = w1 }

abbrev sealed_from : ℕ → Bool
sealed_from zero = false
sealed_from (suc n) = true

abbrev sealed_field : Bool → ℕ
sealed_field true = 1
sealed_field false = 0

abbrev write_terms : EpochTerms → List ℕ
write_terms t =
    t.epoch_height
    ∷ t.hash_kit
    ∷ sealed_field t.is_sealed
    ∷ tag_fields t.epoch_tag (tag_fields t.previous_epoch t.charter_hash)

abbrev read_terms : List ℕ → Option EpochTerms
read_terms (height ∷ kit ∷ closed ∷ a ∷ b ∷ c ∷ d ∷ e ∷ f ∷ hash) = some record {
  epoch_tag = tag_from a b c;
  previous_epoch = tag_from d e f;
  epoch_height = height;
  hash_kit = kit;
  charter_hash = hash;
  is_sealed = sealed_from closed;
}
read_terms _ = none

abbrev kit_of : ℕ → Option (List ℕ → List ℕ)
kit_of zero = some (λ content. 7 ∷ content)
kit_of (suc n) = none

abbrev lib : Library
lib = record {
  marshal_terms = λ t. some (write_terms t);
  unmarshal_terms = read_terms;
  hash_kit = kit_of;
}

read-write : (t : EpochTerms) → read_terms (write_terms t) ≡ some t
read-write t = go t.epoch_tag t.previous_epoch t.epoch_height t.hash_kit t.charter_hash t.is_sealed
  where
    go :
        (a b : Option Uid) (n k : ℕ) (h : List ℕ) (s : Bool)
        → read_terms (
            write_terms (record {
              epoch_tag = a;
              previous_epoch = b;
              epoch_height = n;
              hash_kit = k;
              charter_hash = h;
              is_sealed = s;
            }))
          ≡ some (record {
            epoch_tag = a;
            previous_epoch = b;
            epoch_height = n;
            hash_kit = k;
            charter_hash = h;
            is_sealed = s;
          })
    go none none n k h true = refl
    go none none n k h false = refl
    go none (some y) n k h true = refl
    go none (some y) n k h false = refl
    go (some x) none n k h true = refl
    go (some x) none n k h false = refl
    go (some x) (some y) n k h true = refl
    go (some x) (some y) n k h false = refl

filled_terms : (t : EpochTerms) → is_empty (write_terms t) ≡ false
filled_terms t = refl

bytes_of :
    (t : EpochTerms) (content : List ℕ)
    → some (write_terms t) ≡ some content
    → write_terms t ≡ content
bytes_of t content h = grind arith

filled_hash :
    (kit : ℕ) (hash : List ℕ → List ℕ) (content : List ℕ)
    → kit_of kit ≡ some hash
    → is_empty (hash content) ≡ false
filled_hash zero hash content h =
    let same : (λ (t : List ℕ). 7 ∷ t) ≡ hash = grind arith in
    ap (λ f. is_empty (f content)) (sym same)
filled_hash (suc n) hash content h = absurd (grind arith)

laws : LibraryLaws lib
laws = record {
  unmarshal_terms = λ t content h. ap read_terms (sym (bytes_of t content h)) ∙ read-write t;
  marshal_terms = λ t content filled h. ap is_empty (sym (bytes_of t content h)) ∙ filled_terms t;
  hash_kit = λ kit hash content h. filled_hash kit hash content h;
}

abbrev uid : ℕ → Uid
uid n = record { w0 = 0; w1 = n }

abbrev terms : ℕ → Option Uid → ℕ → EpochTerms
terms n previous height = record {
  epoch_tag = some (uid n);
  previous_epoch = previous;
  epoch_height = height;
  hash_kit = 0;
  charter_hash = [];
  is_sealed = false;
}

abbrev charter : List ℕ
charter = 1 ∷ 2 ∷ []

abbrev whole : ℕ → Option Uid → ℕ → EpochTerms
whole n previous height = record (terms n previous height) { charter_hash = 7 ∷ charter }

abbrev epoch : ℕ → Option Uid → ℕ → PlanetEpoch
epoch n previous height = record {
  charter = charter;
  terms = write_terms (whole n previous height);
  epoch_tag = some (uid n);
}

assembled_first :
    assemble_epoch lib (some charter) (terms 10 none 0) 0
    ≡ passes (epoch 10 none 0, whole 10 none 0)
unfolding assemble_epoch hash_bytes
assembled_first = refl

assembled_second :
    assemble_epoch lib (some charter) (terms 11 (some (uid 10)) 1) 0
    ≡ passes (epoch 11 (some (uid 10)) 1, whole 11 (some (uid 10)) 1)
unfolding assemble_epoch hash_bytes
assembled_second = refl

verify_charter_continuity-assemble_epoch_example :
    (verify_charter_continuity lib (epoch 11 (some (uid 10)) 1) none ≡ passes tt)
    × (verify_charter_continuity lib (epoch 11 (some (uid 10)) 1) (some (epoch 10 none 0))
        ≡ refuse_if (not (same_uid (uid 10) (uid 10)) || not (1 == (0 + 1) % 2 ^ 64)) auth_failed)
verify_charter_continuity-assemble_epoch_example =
    verify_charter_continuity-assemble_epoch lib laws (some charter) 0 (terms 10 none 0)
      (terms 11 (some (uid 10)) 1) (whole 10 none 0) (whole 11 (some (uid 10)) 1) (epoch 10 none 0)
      (epoch 11 (some (uid 10)) 1) assembled_first assembled_second

accepted_first : verify_charter_continuity lib (epoch 10 none 0) none ≡ passes tt
unfolding verify_charter_continuity parsed_terms hash_bytes bytes_compare
accepted_first = refl

accepted_second :
    verify_charter_continuity lib (epoch 11 (some (uid 10)) 1) (some (epoch 10 none 0)) ≡ passes tt
unfolding verify_charter_continuity parsed_terms hash_bytes bytes_compare follows same_uid
accepted_second = refl

parsed_first : parsed_terms lib (some (epoch 10 none 0)) ≡ passes (whole 10 none 0)
unfolding parsed_terms
parsed_first = refl

accepted-IsLineage_example :
    IsLineage lib
      (epoch 10 none 0)
      (whole 10 none 0)
      1
      (epoch 10 none 0)
      (epoch 11 (some (uid 10)) 1 ∷ [])
accepted-IsLineage_example =
    accepted-IsLineage lib (epoch 10 none 0) (whole 10 none 0) (epoch 11 (some (uid 10)) 1 ∷ [])
      parsed_first accepted_first (accepted_second, tt)

abbrev small_epoch : PlanetEpoch
small_epoch = record { charter = charter; terms = 3 ∷ []; epoch_tag = none }

signed_small : signed_bytes (some small_epoch) ≡ passes (epoch_frame charter (3 ∷ []))
unfolding signed_bytes
signed_small = refl

signed_bytes-injective_example :
    (small_epoch.charter ≡ small_epoch.charter) × (small_epoch.terms ≡ small_epoch.terms)
signed_bytes-injective_example =
    signed_bytes-injective small_epoch small_epoch (epoch_frame charter (3 ∷ [])) (omega arith)
      (omega arith) (omega arith) (omega arith) signed_small signed_small
