-- ===== src/Amp/Founders.antt =====
-- amp/amp.support.epoch.go: FounderFingerprint. The keys of the founders are a list in the order in which
-- the map is ranged over.
pub mod Order
pub mod Unordered
mod Tests
use amp_sdk.Base.{ℕ, List, [], ◌∷◌, ◌++◌, Option, some, if◌then◌else◌}
use amp_sdk.Base.Bytes.{put_be, bytes_compare}
use amp_sdk.Tag.Uid.{Uid, append_to}
use amp_sdk.Tag.Rank.{is_before}
use amp_sdk.Safe.Sign.{signing_digest}
use amp_sdk.Amp.Quorum.{is_empty}
use amp_sdk.Amp.Epoch.{Checked, ◌>>=◌, or_library}
use amp_sdk.Amp.Epoch.EpochError.{bad_request}
use amp_sdk.Amp.Epoch.Checked.{passes, refuses}

-- A founder's ID and the parts of the `safe.PubKey`.
pub record FounderKey : Type 0 where
  pub founder_id : Uid
  pub crypto_kit_id : Uid
  pub bytes : List ℕ

-- SigningDomain_FounderSet, "amp.fp.founders.v1".
abbrev pub founder_set : List ℕ
founder_set =
    0x61 ∷ 0x6D ∷ 0x70 ∷ 0x2E ∷ 0x66 ∷ 0x70 ∷ 0x2E ∷ 0x66 ∷ 0x6F ∷ 0x75 ∷ 0x6E ∷ 0x64 ∷ 0x65 ∷ 0x72
    ∷ 0x73 ∷ 0x2E ∷ 0x76 ∷ 0x31 ∷ []

unfoldable pub founder_entry : FounderKey → List ℕ
founder_entry founder = append_to founder.crypto_kit_id [] ++ founder.bytes

-- The loop over the founders.
unfoldable pub founder_entries : List FounderKey → Checked (List (List ℕ))
founder_entries [] = passes []
founder_entries (founder ∷ founders) =
    let rest = founder_entries founders in
    if is_empty founder.bytes
    then refuses bad_request
    else (rest >>= λ entries. passes (founder_entry founder ∷ entries))

-- `sort.Slice` by `bytes.Compare`.
unfoldable pub insert_entry : List ℕ → List (List ℕ) → List (List ℕ)
insert_entry e [] = e ∷ []
insert_entry e (x ∷ xs) =
    let later = insert_entry e xs in if is_before (bytes_compare e x) then e ∷ x ∷ xs else x ∷ later

unfoldable pub sort_entries : List (List ℕ) → List (List ℕ)
sort_entries [] = []
sort_entries (e ∷ es) = insert_entry e (sort_entries es)

abbrev pub no_founders : List FounderKey → Checked Unit
no_founders [] = refuses bad_request
no_founders (founder ∷ founders) = passes tt

-- The number of required signatures is the 32-bit pattern of an int32.
unfoldable pub founder_fingerprint :
    Option (List ℕ → List ℕ) → List FounderKey → ℕ → Checked (List ℕ)
founder_fingerprint hash founders required = do
  some_founder ← no_founders founders
  entries ← founder_entries founders
  or_library (signing_digest hash founder_set (sort_entries entries ++ (put_be 4 required ∷ [])))
