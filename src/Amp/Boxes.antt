-- ===== src/Amp/Boxes.antt =====
-- amp/amp.support.epoch.go and amp.support.sealed.go: the boxes that are sealed under the keys of epochs.
-- The derivation of keys and the AEAD are parameters.
pub mod Sealing
pub mod Opening
pub mod Values
mod Tests
use amp_sdk.Base.{
  ℕ, Bool, true, false, not, ◌||◌, List, [], ◌∷◌, ◌++◌, Option, none, some, length, take, drop, ltb,
  ◌==◌,
}
use amp_sdk.Tag.Uid.{Uid, is_nil, same_uid, append_to, compare_to}
use amp_sdk.Tag.Rank.{is_before}
use amp_sdk.Tag.Address.{Address, element_lsm}
use amp_sdk.Safe.Keys.{SymKey}
use amp_sdk.Amp.Quorum.{is_empty}
use amp_sdk.Amp.Epoch.{EpochError, Checked, ◌>>=◌, refuse_if, tag_uid}
use amp_sdk.Amp.Epoch.EpochError.{bad_request, decrypt_failed}
use amp_sdk.Amp.Epoch.Checked.{passes, refuses}

-- `epochLinkAAD`
unfoldable pub epoch_link_aad : Uid → Uid → List ℕ
epoch_link_aad from_epoch to_epoch = append_to to_epoch (append_to from_epoch [])

-- The parts of `safe.EncryptedSymKey`, `EpochLink` and `safe.SealedValue`.
pub record EncryptedSymKey : Type 0 where
  pub crypto_kit_id : Uid
  pub epoch_id : Uid
  pub ciphertext : List ℕ

pub record EpochLink : Type 0 where
  pub from_epoch : Option Uid
  pub to_epoch : Option Uid
  pub box : Option EncryptedSymKey

pub record SealedValue : Type 0 where
  pub container_id : Uid
  pub epoch_id : Uid
  pub role : ℕ
  pub content_type : List ℕ
  pub ciphertext : List ℕ

-- `DeriveSubKey`, `SealAEAD`, with the bytes of its reader, and `OpenAEAD`.
pub record Aead : Type 0 where
  pub derive_sub_key : List ℕ → List ℕ → Checked (List ℕ)
  pub seal_aead : List ℕ → List ℕ → List ℕ → List ℕ → Checked (List ℕ × List ℕ)
  pub open_aead : List ℕ → List ℕ → List ℕ → List ℕ → Checked (List ℕ)

-- "epoch-link" and "sealed-attr".
abbrev pub epoch_link_purpose : List ℕ
epoch_link_purpose = 0x65 ∷ 0x70 ∷ 0x6F ∷ 0x63 ∷ 0x68 ∷ 0x2D ∷ 0x6C ∷ 0x69 ∷ 0x6E ∷ 0x6B ∷ []

abbrev pub sealed_value_purpose : List ℕ
sealed_value_purpose =
    0x73 ∷ 0x65 ∷ 0x61 ∷ 0x6C ∷ 0x65 ∷ 0x64 ∷ 0x2D ∷ 0x61 ∷ 0x74 ∷ 0x74 ∷ 0x72 ∷ []

-- NonceSize and KeyRole_ContentKey.
abbrev pub nonce_size : ℕ
nonce_size = 24

abbrev pub content_key : ℕ
content_key = 0

module _ (aead : Aead) where
  unfoldable pub seal_epoch_link_box : List ℕ → SymKey → SymKey → Checked EncryptedSymKey
  seal_epoch_link_box rand from_key to_key = do
    keyed ←
        refuse_if
          (is_nil from_key.epoch_id
            || (is_nil to_key.epoch_id || (is_empty from_key.bytes || is_empty to_key.bytes)))
          bad_request
    ordered ← refuse_if (not (is_before (compare_to to_key.epoch_id from_key.epoch_id))) bad_request
    sub_key ← aead.derive_sub_key from_key.bytes epoch_link_purpose
    cipher ←
        aead.seal_aead rand sub_key to_key.bytes (epoch_link_aad from_key.epoch_id to_key.epoch_id)
    passes record {
      crypto_kit_id = to_key.crypto_kit_id;
      epoch_id = to_key.epoch_id;
      ciphertext = cipher.0 ++ cipher.1;
    }

  abbrev pub open_box : SymKey → Uid → Uid → Option EncryptedSymKey → Checked SymKey
  open_box from_key from_epoch to_epoch none = refuses bad_request
  open_box from_key from_epoch to_epoch (some box) = do
    named ← refuse_if (is_nil from_epoch || is_nil to_epoch) bad_request
    ours ← refuse_if (not (same_uid from_key.epoch_id from_epoch)) bad_request
    enclosed ← refuse_if (not (same_uid box.epoch_id to_epoch)) bad_request
    long ← refuse_if (ltb (length box.ciphertext) nonce_size) decrypt_failed
    sub_key ← aead.derive_sub_key from_key.bytes epoch_link_purpose
    plain ←
        aead.open_aead sub_key (take nonce_size box.ciphertext) (drop nonce_size box.ciphertext)
          (epoch_link_aad from_epoch to_epoch)
    passes record {
      crypto_kit_id = box.crypto_kit_id;
      epoch_id = to_epoch;
      role = content_key;
      bytes = plain;
    }

  unfoldable pub open_epoch_link_box : SymKey → EpochLink → Checked SymKey
  open_epoch_link_box from_key link =
      open_box from_key (tag_uid link.from_epoch) (tag_uid link.to_epoch) link.box

  unfoldable pub seal_value_box :
      List ℕ → SymKey → Uid → Address → List ℕ → List ℕ → Checked SealedValue
  seal_value_box rand epoch_key container_id addr content_type plaintext = do
    keyed ← refuse_if (is_nil epoch_key.epoch_id || is_empty epoch_key.bytes) bad_request
    held ← refuse_if (is_nil container_id) bad_request
    filled ← refuse_if (is_empty content_type || is_empty plaintext) bad_request
    sub_key ← aead.derive_sub_key epoch_key.bytes sealed_value_purpose
    cipher ← aead.seal_aead rand sub_key plaintext (element_lsm addr.element_id)
    passes record {
      container_id = container_id;
      epoch_id = epoch_key.epoch_id;
      role = epoch_key.role;
      content_type = content_type;
      ciphertext = cipher.0 ++ cipher.1;
    }

  abbrev pub open_value : SymKey → Address → SealedValue → Checked (List ℕ)
  open_value epoch_key addr box = do
    long ← refuse_if (ltb (length box.ciphertext) nonce_size) bad_request
    ours ← refuse_if (not (same_uid epoch_key.epoch_id box.epoch_id)) bad_request
    roled ← refuse_if (not (epoch_key.role == box.role)) bad_request
    sub_key ← aead.derive_sub_key epoch_key.bytes sealed_value_purpose
    aead.open_aead sub_key (take nonce_size box.ciphertext) (drop nonce_size box.ciphertext)
        (element_lsm addr.element_id)

  unfoldable pub open_value_box : SymKey → Address → Option SealedValue → Checked (List ℕ)
  open_value_box epoch_key addr none = refuses bad_request
  open_value_box epoch_key addr (some box) = open_value epoch_key addr box
