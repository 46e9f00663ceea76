-- ===== src/Amp/Boxes/Sealing.antt =====
-- What SealEpochLinkBox promises, and the parts of what it makes.
use amp_sdk.Base.{ℕ, ◌^◌, ◌<◌, ◌≡◌, sym, ap, ◌∙◌, arith}
use amp_sdk.Base.{
  false, not, ◌||◌, List, ◌++◌, length, length-append, take, drop, take-append, drop-append, ltb,
}
use amp_sdk.Base.Bytes.{put_be, be_value, be_value-put_be}
use amp_sdk.Tag.Uid.{Uid, IsUid, is_nil, append_to, compare_to}
use amp_sdk.Safe.Keys.{SymKey}
use amp_sdk.Amp.Quorum.{is_empty}
use amp_sdk.Amp.Epoch.{refuse_if, same_bytes}
use amp_sdk.Amp.Epoch.EpochError.{bad_request}
use amp_sdk.Amp.Epoch.Checked.{passes}
use amp_sdk.Tag.Rank.{is_before}
use amp_sdk.Amp.Epoch.Passing.{passes-injective, bind-passes, refuse_if-passes, or-false}
use amp_sdk.Amp.Boxes.{
  Aead, EncryptedSymKey, epoch_link_aad, epoch_link_purpose, seal_epoch_link_box,
}

-- What an AEAD promises: a nonce has 24 bytes, and a ciphertext opens under its key, its nonce and its
-- additional data.
pub record AeadLaws (aead : Aead) : Type 0 where
  pub length_nonce :
      (rand key text aad nonce cipher : List ℕ)
      → aead.seal_aead rand key text aad ≡ passes (nonce, cipher)
      → length nonce ≡ 24
  pub open_aead :
      (rand key text aad nonce cipher : List ℕ)
      → aead.seal_aead rand key text aad ≡ passes (nonce, cipher)
      → aead.open_aead key nonce cipher aad ≡ passes text

-- A forgery, which an AEAD is there to make infeasible: what it made of a text under the subkey of one key
-- and with some additional data, it opens under the subkey of a key with other additional data.
pub record IsForged (aead : Aead) (purpose rand key text aad other_key other_aad : List ℕ)
    : Type 0 where
  pub sub_key : List ℕ
  pub nonce : List ℕ
  pub cipher : List ℕ
  pub other_sub_key : List ℕ
  pub opened : List ℕ
  pub derived : aead.derive_sub_key key purpose ≡ passes sub_key
  pub made : aead.seal_aead rand sub_key text aad ≡ passes (nonce, cipher)
  pub other_derived : aead.derive_sub_key other_key purpose ≡ passes other_sub_key
  pub shown : aead.open_aead other_sub_key nonce cipher other_aad ≡ passes opened
  pub differs : same_bytes other_aad aad ≡ false

uid_eq_words : (a b : Uid) → a.w0 ≡ b.w0 → a.w1 ≡ b.w1 → a ≡ b
uid_eq_words a b h0 h1 = λ i. record { w0 = h0 i; w1 = h1 i }

-- The two parts of a ciphertext behind its nonce.
pub nonce_part : (nonce cipher : List ℕ) → length nonce ≡ 24 → take 24 (nonce ++ cipher) ≡ nonce
nonce_part nonce cipher h = ap (λ n. take n (nonce ++ cipher)) (sym h) ∙ take-append nonce cipher

pub cipher_part : (nonce cipher : List ℕ) → length nonce ≡ 24 → drop 24 (nonce ++ cipher) ≡ cipher
cipher_part nonce cipher h = ap (λ n. drop n (nonce ++ cipher)) (sym h) ∙ drop-append nonce cipher

pub long_enough :
    (nonce cipher : List ℕ) → length nonce ≡ 24 → ltb (length (nonce ++ cipher)) 24 ≡ false
long_enough nonce cipher h = ground (arith, length-append nonce cipher)

-- The additional data determines both epochs.
pub aad-injective :
    (a b c d : Uid)
    → IsUid a
    → IsUid b
    → IsUid c
    → IsUid d
    → epoch_link_aad a b ≡ epoch_link_aad c d
    → (a ≡ c) × (b ≡ d)
unfolding epoch_link_aad append_to put_be
aad-injective a b c d ha hb hc hd e =
    let word : (v w : ℕ)
        → v < 2 ^ 64
        → w < 2 ^ 64
        → be_value (put_be 8 v) ≡ be_value (put_be 8 w)
        → v ≡ w =
      λ v w hv hw same. sym (be_value-put_be 8 v hv) ∙ same ∙ be_value-put_be 8 w hw in
    let field : (n : ℕ)
        → be_value (take 8 (drop n (epoch_link_aad a b)))
          ≡ be_value (take 8 (drop n (epoch_link_aad c d))) =
      λ n. ap (λ t. be_value (take 8 (drop n t))) e in
    (
      uid_eq_words a c (word a.w0 c.w0 ha.0 hc.0 (field 0)) (word a.w1 c.w1 ha.1 hc.1 (field 8)),
      uid_eq_words b d (word b.w0 d.w0 hb.0 hd.0 (field 16)) (word b.w1 d.w1 hb.1 hd.1 (field 24)),
    )

module _ (aead : Aead) where
  -- What SealEpochLinkBox has done where it passes.
  abbrev pub IsLinkBox : List ℕ → SymKey → SymKey → EncryptedSymKey → Type 0
  IsLinkBox rand from_key to_key box =
      (is_nil from_key.epoch_id ≡ false)
      × (is_nil to_key.epoch_id ≡ false)
      × (sub_key : List ℕ) × (nonce : List ℕ) × (cipher : List ℕ) × (aead.derive_sub_key
            from_key.bytes epoch_link_purpose
          ≡ passes sub_key)
      × (aead.seal_aead rand sub_key to_key.bytes (epoch_link_aad from_key.epoch_id to_key.epoch_id)
          ≡ passes (nonce, cipher))
      × (box ≡ record {
        crypto_kit_id = to_key.crypto_kit_id;
        epoch_id = to_key.epoch_id;
        ciphertext = nonce ++ cipher;
      })

  pub seal-IsLinkBox :
      (rand : List ℕ) (from_key to_key : SymKey) (box : EncryptedSymKey)
      → seal_epoch_link_box aead rand from_key to_key ≡ passes box
      → IsLinkBox rand from_key to_key box
  unfolding seal_epoch_link_box
  seal-IsLinkBox rand from_key to_key box h =
      let (u1, h1, k1) =
        bind-passes
          (refuse_if
            (is_nil from_key.epoch_id
              || (is_nil to_key.epoch_id || (is_empty from_key.bytes || is_empty to_key.bytes)))
            bad_request)
          _ box h in
      let (u2, h2, k2) =
        bind-passes
          (refuse_if (not (is_before (compare_to to_key.epoch_id from_key.epoch_id))) bad_request) _
          box k1 in
      let (sub_key, h3, k3) =
        bind-passes (aead.derive_sub_key from_key.bytes epoch_link_purpose) _ box k2 in
      let (cipher, h4, k4) =
        bind-passes
          (aead.seal_aead rand sub_key to_key.bytes
            (epoch_link_aad from_key.epoch_id to_key.epoch_id))
          _ box k3 in
      let (named, more) =
        or-false (is_nil from_key.epoch_id) _ (refuse_if-passes _ bad_request u1 h1) in
      let (named2, rest) = or-false (is_nil to_key.epoch_id) _ more in
      (named, named2, sub_key, cipher.0, cipher.1, h3, h4, sym (passes-injective _ box k4))
