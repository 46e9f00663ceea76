-- ===== src/Amp/Boxes/Opening.antt =====
-- What opens the boxes that SealEpochLinkBox and SealValueBox make.
use amp_sdk.Base.{ℕ, ◌≡◌, refl, sym, ap, ap₂, ◌∙◌}
use amp_sdk.Base.{Bool-cases, ◌⊎◌, inl, inr, not, ◌||◌, List, ◌++◌, some, length, take, drop, ltb}
use amp_sdk.Tag.Uid.{Uid, IsUid, is_nil, same_uid}
use amp_sdk.Tag.UidMap.{same_uid_refl}
use amp_sdk.Safe.Keys.{SymKey}
use amp_sdk.Amp.Epoch.{refuse_if, tag_uid, same_bytes}
use amp_sdk.Amp.Epoch.EpochError.{bad_request, decrypt_failed}
use amp_sdk.Amp.Epoch.Checked.{passes}
use amp_sdk.Amp.Epoch.Passing.{bind-passes, same_bytes-eq}
use amp_sdk.Amp.Boxes.{
  Aead, EncryptedSymKey, EpochLink, epoch_link_aad, nonce_size, content_key, epoch_link_purpose,
  seal_epoch_link_box, open_epoch_link_box, open_box,
}
use amp_sdk.Amp.Boxes.Sealing.{
  AeadLaws, IsForged, nonce_part, cipher_part, long_enough, aad-injective, IsLinkBox,
  seal-IsLinkBox,
}

module _ (aead : Aead) (laws : AeadLaws aead) where
  opens :
      (rand : List ℕ) (from_key to_key : SymKey) (box : EncryptedSymKey)
      → IsLinkBox aead rand from_key to_key box
      → open_epoch_link_box aead from_key (record {
        from_epoch = some from_key.epoch_id;
        to_epoch = some to_key.epoch_id;
        box = some box;
      })
        ≡ passes (record to_key { role = content_key })
  unfolding open_epoch_link_box
  opens rand from_key to_key box (named, named2, sub_key, nonce, cipher, derived, made, e) =
      let size = laws.length_nonce rand sub_key to_key.bytes _ nonce cipher made in
      let plain = laws.open_aead rand sub_key to_key.bytes _ nonce cipher made in
      rw
        (
          e,
          named,
          named2,
          same_uid_refl from_key.epoch_id,
          same_uid_refl to_key.epoch_id,
          long_enough nonce cipher size,
          derived,
          nonce_part nonce cipher size,
          cipher_part nonce cipher size,
          plain,
        )
        refl

  -- The key that SealEpochLinkBox encloses comes out of OpenEpochLinkBox under the sealing key, as a
  -- content key, from a link between the two epochs. The AEAD opens what it seals, and a nonce has 24
  -- bytes.
  pub open_epoch_link_box-seal :
      (rand : List ℕ) (from_key to_key : SymKey) (box : EncryptedSymKey)
      → seal_epoch_link_box aead rand from_key to_key ≡ passes box
      → open_epoch_link_box aead from_key (record {
        from_epoch = some from_key.epoch_id;
        to_epoch = some to_key.epoch_id;
        box = some box;
      })
        ≡ passes (record to_key { role = content_key })
  open_epoch_link_box-seal rand from_key to_key box h =
      opens rand from_key to_key box (seal-IsLinkBox aead rand from_key to_key box h)

  -- The subkey and the additional data with which a box has been opened.
  open_box-text :
      (from_key : SymKey) (from_epoch to_epoch : Uid) (box : EncryptedSymKey) (key : SymKey)
      → open_box aead from_key from_epoch to_epoch (some box) ≡ passes key
      → (sub_key : List ℕ) × (text : List ℕ) × (aead.derive_sub_key from_key.bytes
            epoch_link_purpose
          ≡ passes sub_key)
        × (aead.open_aead sub_key
              (take 24 box.ciphertext)
              (drop 24 box.ciphertext)
              (epoch_link_aad from_epoch to_epoch)
            ≡ passes text)
  open_box-text from_key from_epoch to_epoch box key h =
      let (u1, h1, k1) =
        bind-passes (refuse_if (is_nil from_epoch || is_nil to_epoch) bad_request) _ key h in
      let (u2, h2, k2) =
        bind-passes (refuse_if (not (same_uid from_key.epoch_id from_epoch)) bad_request) _ key
          k1 in
      let (u3, h3, k3) =
        bind-passes (refuse_if (not (same_uid box.epoch_id to_epoch)) bad_request) _ key k2 in
      let (u4, h4, k4) =
        bind-passes (refuse_if (ltb (length box.ciphertext) nonce_size) decrypt_failed) _ key k3 in
      let (sub_key, h5, k5) =
        bind-passes (aead.derive_sub_key from_key.bytes epoch_link_purpose) _ key k4 in
      let (text, h6, k6) =
        bind-passes
          (aead.open_aead sub_key (take 24 box.ciphertext) (drop 24 box.ciphertext)
            (epoch_link_aad from_epoch to_epoch))
          _ key k5 in
      (sub_key, text, h5, h6)

  -- Where a ciphertext that SealEpochLinkBox has made is opened by OpenEpochLinkBox, under whatever key, in
  -- whatever link and whatever else the box around it says, either the link is between the same two
  -- epochs, or the AEAD has opened what it made for the additional data of the one pair of epochs with the
  -- additional data of another. A nonce has 24 bytes, and the UIDs are pairs of 64-bit words.
  pub open_epoch_link_box-bound :
      (rand : List ℕ) (from_key to_key other key : SymKey) (box moved : EncryptedSymKey)
      (link : EpochLink)
      → IsUid from_key.epoch_id
      → IsUid to_key.epoch_id
      → IsUid (tag_uid link.from_epoch)
      → IsUid (tag_uid link.to_epoch)
      → seal_epoch_link_box aead rand from_key to_key ≡ passes box
      → link.box ≡ some moved
      → moved.ciphertext ≡ box.ciphertext
      → open_epoch_link_box aead other link ≡ passes key
      → (tag_uid link.from_epoch ≡ from_key.epoch_id) × (tag_uid link.to_epoch ≡ to_key.epoch_id)
        ⊎ IsForged aead epoch_link_purpose rand from_key.bytes to_key.bytes
            (epoch_link_aad from_key.epoch_id to_key.epoch_id)
            other.bytes
            (epoch_link_aad (tag_uid link.from_epoch) (tag_uid link.to_epoch))
  unfolding open_epoch_link_box
  open_epoch_link_box-bound rand from_key to_key other key box moved link hf ht lf lt h at_link same
        opened =
      let from : Uid = tag_uid link.from_epoch in
      let to : Uid = tag_uid link.to_epoch in
      let (named, named2, sub_key, nonce, cipher, derived, made, e) =
        seal-IsLinkBox aead rand from_key to_key box h in
      let (sub2, text, derived2, shown) =
        open_box-text other from to moved key
          (ap (open_box aead other from to) (sym at_link) ∙ opened) in
      let size = laws.length_nonce rand sub_key to_key.bytes _ nonce cipher made in
      let whole : moved.ciphertext ≡ nonce ++ cipher =
        same ∙ ap (λ (b : EncryptedSymKey). b.ciphertext) e in
      let shown2 =
        ap₂ (λ n c. aead.open_aead sub2 n c (epoch_link_aad from to))
          (sym (ap (take 24) whole ∙ nonce_part nonce cipher size))
          (sym (ap (drop 24) whole ∙ cipher_part nonce cipher size))
        ∙ shown in
      elim (Bool-cases
        (same_bytes (epoch_link_aad from to) (epoch_link_aad from_key.epoch_id to_key.epoch_id))) [
          | inl alike ↦ inl (aad-injective _ _ _ _ lf lt hf ht (same_bytes-eq _ _ alike))
          | inr unlike ↦ inr (record {
            sub_key = sub_key;
            nonce = nonce;
            cipher = cipher;
            other_sub_key = sub2;
            opened = text;
            derived = derived;
            made = made;
            other_derived = derived2;
            shown = shown2;
            differs = unlike;
          })
        ]
