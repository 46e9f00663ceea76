-- ===== src/Amp/Boxes/Values.antt =====
-- What opens the boxes that SealValueBox makes.
use amp_sdk.Base.{ℕ, ◌≡◌, refl, sym, ap, ap₂, ◌∙◌, arith}
use amp_sdk.Base.{
  Bool-cases, ◌⊎◌, inl, inr, true, not, ◌||◌, List, [], ◌++◌, some, length, take, drop, ltb, ◌==◌,
}
use amp_sdk.Tag.Uid.{Uid, is_nil, same_uid}
use amp_sdk.Tag.UidMap.{same_uid_refl}
use amp_sdk.Tag.Address.{Address, ElementId, element_lsm, element_id_of}
use amp_sdk.Tag.Address.Keys.{IsElementId, element_id_of-put}
use amp_sdk.Safe.Keys.{SymKey}
use amp_sdk.Amp.Quorum.{is_empty}
use amp_sdk.Amp.Epoch.{refuse_if, same_bytes}
use amp_sdk.Amp.Epoch.EpochError.{bad_request}
use amp_sdk.Amp.Epoch.Checked.{passes}
use amp_sdk.Amp.Epoch.Passing.{passes-injective, bind-passes, same_bytes-eq}
use amp_sdk.Amp.Boxes.{
  Aead, SealedValue, nonce_size, sealed_value_purpose, seal_value_box, open_value_box,
}
use amp_sdk.Amp.Boxes.Sealing.{AeadLaws, IsForged, nonce_part, cipher_part, long_enough}

element_lsm-injective :
    (a b : ElementId) → IsElementId a → IsElementId b → element_lsm a ≡ element_lsm b → a ≡ b
unfolding element_lsm
element_lsm-injective a b ha hb e =
    sym (element_id_of-put a [] ha) ∙ ap element_id_of e ∙ element_id_of-put b [] hb

module _ (aead : Aead) (laws : AeadLaws aead) where
  -- What SealValueBox has done where it passes.
  abbrev IsValueBox : List ℕ → SymKey → Uid → Address → List ℕ → List ℕ → SealedValue → Type 0
  IsValueBox rand epoch_key container_id addr content_type plaintext box =
      (sub_key : List ℕ) × (nonce : List ℕ) × (cipher : List ℕ) × (aead.derive_sub_key
          epoch_key.bytes sealed_value_purpose
        ≡ passes sub_key)
      × (aead.seal_aead rand sub_key plaintext (element_lsm addr.element_id)
          ≡ passes (nonce, cipher))
      × (box ≡ record {
        container_id = container_id;
        epoch_id = epoch_key.epoch_id;
        role = epoch_key.role;
        content_type = content_type;
        ciphertext = nonce ++ cipher;
      })

  seal-IsValueBox :
      (rand : List ℕ) (epoch_key : SymKey) (container_id : Uid) (addr : Address)
      (content_type plaintext : List ℕ) (box : SealedValue)
      → seal_value_box aead rand epoch_key container_id addr content_type plaintext ≡ passes box
      → IsValueBox rand epoch_key container_id addr content_type plaintext box
  unfolding seal_value_box
  seal-IsValueBox rand epoch_key container_id addr content_type plaintext box h =
      let (u1, h1, k1) =
        bind-passes (refuse_if (is_nil epoch_key.epoch_id || is_empty epoch_key.bytes) bad_request)
          _ box h in
      let (u2, h2, k2) = bind-passes (refuse_if (is_nil container_id) bad_request) _ box k1 in
      let (u3, h3, k3) =
        bind-passes (refuse_if (is_empty content_type || is_empty plaintext) bad_request) _ box
          k2 in
      let (sub_key, h4, k4) =
        bind-passes (aead.derive_sub_key epoch_key.bytes sealed_value_purpose) _ box k3 in
      let (cipher, h5, k5) =
        bind-passes (aead.seal_aead rand sub_key plaintext (element_lsm addr.element_id)) _ box
          k4 in
      (sub_key, cipher.0, cipher.1, h4, h5, sym (passes-injective _ box k5))

  -- OpenValueBox under the sealing key and at the same element gives back what SealValueBox sealed. The
  -- AEAD opens what it seals.
  pub open_value_box-seal :
      (rand : List ℕ) (epoch_key : SymKey) (container_id : Uid) (addr : Address)
      (content_type plaintext : List ℕ) (box : SealedValue)
      → seal_value_box aead rand epoch_key container_id addr content_type plaintext ≡ passes box
      → open_value_box aead epoch_key addr (some box) ≡ passes plaintext
  unfolding open_value_box
  open_value_box-seal rand epoch_key container_id addr content_type plaintext box h =
      let (sub_key, nonce, cipher, derived, made, e) =
        seal-IsValueBox rand epoch_key container_id addr content_type plaintext box h in
      let size = laws.length_nonce rand sub_key plaintext _ nonce cipher made in
      let roles : (epoch_key.role == epoch_key.role) ≡ true = ground arith in
      rw
        (
          e,
          long_enough nonce cipher size,
          same_uid_refl epoch_key.epoch_id,
          roles,
          derived,
          nonce_part nonce cipher size,
          cipher_part nonce cipher size,
          laws.open_aead rand sub_key plaintext _ nonce cipher made,
        )
        refl

  -- Where a ciphertext that SealValueBox has made is opened by OpenValueBox, under whatever key, at
  -- whatever element and whatever else the box around it says, either it is the element that it was
  -- sealed for, or the AEAD has opened what it made for the additional data of the one element with
  -- the additional data of another. A nonce has 24 bytes, and the elements' UIDs are pairs of 64-bit
  -- words.
  pub open_value_box-bound :
      (rand : List ℕ) (epoch_key other : SymKey) (container_id : Uid) (addr place : Address)
      (content_type plaintext text : List ℕ) (box moved : SealedValue)
      → IsElementId addr.element_id
      → IsElementId place.element_id
      → seal_value_box aead rand epoch_key container_id addr content_type plaintext ≡ passes box
      → moved.ciphertext ≡ box.ciphertext
      → open_value_box aead other place (some moved) ≡ passes text
      → (place.element_id ≡ addr.element_id)
        ⊎ IsForged aead sealed_value_purpose rand epoch_key.bytes plaintext
            (element_lsm addr.element_id)
            other.bytes
            (element_lsm place.element_id)
  unfolding open_value_box
  open_value_box-bound rand epoch_key other container_id addr place content_type plaintext text box
        moved ha hp h same opened =
      let (sub_key, nonce, cipher, derived, made, e) =
        seal-IsValueBox rand epoch_key container_id addr content_type plaintext box h in
      let (u1, h1, k1) =
        bind-passes (refuse_if (ltb (length moved.ciphertext) nonce_size) bad_request) _ text
          opened in
      let (u2, h2, k2) =
        bind-passes (refuse_if (not (same_uid other.epoch_id moved.epoch_id)) bad_request) _ text
          k1 in
      let (u3, h3, k3) =
        bind-passes (refuse_if (not (other.role == moved.role)) bad_request) _ text k2 in
      let (sub2, h4, k4) =
        bind-passes (aead.derive_sub_key other.bytes sealed_value_purpose) _ text k3 in
      let size = laws.length_nonce rand sub_key plaintext _ nonce cipher made in
      let whole : moved.ciphertext ≡ nonce ++ cipher =
        same ∙ ap (λ (b : SealedValue). b.ciphertext) e in
      let nonce_of = ap (take 24) whole ∙ nonce_part nonce cipher size in
      let cipher_of = ap (drop 24) whole ∙ cipher_part nonce cipher size in
      let shown : aead.open_aead sub2 nonce cipher (element_lsm place.element_id) ≡ passes text =
        ap₂ (λ n c. aead.open_aead sub2 n c (element_lsm place.element_id)) (sym nonce_of)
          (sym cipher_of)
        ∙ k4 in
      elim (Bool-cases (same_bytes (element_lsm place.element_id) (element_lsm addr.element_id))) [
        | inl alike ↦ inl (element_lsm-injective _ _ hp ha (same_bytes-eq _ _ alike))
        | inr unlike ↦ inr (record {
          sub_key = sub_key;
          nonce = nonce;
          cipher = cipher;
          other_sub_key = sub2;
          opened = text;
          derived = derived;
          made = made;
          other_derived = h4;
          shown = shown;
          differs = unlike;
        })
      ]
