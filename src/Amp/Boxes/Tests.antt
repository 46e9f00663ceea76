-- ===== src/Amp/Boxes/Tests.antt =====
-- The theorems on sealed boxes at concrete inputs.
use amp_sdk.Base.{
  ℕ, ◌≡◌, refl, sym, ap, ◌∙◌, arith, List, [], ◌∷◌, ◌++◌, some, length, if◌then◌else◌, take, drop,
  ◌⊎◌, take-append, drop-append,
}
use amp_sdk.Base.Bytes.{put_be}
use amp_sdk.Tag.Uid.{Uid, is_nil, compare_to, append_to}
use amp_sdk.Tag.Address.{Address, element_lsm, put_element_lsm, put_uid}
use amp_sdk.Safe.Keys.{SymKey}
use amp_sdk.Amp.Epoch.{Checked, same_bytes}
use amp_sdk.Amp.Epoch.Checked.{passes, refuses}
use amp_sdk.Amp.Epoch.EpochError.{decrypt_failed}
use amp_sdk.Amp.Epoch.Passing.{passes-injective, same_bytes_refl}
use amp_sdk.Amp.Boxes.{
  Aead, epoch_link_aad, epoch_link_purpose, sealed_value_purpose, EncryptedSymKey, EpochLink,
  SealedValue, seal_epoch_link_box, open_epoch_link_box, seal_value_box,
}
use amp_sdk.Amp.Boxes.Sealing.{AeadLaws, IsForged}
use amp_sdk.Amp.Boxes.Opening.{open_epoch_link_box-seal, open_epoch_link_box-bound}
use amp_sdk.Amp.Boxes.Values.{open_value_box-seal, open_value_box-bound}

-- An AEAD whose ciphertext is the additional data's length, the additional data and the text.
abbrev open_parts : List ℕ → List ℕ → Checked (List ℕ)
open_parts [] aad = refuses decrypt_failed
open_parts (n ∷ rest) aad =
    if same_bytes (take n rest) aad then passes (drop n rest) else refuses decrypt_failed

abbrev nonce : List ℕ
nonce =
    1 ∷ 2 ∷ 3 ∷ 4 ∷ 5 ∷ 6 ∷ 7 ∷ 8 ∷ 9 ∷ 10 ∷ 11 ∷ 12 ∷ 13 ∷ 14 ∷ 15 ∷ 16 ∷ 17 ∷ 18 ∷ 19 ∷ 20 ∷ 21
    ∷ 22 ∷ 23 ∷ 24 ∷ []

abbrev aead : Aead
aead = record {
  derive_sub_key = λ key purpose. passes (key ++ purpose);
  seal_aead = λ rand key text aad. passes (nonce, length aad ∷ (aad ++ text));
  open_aead = λ key n cipher aad. open_parts cipher aad;
}

opens_own : (aad text : List ℕ) → open_parts (length aad ∷ (aad ++ text)) aad ≡ passes text
opens_own aad text = rw (take-append aad text, same_bytes_refl aad, drop-append aad text) refl

abbrev made : List ℕ → List ℕ → List ℕ × List ℕ
made aad text = (nonce, length aad ∷ (aad ++ text))

parts_of :
    (aad text n c : List ℕ)
    → passes (made aad text) ≡ passes (n, c)
    → (nonce ≡ n) × ((length aad ∷ (aad ++ text)) ≡ c)
parts_of aad text n c h =
    let same = passes-injective (made aad text) (n, c) h in
    (ap (λ (p : List ℕ × List ℕ). p.0) same, ap (λ (p : List ℕ × List ℕ). p.1) same)

laws : AeadLaws aead
laws = record {
  length_nonce = λ rand key text aad n c h. sym (ap length (parts_of aad text n c h).0);
  open_aead = λ rand key text aad n c h.
      ap (λ t. open_parts t aad) (sym (parts_of aad text n c h).1) ∙ opens_own aad text;
}

abbrev uid : ℕ → Uid
uid n = record { w0 = 0; w1 = n }

abbrev key : ℕ → SymKey
key n = record { crypto_kit_id = uid 3; epoch_id = uid n; role = 0; bytes = n ∷ 9 ∷ [] }

abbrev link_box : EncryptedSymKey
link_box = record {
  crypto_kit_id = uid 3;
  epoch_id = uid 5;
  ciphertext = nonce ++ 32 ∷ (epoch_link_aad (uid 6) (uid 5) ++ 5 ∷ 9 ∷ []);
}

sealed_link : seal_epoch_link_box aead [] (key 6) (key 5) ≡ passes link_box
unfolding seal_epoch_link_box is_nil compare_to epoch_link_aad append_to put_be
sealed_link = refl

abbrev link : EpochLink
link = record { from_epoch = some (uid 6); to_epoch = some (uid 5); box = some link_box }

open_epoch_link_box-seal_example : open_epoch_link_box aead (key 6) link ≡ passes (key 5)
open_epoch_link_box-seal_example =
    open_epoch_link_box-seal aead laws [] (key 6) (key 5) link_box sealed_link

open_epoch_link_box-bound_example :
    (uid 6 ≡ uid 6) × (uid 5 ≡ uid 5)
    ⊎ IsForged aead epoch_link_purpose []
        (6 ∷ 9 ∷ [])
        (5 ∷ 9 ∷ [])
        (epoch_link_aad (uid 6) (uid 5))
        (6 ∷ 9 ∷ [])
        (epoch_link_aad (uid 6) (uid 5))
open_epoch_link_box-bound_example =
    open_epoch_link_box-bound aead laws [] (key 6) (key 5) (key 6) (key 5) link_box link_box link
      (omega arith, omega arith) (omega arith, omega arith) (omega arith, omega arith)
      (omega arith, omega arith) sealed_link refl refl
      (open_epoch_link_box-seal aead laws [] (key 6) (key 5) link_box sealed_link)

abbrev place : Address
place = record {
  element_id = record { node_id = uid 1; attr_id = uid 2; item_id = uid 4 };
  edit_id = uid 7;
}

abbrev value_box : SealedValue
value_box = record {
  container_id = uid 8;
  epoch_id = uid 6;
  role = 0;
  content_type = 70 ∷ [];
  ciphertext = nonce ++ 48 ∷ (element_lsm place.element_id ++ 42 ∷ []);
}

sealed_value : seal_value_box aead [] (key 6) (uid 8) place (70 ∷ []) (42 ∷ []) ≡ passes value_box
unfolding seal_value_box is_nil element_lsm put_element_lsm put_uid put_be
sealed_value = refl

open_value_box-bound_example :
    (place.element_id ≡ place.element_id)
    ⊎ IsForged aead sealed_value_purpose []
        (6 ∷ 9 ∷ [])
        (42 ∷ [])
        (element_lsm place.element_id)
        (6 ∷ 9 ∷ [])
        (element_lsm place.element_id)
open_value_box-bound_example =
    open_value_box-bound aead laws [] (key 6) (key 6) (uid 8) place place (70 ∷ []) (42 ∷ [])
      (42 ∷ []) value_box value_box
      ((omega arith, omega arith), (omega arith, omega arith), (omega arith, omega arith))
      ((omega arith, omega arith), (omega arith, omega arith), (omega arith, omega arith))
      sealed_value refl
      (open_value_box-seal aead laws [] (key 6) (uid 8) place (70 ∷ []) (42 ∷ []) value_box
        sealed_value)
