-- ===== src/Amp/Rekey/Tests.antt =====
-- The re-key gate at a record that a founder signed, and base58 texts.
use amp_sdk.Base.{ℕ, ◌≡◌, refl, Bool, not, true, List, [], ◌∷◌, Option, some}
use amp_sdk.Base.Int.{pos}
use amp_sdk.Base.Bytes.{put_be}
use amp_sdk.Safe.Sign.{signing_digest, signing_parts, frame_parts, concat, signing_domain_tag}
use amp_sdk.Tag.Uid.{Uid, same_uid, is_nil, append_to}
use amp_sdk.Tag.Uid.Base32.{codes}
use amp_sdk.Amp.Member.{KeyRef}
use amp_sdk.Amp.Quorum.{is_empty, verify_quorum, collect, find_key, has_uid, quorum_size}
use amp_sdk.Amp.Rekey.{
  ReKey, base58_encode, leading_zeros, ones, spell_digits, add_bytes, add_byte, carry_digits,
  verify_rekey, rekey_digest, retires_own_fold, did_key_uid, frame_part,
}
use amp_sdk.Amp.Rekey.Gate.{IsAccepted, verify_rekey-IsAccepted}

hello : base58_encode (codes "Hello World!") ≡ codes "2NEpo7TZRRrLZSi2U"
unfolding base58_encode leading_zeros ones spell_digits add_bytes add_byte carry_digits
hello = refl

abbrev uid : ℕ → Uid
uid n = record { w0 = 0; w1 = n }

abbrev key : ℕ → Option KeyRef
key n = some (record { kit = uid 1; pub_key = n ∷ [] })

abbrev digest_of : Option (List ℕ → List ℕ)
digest_of = some (λ framed. framed)

abbrev hash : List ℕ → Uid
hash text = uid 42

abbrev verify : ℕ → List ℕ → List ℕ → Bool
verify k signature digest = not (is_empty digest)

abbrev record_of_five : ReKey
record_of_five = record {
  member_tag = some (uid 5);
  active = true;
  prior = key 2;
  signing_key = key 3;
  encrypt_key = key 4;
  cosignatures = some (record { member_tag = some (uid 1); signature = 9 ∷ [] }) ∷ [];
}

accepted :
    verify_rekey digest_of hash (uid 99) verify (uid 8) ((uid 1, 11) ∷ []) (pos 1) record_of_five
    ≡ some (uid 1 ∷ [])
unfolding verify_rekey rekey_digest retires_own_fold did_key_uid same_uid is_nil frame_part
    signing_digest signing_parts frame_parts append_to put_be verify_quorum collect find_key has_uid
    concat signing_domain_tag quorum_size
accepted = refl

verify_rekey-IsAccepted_example :
    IsAccepted digest_of hash
      (uid 99)
      verify
      (uid 8)
      ((uid 1, 11) ∷ [])
      (pos 1)
      record_of_five
      (uid 1 ∷ [])
verify_rekey-IsAccepted_example =
    verify_rekey-IsAccepted digest_of hash (uid 99) verify (uid 8) ((uid 1, 11) ∷ []) (pos 1)
      record_of_five (uid 1 ∷ []) accepted
