-- ===== src/Amp/Open/Samples.antt =====
-- A codec, a provider and a transaction for the tests.
use amp_sdk.Base.{
  ℕ, ◌≡◌, refl, sym, ap, ◌∙◌, arith, true, false, List, [], ◌∷◌, Option, none, some, All, length,
  ◌==◌, if◌then◌else◌,
}
use amp_sdk.Tag.Uid.{Uid}
use amp_sdk.Safe.Sign.{concat}
use amp_sdk.Amp.Ops.{TxOp}
use amp_sdk.Amp.Ops.Single.{IsOp}
use amp_sdk.Amp.Tx.{edit_of}
use amp_sdk.Amp.Seal.{
  Answer, TxEnvelope, TxHeader, Transaction, Codec, CodecLaws, CryptoProvider, CryptoLaws,
  is_public,
}
use amp_sdk.Amp.Seal.Answer.{answers, refuses}
use amp_sdk.Amp.Seal.SealError.{provider}
use amp_sdk.Amp.Open.Payload.{IsAuthored}
use amp_sdk.Amp.Open.Signed.{answers-injective}

-- Two message types whose bytes are their fields, one number each.
abbrev envelope_fields : TxEnvelope → List ℕ
envelope_fields e =
    e.tx_id.w0 ∷ e.tx_id.w1 ∷ e.planet_id.w0 ∷ e.planet_id.w1 ∷ e.epoch_id.w0 ∷ e.epoch_id.w1
    ∷ e.planet_epoch_id.w0 ∷ e.planet_epoch_id.w1 ∷ e.member_proof

abbrev envelope_from : List ℕ → Option TxEnvelope
envelope_from (a ∷ b ∷ c ∷ d ∷ e ∷ f ∷ g ∷ h ∷ proof) = some record {
  tx_id = record { w0 = a; w1 = b };
  planet_id = record { w0 = c; w1 = d };
  epoch_id = record { w0 = e; w1 = f };
  member_proof = proof;
  planet_epoch_id = record { w0 = g; w1 = h };
}
envelope_from _ = none

abbrev request_fields : Option (List ℕ) → List ℕ
request_fields none = []
request_fields (some r) = 1 ∷ r

abbrev request_from : List ℕ → Option (List ℕ)
request_from [] = none
request_from (x ∷ r) = some r

abbrev header_fields : TxHeader → List ℕ
header_fields h =
    h.context_id.w0
    ∷ h.context_id.w1
    ∷ h.from_id.w0
    ∷ h.from_id.w1
    ∷ h.status
    ∷ request_fields h.request

abbrev header_from : List ℕ → Option TxHeader
header_from (a ∷ b ∷ c ∷ d ∷ s ∷ r) = some record {
  context_id = record { w0 = a; w1 = b };
  from_id = record { w0 = c; w1 = d };
  status = s;
  request = request_from r;
}
header_from _ = none

abbrev pub codec : Codec
codec = record {
  marshal_envelope = λ e. some (envelope_fields e);
  unmarshal_envelope = envelope_from;
  marshal_header = λ h. some (header_fields h);
  unmarshal_header = header_from;
}

request_lem : (r : Option (List ℕ)) → request_from (request_fields r) ≡ r
request_lem none = refl
request_lem (some r) = refl

pub codec_laws : CodecLaws codec
codec_laws = record {
  envelope_bytes = envelope_fields;
  header_bytes = header_fields;
  marshal_envelope = λ e. refl;
  unmarshal_envelope = λ e. refl;
  marshal_header = λ h. refl;
  unmarshal_header = λ h. ap (λ r. some (record h { request = r })) (request_lem h.request);
}

abbrev behind_mark : List ℕ → Answer (List ℕ)
behind_mark [] = refuses (provider 1)
behind_mark (x ∷ text) = answers text

-- What a provider gives for a public envelope, nothing, and for another one.
abbrev unless_public : TxEnvelope → Answer (List ℕ) → Answer (List ℕ)
unless_public env given = if is_public env then answers [] else given

unless_public-private :
    (env : TxEnvelope) (given : Answer (List ℕ))
    → is_public env ≡ false
    → unless_public env given ≡ given
unless_public-private env given private = rw private refl

-- A provider that signs a digest with its length, and marks the ciphertext of an envelope with a byte.
abbrev pub crypto : CryptoProvider
crypto = record {
  signature_size = 2;
  hash_digest = λ framed. answers (concat framed);
  sign_digest = λ digest. answers (length digest ∷ 9 ∷ []);
  verify_digest =
      λ sig digest signer kit. if length sig == 2 then answers tt else refuses (provider 2);
  encrypt_payload = λ text env. unless_public env (answers (0xEE ∷ text));
  decrypt_payload = λ cipher env. unless_public env (behind_mark cipher);
  compute_member_proof = λ id env. unless_public env (answers (5 ∷ []));
}

pub crypto_laws : (signer : List ℕ) (kit : Uid) → CryptoLaws crypto signer kit
crypto_laws signer kit = record {
  signature_size = λ digest sig h. sym (ap length (answers-injective _ sig h));
  verify_digest = λ digest sig h.
      ap (λ (s : List ℕ). if length s == 2 then answers tt else refuses (provider 2))
        (sym (answers-injective _ sig h));
  decrypt_payload = λ text cipher proof env private h.
      unless_public-private (record env { member_proof = proof }) (behind_mark cipher)
        (unfold is_public in private)
      ∙ ap behind_mark (
          sym (
            answers-injective _ cipher
              (sym (unless_public-private env (answers (0xEE ∷ text)) private) ∙ h)));
}

abbrev pub uid : ℕ → Uid
uid n = record { w0 = 0; w1 = n }

abbrev pub op : TxOp
op = record {
  addr = record {
    element_id = record { node_id = uid 1; attr_id = uid 2; item_id = uid 3 };
    edit_id = uid 77;
  };
  flags = 1;
  logical = 0;
  data_ofs = 0;
  data_len = 2;
}

abbrev pub tx : ℕ → Transaction
tx epoch = record {
  envelope = record {
    tx_id = uid 77;
    planet_id = uid 8;
    epoch_id = uid epoch;
    member_proof = [];
    planet_epoch_id = uid 0;
  };
  header = record { context_id = uid 0; from_id = uid 5; status = 0; request = none };
  ops = op ∷ [];
  data_store = 1 ∷ 6 ∷ [];
  normalized = true;
}

pub op-IsOp : All IsOp (op ∷ [])
op-IsOp = ((omega arith, omega arith, omega arith, omega arith, omega arith), tt)

pub authored : (epoch : ℕ) → IsAuthored (tx epoch)
unfolding edit_of
authored epoch = (refl, tt)
