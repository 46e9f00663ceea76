-- ===== src/Amp/Open/Local.antt =====
-- A transaction that is written without a provider: what OpenTx and ReadTxMsg make of it.
use amp_sdk.Base.{ℕ, ◌+◌, ◌^◌, ◌<◌, ◌≡◌, refl, sym, ap, ◌∙◌, arith}
use amp_sdk.Base.{
  List, [], ◌∷◌, ◌++◌, none, All, Bool, true, false, length, drop, length-drop, append-nil,
  append_assoc, ◌==◌, ◌⊎◌, inl, inr, if_same, if◌then◌else◌,
}
use amp_sdk.Tag.Uid.{Uid}
use amp_sdk.Amp.Ops.Single.{IsOp}
use amp_sdk.Amp.Seal.{
  ◌>>=◌, Transaction, Codec, CodecLaws, scratch, put_lengths, marshal_head_and_ops,
  marshal_to_buffer, seal_tx,
}
use amp_sdk.Amp.Seal.Answer.{answers, refuses}
use amp_sdk.Amp.Seal.Layout.{head, length-scratch, marshal_head_and_ops-layout}
use amp_sdk.Amp.Open.{open_local, open_tx, malformed}
use amp_sdk.Amp.Open.Preamble.{
  front, wire, missing_store, wire-head_body, wire-data_behind, wire-is_accepted,
}
use amp_sdk.Amp.Open.Payload.{unmarshal_head-marshal, IsAuthored, restored-authored}

empty_or_some : (xs : List ℕ) → (xs ≡ []) ⊎ (0 < length xs)
empty_or_some [] = inl refl
empty_or_some (x ∷ xs) = inr (omega arith)

-- The lengths of a head and a data store fit the fields of the preamble.
abbrev pub IsSized : Codec → Transaction → Type 0
IsSized codec tx = (16 + length (head codec tx) < 2 ^ 32) × (length tx.data_store < 2 ^ 32)

module _ (codec : Codec) (tx : Transaction) (backing : List ℕ) where
  abbrev pub tail : List ℕ
  tail = drop 12 (scratch 300 backing)

  pub length-tail : length tail ≡ 4
  length-tail =
      omega (arith, length-drop 12 (scratch 300 backing), length-scratch 300 backing (omega arith))

  -- The bytes.
  pub marshal_to_buffer-layout :
      marshal_to_buffer codec backing tx ≡ wire tail (head codec tx) tx.data_store []
  unfolding marshal_to_buffer put_lengths
  marshal_to_buffer-layout =
      ap (λ t. t ++ tx.data_store) (marshal_head_and_ops-layout codec tx backing)
      ∙ append_assoc (front tail (head codec tx) tx.data_store []) (head codec tx) tx.data_store
      ∙ ap (λ t. front tail (head codec tx) tx.data_store [] ++ (head codec tx ++ t))
          (sym (append-nil tx.data_store))

  module _ (laws : CodecLaws codec) (valid : All IsOp tx.ops) (authored : IsAuthored tx)
      (sized : IsSized codec tx) where
    -- OpenTx without a provider gives back, whatever was in the buffer, the transaction that
    -- MarshalToBuffer wrote, except that it is not normalized: its operations are in the ranges of
    -- their types, their edits are those that reconstructEditIDs gives them, and the lengths of the
    -- head and of the data store fit 32 bits.
    pub open_tx-marshal_to_buffer :
        (signer : List ℕ) (kit : Uid) (verify_sig : Bool)
        → open_tx codec none signer kit verify_sig (marshal_to_buffer codec backing tx)
          ≡ answers (record tx { normalized = false })
    unfolding open_tx open_local
    open_tx-marshal_to_buffer signer kit verify_sig =
        let h : List ℕ = head codec tx in
        let ds : List ℕ = tx.data_store in
        rw
          (
            marshal_to_buffer-layout,
            wire-is_accepted tail h ds [] length-tail sized.0 sized.1,
            wire-head_body tail h ds [] length-tail sized.0 sized.1,
            wire-data_behind tail h ds [] length-tail sized.0 sized.1,
            unmarshal_head-marshal codec laws tx valid (omega arith),
          )
          (ap answers (restored-authored tx authored))

  whole_if_empty :
      tx.data_store ≡ []
      → marshal_head_and_ops codec backing tx ≡ marshal_to_buffer codec backing tx
  unfolding marshal_to_buffer
  whole_if_empty empty =
      sym (append-nil (marshal_head_and_ops codec backing tx))
      ∙ ap (λ t. marshal_head_and_ops codec backing tx ++ t) (sym empty)

  bare_layout :
      marshal_head_and_ops codec backing tx
      ≡ front tail (head codec tx) tx.data_store [] ++ head codec tx
  unfolding put_lengths
  bare_layout = marshal_head_and_ops-layout codec tx backing

  refused :
      (signer : List ℕ) (kit : Uid) (verify_sig : Bool)
      → IsSized codec tx
      → 0 < length tx.data_store
      → open_tx codec none signer kit verify_sig (marshal_head_and_ops codec backing tx)
        ≡ refuses malformed
  unfolding open_tx open_local
  refused signer kit verify_sig sized filled =
      rw
        (
          bare_layout,
          missing_store tail (head codec tx) tx.data_store [] length-tail sized.0 sized.1 filled,
          if_same,
        )
        refl

  -- SealTx without a provider does not write the data store, so that OpenTx without a provider refuses
  -- its bytes as malformed, unless the data store is empty: then it gives back the transaction, except
  -- that it is not normalized. The conditions are those under which it reads what MarshalToBuffer writes.
  pub open_tx-seal_tx_local :
      (laws : CodecLaws codec) (signer : List ℕ) (kit : Uid) (verify_sig : Bool)
      → All IsOp tx.ops
      → IsAuthored tx
      → IsSized codec tx
      → (seal_tx codec none backing tx >>= λ r. open_tx codec none signer kit verify_sig r.0) ≡ (
          if length tx.data_store == 0
          then answers (record tx { normalized = false })
          else refuses malformed)
  unfolding seal_tx
  open_tx-seal_tx_local laws signer kit verify_sig valid authored sized =
      elim (empty_or_some tx.data_store) [
        | inl empty ↦
            let test : (length tx.data_store == 0) ≡ true =
              ap (λ (t : List ℕ). length t == 0) empty in
            rw test (
              ap (open_tx codec none signer kit verify_sig) (whole_if_empty empty)
              ∙ open_tx-marshal_to_buffer laws valid authored sized signer kit verify_sig)
        | inr filled ↦
            let test : (length tx.data_store == 0) ≡ false = ground arith in
            rw test (refused signer kit verify_sig sized filled)
      ]
