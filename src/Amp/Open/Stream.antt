-- ===== src/Amp/Open/Stream.antt =====
-- ReadTxMsg: the transaction at the front of a stream that comes in chunks.
use amp_sdk.Base.{ℕ, ◌+◌, ◌-◌, ◌≤◌, ◌<◌, ◌≡◌, refl, sym, ap, ◌∙◌, arith}
use amp_sdk.Base.{
  List, ◌++◌, Option, none, some, All, Bool, true, false, length, take, drop, length-drop, ltb,
  if_same,
}
use amp_sdk.Base.Bytes.{be_value}
use amp_sdk.Tag.Uid.{Uid}
use amp_sdk.Amp.Ops.Single.{IsOp}
use amp_sdk.Amp.Seal.{Transaction, Codec, CryptoProvider, CodecLaws, marshal_to_buffer}
use amp_sdk.Amp.Seal.Answer.{answers, refuses, panics}
use amp_sdk.Amp.Seal.Layout.{head}
use amp_sdk.Amp.Open.Preamble.{
  front, wire, length-front, wire-append, front-is_signed, front-head_len, front-data_len,
}
use amp_sdk.Amp.Open.Payload.{unmarshal_head-marshal, IsAuthored, restored-authored}
use amp_sdk.Amp.Open.Local.{IsSized, tail, length-tail, marshal_to_buffer-layout}
use amp_sdk.Amp.Open.{
  tx_head_len, is_signed_preamble, head_body, open_local, open_sealed, open_tx, malformed, Chunk,
  read_bytes, read_behind, read_tx_msg,
}
use amp_sdk.Amp.Open.Reads.{bytes_of, IsQuiet, take_within, read_bytes-bytes_of}

module _ (codec : Codec) (laws : CodecLaws codec) (tx : Transaction) (backing : List ℕ) where
  -- ReadTxMsg gives back the transaction that MarshalToBuffer wrote, except that it is not normalized,
  -- however the bytes are cut into reads that return no error, and leaves the stream behind the transaction,
  -- whatever it holds: the operations are in the ranges of their types, their edits are those that
  -- reconstructEditIDs gives them, and the lengths of the head and of the data store fit 32 bits.
  pub read_tx_msg-marshal_to_buffer :
      (chunks others : List Chunk) (later : List ℕ)
      → All IsOp tx.ops
      → IsAuthored tx
      → IsSized codec tx
      → All IsQuiet chunks
      → bytes_of chunks ≡ marshal_to_buffer codec backing tx ++ later
      → (rest : List Chunk) × (read_tx_msg codec (chunks ++ others)
          ≡ answers (record tx { normalized = false }, rest ++ others))
        × (bytes_of rest ≡ later)
  unfolding read_tx_msg read_behind
  read_tx_msg-marshal_to_buffer chunks others later valid authored sized quiet e =
      let h : List ℕ = head codec tx in
      let t : List ℕ = tail codec tx backing in
      let ds : List ℕ = tx.data_store in
      let four = length-tail codec tx backing in
      let size = length-front t h ds later four sized.0 sized.1 in
      let layout : bytes_of chunks ≡ wire t h ds later =
        e
        ∙ ap (λ w. w ++ later) (marshal_to_buffer-layout codec tx backing)
        ∙ wire-append t h ds later in
      let (s1, found1, calm1, left1) =
        read_bytes-bytes_of chunks others (front t h ds later) _ quiet layout in
      let (s2, found2, calm2, left2) = read_bytes-bytes_of s1 others h _ calm1 left1 in
      let (s3, found3, calm3, left3) = read_bytes-bytes_of s2 others ds _ calm2 left2 in
      let body : 16 + length h - 16 ≡ length h = omega arith in
      let long : ltb (16 + length h) 16 ≡ false = ground arith in
      (
        s3,
        rw
            (
              ap (λ n. read_bytes n (chunks ++ others)) (sym size) ∙ found1,
              front-is_signed t h ds later,
              front-head_len t h ds later sized.0,
              front-data_len t h ds later sized.1,
              long,
              body,
              found2,
              unmarshal_head-marshal codec laws tx valid (omega arith),
              found3,
            )
            (ap (λ m. answers (m, s3 ++ others)) (restored-authored tx authored)),
        left3,
      )

field_within :
    (pre rest : List ℕ) (k n : ℕ)
    → k + n ≤ length pre
    → take n (drop k (pre ++ rest)) ≡ take n (drop k pre)
field_within pre rest k n h =
    ap (take n) (take_within pre rest k (omega arith)).1
    ∙ (take_within (drop k pre) rest n (omega (arith, length-drop k pre))).0

same_head_len : (pre rest : List ℕ) → length pre ≡ 16 → tx_head_len (pre ++ rest) ≡ tx_head_len pre
unfolding tx_head_len
same_head_len pre rest size = ap be_value (field_within pre rest 4 4 (omega arith))

open_tx-short :
    (codec : Codec) (crypto : Option CryptoProvider) (signer : List ℕ) (kit : Uid)
    (verify_sig : Bool) (wire : List ℕ)
    → tx_head_len wire < 16
    → open_tx codec crypto signer kit verify_sig wire ≡ refuses malformed
unfolding open_tx open_local open_sealed head_body
open_tx-short codec none signer kit verify_sig wire short =
    let small : ltb (tx_head_len wire) 16 ≡ true = ground arith in rw (small, if_same) refl
open_tx-short codec (some crypto) signer kit verify_sig wire short =
    let small : ltb (tx_head_len wire) 16 ≡ true = ground arith in rw (small, if_same) refl

-- On an accepted preamble that states a head of fewer than sixteen bytes, ReadTxMsg panics, however the
-- bytes are cut into reads that return no error, where OpenTx refuses the same bytes, with and without a provider.
pub read_tx_msg-panics :
    (codec : Codec) (crypto : Option CryptoProvider) (signer : List ℕ) (kit : Uid)
    (verify_sig : Bool) (chunks others : List Chunk) (pre rest : List ℕ)
    → All IsQuiet chunks
    → bytes_of chunks ≡ pre ++ rest
    → length pre ≡ 16
    → is_signed_preamble pre ≡ true
    → tx_head_len pre < 16
    → (read_tx_msg codec (chunks ++ others) ≡ panics)
      × (open_tx codec crypto signer kit verify_sig (pre ++ rest) ≡ refuses malformed)
unfolding read_tx_msg
read_tx_msg-panics codec crypto signer kit verify_sig chunks others pre rest quiet e size signed
      short =
    let (later, found, calm, left) = read_bytes-bytes_of chunks others pre rest quiet e in
    let small : ltb (tx_head_len pre) 16 ≡ true = ground arith in
    (
      rw (ap (λ n. read_bytes n (chunks ++ others)) (sym size) ∙ found, signed, small) refl,
      open_tx-short codec crypto signer kit verify_sig (pre ++ rest)
          (omega (arith, same_head_len pre rest size)),
    )
