-- ===== src/Amp/Tx/Signature.antt =====
-- TxSigOffset: where the signature at the end of a sealed transaction begins.
use amp_sdk.Base.{ℕ, ◌+◌, ◌≤◌, ◌<◌, ◌≡◌, ◌↔◌, arith, List, length, take, drop}
use amp_sdk.Base.Bytes.{be_value}
use amp_sdk.Amp.Tx.{preamble_size, tx_sig_offset}
use amp_sdk.Amp.Tx.Result.{ok}

-- TxSigOffset answers an offset exactly where the signature that the preamble announces is not empty,
-- ends with the bytes, and begins behind the preamble.
pub tx_sig_offset_iff :
    (raw : List ℕ) (ofs : ℕ)
    → (tx_sig_offset raw ≡ ok ofs) ↔ (
        (preamble_size ≤ ofs)
        × (ofs < length raw)
        × (ofs + be_value (take 2 (drop 12 raw)) ≡ length raw))
unfolding tx_sig_offset
tx_sig_offset_iff raw ofs = ground arith
