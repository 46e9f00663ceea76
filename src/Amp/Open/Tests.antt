-- ===== src/Amp/Open/Tests.antt =====
-- The theorems on sealed transactions at concrete inputs.
use amp_sdk.Base.{
  ℕ, ◌+◌, ◌^◌, ◌<◌, ◌≡◌, refl, arith, true, false, List, [], ◌∷◌, ◌++◌, none, some, length, take,
  drop,
}
use amp_sdk.Base.Bytes.{put_be, be_value, bytes_compare}
use amp_sdk.Tag.Uid.{append_to}
use amp_sdk.Safe.Sign.{concat, signing_parts, frame_parts, signing_domain_tag}
use amp_sdk.Amp.Wire.{
  put_uvarint, put_uvarint_loop, write_pb, read_pb, read_message, read_span, uvarint, uvarint_loop,
}
use amp_sdk.Amp.Ops.{
  append_ops, put_ops, put_op, put_fields, changed_from, read_ops_section, read_ops, read_op,
  read_fields,
}
use amp_sdk.Amp.Seal.{
  ◌>>=◌, seal_tx, seal_private, sign_wire, private_wire, put_sizes, put_lengths, scratch, zeros,
  marshal_payload, marshal_head, marshal_head_and_ops, marshal_to_buffer, member_proof_input,
  is_public,
}
use amp_sdk.Amp.Seal.SealError.{end_of_stream}
use amp_sdk.Amp.Seal.Answer.{answers, refuses, panics}
use amp_sdk.Amp.Open.{
  open_tx, parse_tx_envelope, tx_signed_digest, read_tx_msg, malformed, is_signed_preamble,
  tx_head_len, Chunk, read_behind, read_bytes, tx_data_len, unmarshal_head, read_payload,
}
use amp_sdk.Amp.Open.Local.{IsSized, open_tx-seal_tx_local}
use amp_sdk.Amp.Open.Reads.{bytes_of}
use amp_sdk.Amp.Open.Stream.{read_tx_msg-marshal_to_buffer, read_tx_msg-panics}
use amp_sdk.Amp.Open.Sealed.{payload, with_proof}
use amp_sdk.Amp.Open.RoundTrip.{
  open_tx-seal_tx, tx_signed_digest-seal_tx, parse_tx_envelope-seal_tx,
}
use amp_sdk.Amp.Open.Samples.{codec, codec_laws, crypto, crypto_laws, uid, tx, op-IsOp, authored}

-- What SealTx makes of the transaction: a preamble, an envelope with its proof, the marked payload and
-- store, and the signature.
abbrev bytes : List ℕ
bytes =
    65 ∷ 77 ∷ 80 ∷ 49 ∷ 0 ∷ 0 ∷ 0 ∷ 69 ∷ 0 ∷ 0 ∷ 0 ∷ 0 ∷ 0 ∷ 2 ∷ 0 ∷ 0 ∷ 9 ∷ 0 ∷ 77 ∷ 0 ∷ 8 ∷ 0 ∷ 4
    ∷ 0 ∷ 0 ∷ 5 ∷ 238 ∷ 5 ∷ 0 ∷ 0 ∷ 0 ∷ 5 ∷ 0 ∷ 0 ∷ 0 ∷ 0 ∷ 30 ∷ 1 ∷ 0 ∷ 0 ∷ 2 ∷ 0 ∷ 42 ∷ 0 ∷ 0 ∷ 0
    ∷ 0 ∷ 0 ∷ 0 ∷ 0 ∷ 3 ∷ 0 ∷ 0 ∷ 0 ∷ 0 ∷ 0 ∷ 0 ∷ 0 ∷ 2 ∷ 0 ∷ 0 ∷ 0 ∷ 0 ∷ 0 ∷ 0 ∷ 0 ∷ 1 ∷ 1 ∷ 6 ∷ 87
    ∷ 9 ∷ []

answered : seal_tx codec (some crypto) [] (tx 4) ≡ answers (bytes, with_proof (tx 4) (5 ∷ []))
unfolding seal_tx seal_private sign_wire private_wire put_sizes scratch zeros marshal_payload
    append_ops put_ops put_op put_fields changed_from put_be write_pb put_uvarint put_uvarint_loop
    member_proof_input append_to is_public signing_parts frame_parts signing_domain_tag concat
answered = refl

payload_fits : length (payload codec (tx 4)) + 2 < 2 ^ 32
unfolding marshal_payload append_ops put_ops put_op put_fields changed_from put_be write_pb
    put_uvarint put_uvarint_loop
payload_fits = omega arith

open_tx-seal_tx_example :
    (open_tx codec (some crypto) [] (uid 0) true bytes
      ≡ answers (record (with_proof (tx 4) (5 ∷ [])) { normalized = false }))
    × (with_proof (tx 4) (5 ∷ []) ≡ with_proof (tx 4) (5 ∷ []))
open_tx-seal_tx_example =
    open_tx-seal_tx codec crypto [] (uid 0) codec_laws (crypto_laws [] (uid 0)) [] (tx 4)
      (with_proof (tx 4) (5 ∷ [])) bytes (omega arith) (omega arith) (omega arith) answered true
      op-IsOp (authored 4) payload_fits

tx_signed_digest-seal_tx_example :
    (digest : List ℕ) × (sig : List ℕ) × (tx_signed_digest (some (λ t. t)) bytes
      ≡ answers (digest, sig))
    × (crypto.sign_digest digest ≡ answers sig)
tx_signed_digest-seal_tx_example =
    tx_signed_digest-seal_tx codec crypto [] (uid 0) codec_laws (crypto_laws [] (uid 0)) [] (tx 4)
      (with_proof (tx 4) (5 ∷ [])) bytes (omega arith) (omega arith) (omega arith) answered (λ t. t)
      (λ framed. refl)

parse_tx_envelope-seal_tx_example :
    parse_tx_envelope codec bytes ≡ answers (with_proof (tx 4) (5 ∷ [])).envelope
parse_tx_envelope-seal_tx_example =
    parse_tx_envelope-seal_tx codec crypto [] (uid 0) codec_laws (crypto_laws [] (uid 0)) [] (tx 4)
      (with_proof (tx 4) (5 ∷ [])) bytes (omega arith) (omega arith) (omega arith) answered

sized : IsSized codec (tx 0)
unfolding marshal_payload append_ops put_ops put_op put_fields changed_from put_be write_pb
    put_uvarint put_uvarint_loop
sized = (omega arith, omega arith)

open_tx-seal_tx_local_example :
    (seal_tx codec none [] (tx 0) >>= λ r. open_tx codec none [] (uid 0) true r.0)
    ≡ refuses malformed
open_tx-seal_tx_local_example =
    open_tx-seal_tx_local codec (tx 0) [] codec_laws [] (uid 0) true op-IsOp (authored 0) sized

-- The bytes in two reads, with two bytes of what follows, which comes with an error.
abbrev two_reads : List Chunk
two_reads =
    record { bytes = take 20 (marshal_to_buffer codec [] (tx 0)); with_error = false }
    ∷ record {
      bytes = drop 20 (marshal_to_buffer codec [] (tx 0)) ++ (3 ∷ 4 ∷ []);
      with_error = false;
    }
    ∷ []

abbrev behind : List Chunk
behind = record { bytes = 7 ∷ []; with_error = true } ∷ []

two_reads-bytes : bytes_of two_reads ≡ marshal_to_buffer codec [] (tx 0) ++ (3 ∷ 4 ∷ [])
unfolding marshal_to_buffer marshal_head_and_ops marshal_head put_lengths scratch zeros
    marshal_payload append_ops put_ops put_op put_fields changed_from put_be write_pb put_uvarint
    put_uvarint_loop bytes_of
two_reads-bytes = refl

read_tx_msg-marshal_to_buffer_example :
    (rest : List Chunk) × (read_tx_msg codec (two_reads ++ behind)
      ≡ answers (record (tx 0) { normalized = false }, rest ++ behind))
    × (bytes_of rest ≡ 3 ∷ 4 ∷ [])
read_tx_msg-marshal_to_buffer_example =
    read_tx_msg-marshal_to_buffer codec codec_laws (tx 0) [] two_reads behind (3 ∷ 4 ∷ []) op-IsOp
      (authored 0) sized (refl, (refl, tt)) two_reads-bytes

-- All the bytes in one read, with the error of the end of the stream beside them.
refused_at_end :
    read_tx_msg codec (record { bytes = marshal_to_buffer codec [] (tx 0); with_error = true } ∷ [])
    ≡ refuses end_of_stream
unfolding marshal_to_buffer marshal_head_and_ops marshal_head put_lengths scratch zeros
    marshal_payload append_ops put_ops put_op put_fields changed_from put_be write_pb put_uvarint
    put_uvarint_loop read_tx_msg read_behind read_bytes is_signed_preamble bytes_compare tx_head_len
    tx_data_len be_value unmarshal_head read_payload read_pb uvarint uvarint_loop read_ops_section
    read_ops read_op read_fields read_message read_span
refused_at_end = refl

abbrev short_head : List ℕ
short_head = 65 ∷ 77 ∷ 80 ∷ 49 ∷ 0 ∷ 0 ∷ 0 ∷ 15 ∷ 0 ∷ 0 ∷ 0 ∷ 0 ∷ 0 ∷ 0 ∷ 0 ∷ 0 ∷ []

short_head-is_signed : is_signed_preamble short_head ≡ true
unfolding is_signed_preamble bytes_compare
short_head-is_signed = refl

short_head-lt : tx_head_len short_head < 16
unfolding tx_head_len be_value
short_head-lt = omega arith

abbrev one_read : List Chunk
one_read = record { bytes = short_head; with_error = false } ∷ []

read_tx_msg-panics_example :
    (read_tx_msg codec (one_read ++ []) ≡ panics)
    × (open_tx codec none [] (uid 0) true (short_head ++ []) ≡ refuses malformed)
read_tx_msg-panics_example =
    read_tx_msg-panics codec none [] (uid 0) true one_read [] short_head [] (refl, tt)
      (unfold bytes_of in refl) refl short_head-is_signed short_head-lt
