-- ===== src/Amp/Tests.antt =====
-- The theorems on the amp package at concrete inputs.
use amp_sdk.Base.{
  ℕ, ◌+◌, ◌-◌, ◌*◌, ◌^◌, ◌≤◌, ◌<◌, ◌≡◌, ◌↔◌, refl, arith, List, [], ◌∷◌, ◌++◌, map, Option, some,
  length,
}
use amp_sdk.Base.Bytes.{put_be}
use amp_sdk.Tag.Uid.{nil}
use amp_sdk.Amp.Wire.{put_uvarint, put_uvarint_loop, uvarint, uvarint_loop, read_message}
use amp_sdk.Amp.Wire.Read.{done, panics, unfinished}
use amp_sdk.Amp.Wire.Message.{read_message-panics_iff}
use amp_sdk.Amp.Ops.{
  TxOp, no_fields, append_ops, put_ops, read_ops, read_ops_section, put_op, put_fields,
  changed_from,
}
use amp_sdk.Amp.Ops.Single.{wire_op}
use amp_sdk.Amp.Ops.RoundTrip.{read_ops_section-append_ops}
use amp_sdk.Amp.Ops.Skips.{skipping_back, read_ops-unfinished}

-- A message type whose bytes are the message.
abbrev bytes_marshal : List ℕ → Option (List ℕ)
bytes_marshal m = some m

abbrev bytes_unmarshal : List ℕ → Option (List ℕ)
bytes_unmarshal b = some b

-- Ten bytes for the length 2 ^ 64 - 15.
abbrev wrapping_length : List ℕ
wrapping_length = 0xF1 ∷ 0xFF ∷ 0xFF ∷ 0xFF ∷ 0xFF ∷ 0xFF ∷ 0xFF ∷ 0xFF ∷ 0xFF ∷ 1 ∷ []

wrapping_number : uvarint wrapping_length ≡ some (2 ^ 64 - 15, 10)
unfolding uvarint uvarint_loop
wrapping_number = refl

abbrev op : ℕ → TxOp
op n = record {
  addr = record {
    element_id = record {
      node_id = record { w0 = 1; w1 = 2 };
      attr_id = record { w0 = 3; w1 = n };
      item_id = record { w0 = n; w1 = 0xFFFFFFFFFFFFFFFF };
    };
    edit_id = nil;
  };
  flags = 1;
  logical = 0;
  data_ofs = n * 300;
  data_len = 300;
}

read_ops-unfinished_example :
    read_ops 1000 (skipping_back 1 2 3 4 (5 ∷ 6 ∷ [])) no_fields 0 ≡ unfinished
read_ops-unfinished_example =
    read_ops-unfinished 1 2 3 4 (5 ∷ 6 ∷ []) 1000 (omega arith) (omega arith) (omega arith)

read_message-panics_iff_example :
    (read_message wrapping_length 0 ≡ panics) ↔ (2 ^ 63 ≤ 0 + 10 + (2 ^ 64 - 15))
read_message-panics_iff_example =
    read_message-panics_iff wrapping_length 0 (2 ^ 64 - 15) 10 (omega arith) (omega arith)
      (omega arith) wrapping_number

small_section : length (put_ops no_fields (op 4 ∷ op 5 ∷ [])) < 2 ^ 32
unfolding put_ops put_op put_fields changed_from put_uvarint put_uvarint_loop put_be
small_section = omega arith

read_ops_section-append_ops_example :
    read_ops_section (append_ops (1 ∷ []) (op 4 ∷ op 5 ∷ []) ++ (9 ∷ [])) 1
    ≡ done (map wire_op (op 4 ∷ op 5 ∷ []), length (append_ops (1 ∷ []) (op 4 ∷ op 5 ∷ [])))
read_ops_section-append_ops_example =
    read_ops_section-append_ops (1 ∷ []) (9 ∷ []) (op 4 ∷ op 5 ∷ []) (omega arith) small_section
      (omega arith)
