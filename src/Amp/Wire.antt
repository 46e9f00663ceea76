-- ===== src/Amp/Wire.antt =====
-- amp/amp.support.tx.go: the variable-length numbers of encoding/binary, and length-prefixed messages
-- (writePb and readPb). Bytes are numbers below 256 in a list.
pub mod Uvarint
pub mod Message
use amp_sdk.Base.{
  ℕ, zero, suc, ◌+◌, ◌-◌, ◌*◌, ◌/◌, ◌%◌, ◌^◌, bit_and, bit_or, Bool, true, false, ◌&&◌,
}
use amp_sdk.Base.{
  List, [], ◌∷◌, ◌++◌, Option, none, some, length, take, drop, ltb, leb, ◌==◌, if◌then◌else◌,
}
use amp_sdk.Tag.Uid.{u64}

-- What a read of untrusted bytes comes to: a value, `status.ErrMalformedTx`, a run-time panic on a slice
-- out of range, or a loop that has used up its fuel.
pub data Read (A : Type 0) : Type 0 where
  done : A → Read A
  malformed : Read A
  panics : Read A
  unfinished : Read A

-- `binary.AppendUvarint`: seven bits at a time, on fuel for as many bytes.
unfoldable pub put_uvarint_loop : ℕ → ℕ → List ℕ
put_uvarint_loop zero x = x % 2 ^ 8 ∷ []
put_uvarint_loop (suc fuel) x =
    let rest = put_uvarint_loop fuel (x / 2 ^ 7) in
    if leb 0x80 x then bit_or 0x80 (x % 2 ^ 8) ∷ rest else x % 2 ^ 8 ∷ []

unfoldable pub put_uvarint : ℕ → List ℕ
put_uvarint x = put_uvarint_loop 9 x

-- `binary.Uvarint` from its byte `i` on, with the shift 7 * i: the number and the bytes that it took.
-- `none` is a count of at most 0.
unfoldable pub uvarint_loop : ℕ → ℕ → List ℕ → Option (ℕ × ℕ)
uvarint_loop i x [] = none
uvarint_loop i x (b ∷ bytes) =
    let more = uvarint_loop (i + 1) (bit_or (u64 (bit_and b 0x7F * 2 ^ (7 * i))) x) bytes in
    if i == 10
    then none
    else if ltb b 0x80
    then (if i == 9 && ltb 1 b then none else some (bit_or (u64 (b * 2 ^ (7 * i))) x, i + 1))
    else more

unfoldable pub uvarint : List ℕ → Option (ℕ × ℕ)
uvarint bytes = uvarint_loop 0 0 bytes

-- An end `p + int(v)` that wraps as an int64 does, and the slice `src[p:end]` with the position behind
-- it. From 2 ^ 63 on the end is negative.
unfoldable pub read_span : List ℕ → ℕ → ℕ → Read (List ℕ × ℕ)
read_span src p v =
    let end = u64 (p + v) in
    if leb (2 ^ 63) end
    then panics
    else if ltb (length src) end
    then malformed
    else if ltb end p
    then panics
    else done (take (end - p) (drop p src), end)

-- `binary.Uvarint(src[p:])`, and what is read behind the number that it finds.
abbrev pub after_uvarint : {A : Type 0} → Option (ℕ × ℕ) → (ℕ → ℕ → Read A) → Read A
after_uvarint none k = malformed
after_uvarint (some (v, n)) k = k v n

abbrev pub after_read : {A : Type 0} {B : Type 0} → Read A → (A → Read B) → Read B
after_read (done a) k = k a
after_read malformed k = malformed
after_read panics k = panics
after_read unfinished k = unfinished

abbrev pub or_malformed : {A : Type 0} → Option A → Read A
or_malformed none = malformed
or_malformed (some a) = done a

-- The span of a message in `readPb`, before it is unmarshalled. `p` is never negative.
unfoldable pub read_message : List ℕ → ℕ → Read (List ℕ × ℕ)
read_message src p =
    if leb (length src) p
    then malformed
    else after_uvarint (uvarint (drop p src)) (λ byte_len n. read_span src (p + n) byte_len)

-- The bytes with a marshalled message behind them, or the same bytes and an error.
abbrev pub append_message : List ℕ → Option (List ℕ) → List ℕ × Bool
append_message dst none = (dst, false)
append_message dst (some buf) = (dst ++ (put_uvarint (length buf) ++ buf), true)

-- `writePb` and `readPb` on the `proto.Marshal` and `proto.Unmarshal` of a message type.
module _ {M : Type 0} (marshal : M → Option (List ℕ)) (unmarshal : List ℕ → Option M) where
  unfoldable pub write_pb : List ℕ → M → List ℕ × Bool
  write_pb dst pb = append_message dst (marshal pb)

  unfoldable pub read_pb : List ℕ → ℕ → Read (M × ℕ)
  read_pb src p =
      after_read (read_message src p)
        λ span. after_read (or_malformed (unmarshal span.0)) λ pb. done (pb, span.1)
