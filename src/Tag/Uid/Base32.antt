-- ===== src/Tag/Uid/Base32.antt =====
-- The grouped Base32 text of a UID: Base32, UID_ParseBase32 and MarshalJSON in tag.id.go, over the
-- alphabets of encode.go. Text is a list of bytes.
pub mod Scanned
pub mod RoundTrip
use amp_sdk.Base.{
  ℕ, zero, suc, ◌+◌, ◌-◌, ◌*◌, ◌/◌, ◌%◌, ◌^◌, ◌<◌, bit_and, bit_or, Bool, true, false, not, ◌&&◌,
  ◌||◌,
}
use amp_sdk.Base.{List, [], ◌∷◌, ◌++◌, Option, none, some, length, get_or, ltb, ◌==◌, if◌then◌else◌}
use amp_sdk.Tag.Uid.{Uid, u64, nil, is_nil}
use Prim.Native.Char.{code}
use Prim.Native.String
use Prim.Native.String.{String}

abbrev pub codes : String → List ℕ
codes String.[] = []
codes (String.◌∷◌ c s) = code c ∷ codes s

abbrev pub alphabet_upper : List ℕ
alphabet_upper = codes "0123456789BCDEFGHJKMNPQRSTUVWXYZ"

abbrev pub alphabet_lower : List ℕ
alphabet_lower = codes "0123456789bcdefghjkmnpqrstuvwxyz"

-- UID_Base32Length
abbrev pub base32_length : ℕ
base32_length = 26

-- UID_Base32GroupedLength
abbrev pub grouped_length : ℕ
grouped_length = 29

-- The loop of `Base32` from slot `i - 1` down to 0; `out` is what stands right of these slots.
unfoldable pub render : ℕ → ℕ → ℕ → List ℕ → Bool → List ℕ × Bool
render zero x0 x1 out is_zero = (out, is_zero)
render (suc i) x0 x1 out is_zero =
    let b32 = bit_and (x1 % 2 ^ 8) 0x1F in
    let dashed = render i x0 x1 (b'-' ∷ out) is_zero in
    let digit =
      render i (x0 / 2 ^ 5) (bit_or (u64 (bit_and x0 0x1F * 2 ^ 59)) (x1 / 2 ^ 5))
        (get_or alphabet_lower b32 0 ∷ out) (if b32 == 0 then is_zero else false) in
    if i % 11 == 3 then dashed else digit

unfoldable pub base32 : Uid → List ℕ
base32 id =
    let (out, is_zero) = render grouped_length id.w0 id.w1 [] true in
    if is_zero then b'0' ∷ [] else out

-- unicode.IsSpace on the Latin-1 range.
unfoldable pub is_space : ℕ → Bool
is_space c = c == 9 || c == 10 || c == 11 || c == 12 || c == 13 || c == 32 || c == 0x85 || c == 0xA0

-- The entry that `init` leaves in `base32Lookup`: one more than the position in an alphabet, or 0.
unfoldable pub position : ℕ → ℕ → List ℕ → ℕ
position c i [] = 0
position c i (a ∷ rest) = if a == c then i + 1 else position c (i + 1) rest

unfoldable pub base32_lookup : ℕ → ℕ
unfolding position
base32_lookup c =
    let upper = position c 0 alphabet_upper in
    if upper == 0 then position c 0 alphabet_lower else upper

-- The first loop of `UID_ParseBase32`: the digits of the text after those in `digits`.
unfoldable pub scan : List ℕ → List ℕ → Option (List ℕ)
scan [] digits = some digits
scan (c ∷ text) digits =
    let digit = if ltb 32 c && ltb c 127 then base32_lookup c else 0 in
    let skip = scan text digits in
    let take_digit = scan text (digits ++ (digit - 1) ∷ []) in
    if is_space c || c == b'-'
    then skip
    else if digit == 0 || not (ltb (length digits) base32_length)
    then none
    else take_digit

-- The second loop: each digit goes in at the right.
unfoldable pub push_digit : Uid → ℕ → Uid
push_digit id b32 = record {
  w0 = bit_or (u64 (id.w0 * 2 ^ 5)) (id.w1 / 2 ^ 59);
  w1 = bit_or (u64 (id.w1 * 2 ^ 5)) b32;
}

unfoldable pub push_digits : Uid → List ℕ → Uid
unfolding push_digit
push_digits id [] = id
push_digits id (b32 ∷ digits) = push_digits (push_digit id b32) digits

-- `none` is ErrUnrecognizedFormat.
unfoldable pub from_digits : Option (List ℕ) → Option Uid
from_digits none = none
from_digits (some []) = none
from_digits (some (d ∷ digits)) = some (push_digits nil (d ∷ digits))

unfoldable pub parse_base32 : List ℕ → Option Uid
parse_base32 text = from_digits (scan text [])

-- `MarshalJSON`: a quoted text, and "" for the nil UID.
unfoldable pub marshal_json : Uid → List ℕ
unfolding is_nil
marshal_json id = if is_nil id then b'"' ∷ b'"' ∷ [] else b'"' ∷ (base32 id ++ (b'"' ∷ []))
