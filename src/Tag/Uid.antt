-- ===== src/Tag/Uid.antt =====
-- stdlib/tag/tag.id.go and api.tag.go: the UID as two 64-bit words, its order and its arithmetic.
pub mod Arith
pub mod Time
pub mod Base32
use amp_sdk.Base.{
  ℕ, ◌+◌, ◌-◌, ◌*◌, ◌/◌, ◌%◌, ◌^◌, ◌<◌, ◌≡◌, bit_and, bit_or, Bool, true, false, not, ◌&&◌, ◌||◌,
}
use amp_sdk.Base.{List, ◌++◌, ltb, leb, ◌==◌, if◌then◌else◌}
use amp_sdk.Base.Bytes.{put_be}
use Prim.Native.Nat.{Ordering}
use Prim.Native.Nat.Ordering.{lt, eq, gt}

-- `UID [2]uint64`: w0 is the most significant word.
pub record Uid : Type 0 where
  pub w0 : ℕ
  pub w1 : ℕ

abbrev pub u64 : ℕ → ℕ
u64 n = n % 2 ^ 64

abbrev pub IsU64 : ℕ → Type 0
IsU64 n = n < 2 ^ 64

-- Every Go value of the type is in range.
abbrev pub IsUid : Uid → Type 0
IsUid id = IsU64 id.w0 × IsU64 id.w1

-- The 128-bit number that a UID stands for.
abbrev pub value : Uid → ℕ
value id = id.w0 * 2 ^ 64 + id.w1

abbrev pub nil : Uid
nil = record { w0 = 0; w1 = 0 }

abbrev pub word_max : ℕ
word_max = 0xFFFFFFFFFFFFFFFF

-- UID_1_Max
abbrev pub low_max : ℕ
low_max = 0xFFFFFFFFFFFFFFF0

-- UID_1_Wildcard
abbrev pub low_wildcard : ℕ
low_wildcard = 0xFFFFFFFFFFFFFFFA

unfoldable pub max_id : Uid
max_id = record { w0 = word_max; w1 = low_max }

unfoldable pub wildcard_id : Uid
wildcard_id = record { w0 = word_max; w1 = low_wildcard }

-- math/bits: Add64 and Sub64, each with its carry or borrow.
unfoldable pub add64 : ℕ → ℕ → ℕ → ℕ × ℕ
add64 x y carry = (u64 (x + y + carry), (x + y + carry) / 2 ^ 64)

unfoldable pub sub64 : ℕ → ℕ → ℕ → ℕ × ℕ
sub64 x y borrow = (u64 (x + 2 ^ 64 - (y + borrow)), if ltb x (y + borrow) then 1 else 0)

unfoldable pub append_to : Uid → List ℕ → List ℕ
append_to id dst = (dst ++ put_be 8 id.w0) ++ put_be 8 id.w1

unfoldable pub is_wildcard : Uid → Bool
is_wildcard id = id.w0 == word_max && id.w1 == low_wildcard

unfoldable pub is_nil : Uid → Bool
is_nil id = id.w0 == 0 && id.w1 == 0

unfoldable pub is_set : Uid → Bool
is_set id = (not (id.w0 == 0) || not (id.w1 == 0)) && (ltb id.w0 word_max || leb id.w1 low_max)

unfoldable pub ensure_set : Uid → Uid → Uid
ensure_set id src = if id.w0 == 0 && id.w1 == 0 then src else id

-- `==` on UIDs.
unfoldable pub same_uid : Uid → Uid → Bool
same_uid a b = a.w0 == b.w0 && a.w1 == b.w1

-- The results -1, 0 and 1 are lt, eq and gt.
unfoldable pub compare_to : Uid → Uid → Ordering
compare_to id oth =
    if ltb id.w0 oth.w0
    then lt
    else if ltb oth.w0 id.w0
    then gt
    else if ltb id.w1 oth.w1
    then lt
    else if ltb oth.w1 id.w1
    then gt
    else eq

unfoldable pub add : Uid → Uid → Uid
unfolding add64
add id oth =
    let (low, carry) = add64 id.w1 oth.w1 0 in
    record { w0 = u64 (u64 (id.w0 + oth.w0) + carry); w1 = low }

unfoldable pub subtract : Uid → Uid → Uid
unfolding sub64
subtract id oth =
    let (low, borrow) = sub64 id.w1 oth.w1 0 in
    record { w0 = u64 (u64 (id.w0 + 2 ^ 64 - oth.w0) + 2 ^ 64 - borrow); w1 = low }

-- `With` and `Then`.
unfoldable pub combine : Uid → Uid → Uid
unfolding add
combine id other = add id other

unfoldable pub entangle : Uid → Uid → Uid
unfolding subtract
entangle id other = subtract id other

-- The 129-bit sum, shifted right by one across the words.
unfoldable pub midpoint : Uid → Uid → Uid
unfolding add64
midpoint id oth =
    let (sum1, carry1) = add64 id.w1 oth.w1 0 in
    let (sum0, carry0) = add64 id.w0 oth.w0 carry1 in
    record {
      w0 = bit_or (u64 (carry0 * 2 ^ 63)) (sum0 / 2 ^ 1);
      w1 = bit_or (u64 (bit_and sum0 1 * 2 ^ 63)) (sum1 / 2 ^ 1);
    }

unfoldable pub derive_id : Uid → Uid → Uid
unfolding is_nil midpoint
derive_id id oth = if is_nil oth then id else midpoint id oth

-- The methods on a pointer return the new value beside their result.
unfoldable pub increment : Uid → Uid × Bool
increment id =
    if ltb id.w1 low_max
    then (record id { w1 = u64 (id.w1 + 1) }, true)
    else if id.w0 == word_max
    then (id, false)
    else if ltb id.w1 word_max
    then (record id { w1 = u64 (id.w1 + 1) }, true)
    else (record { w0 = u64 (id.w0 + 1); w1 = 0 }, true)

unfoldable pub decrement : Uid → Uid × Bool
decrement id =
    if ltb 0 id.w1
    then (record id { w1 = id.w1 - 1 }, true)
    else if ltb 0 id.w0
    then (record { w0 = id.w0 - 1; w1 = word_max }, true)
    else (id, false)

-- `Int63`: the shift of the wrapped sum of the words fits a positive int64.
unfoldable pub int63 : Uid → ℕ
int63 id = u64 (id.w0 + id.w1) / 2 ^ 1
