-- ===== src/Tag/Uid/Arith.antt =====
-- UID arithmetic is arithmetic on the 128-bit number, and CompareTo is its order.
use amp_sdk.Base.{
  ℕ, ◌+◌, ◌-◌, ◌*◌, ◌/◌, ◌%◌, ◌^◌, ◌≤◌, ◌<◌, ◌≡◌, true, false, arith, ◌⊎◌, ◌↔◌, bit_and, bit_or, ap,
  ◌∙◌,
}
use amp_sdk.Base.Bits.{bit_or_shifted, bit_and_mask}
use amp_sdk.Tag.Uid.{
  Uid, IsUid, u64, value, add, subtract, midpoint, increment, decrement, compare_to, is_set, max_id,
}
use Prim.Native.Nat.{compare}

-- The sum wraps around at 2^128.
pub value-add : (a b : Uid) → IsUid a → IsUid b → value (add a b) ≡ (value a + value b) % 2 ^ 128
unfolding add
value-add a b ha hb = omega arith

pub add-IsUid : (a b : Uid) → IsUid (add a b)
unfolding add
add-IsUid a b = omega arith

pub value-subtract :
    (a b : Uid) → IsUid a → IsUid b → value (subtract a b) ≡ (value a + 2 ^ 128 - value b) % 2 ^ 128
unfolding subtract
value-subtract a b ha hb = ground arith

pub subtract-IsUid : (a b : Uid) → IsUid (subtract a b)
unfolding subtract
subtract-IsUid a b = omega arith

pub uid_eq : (a b : Uid) → IsUid a → IsUid b → value a ≡ value b → a ≡ b
uid_eq a b ha hb h = ground arith

-- A carry bit put above a word that was shifted right.
carry_bit :
    (c s : ℕ) → c < 2 → s < 2 ^ 64 → bit_or (u64 (c * 2 ^ 63)) (s / 2 ^ 1) ≡ c * 2 ^ 63 + s / 2
carry_bit c s hc hs =
    ap (λ (t : ℕ). bit_or t (s / 2)) (fits c hc) ∙ bit_or_shifted 63 c (s / 2) (omega arith)
  where
    fits : (c : ℕ) → c < 2 → u64 (c * 2 ^ 63) ≡ c * 2 ^ 63
    fits c hc = omega arith

-- Midpoint is the exact average of the two numbers, rounded down: the carry is not lost.
pub value-midpoint :
    (a b : Uid) → IsUid a → IsUid b → value (midpoint a b) ≡ (value a + value b) / 2
unfolding midpoint
value-midpoint a b ha hb = omega (
  arith,
  carry_bit (high / 2 ^ 64) (high % 2 ^ 64) (omega arith) (omega arith),
  carry_bit (bit_and (high % 2 ^ 64) 1) (low % 2 ^ 64) (omega (arith, odd)) (omega arith),
  odd,
)
  where
    low : ℕ
    low = a.w1 + b.w1 + 0

    high : ℕ
    high = a.w0 + b.w0 + low / 2 ^ 64

    odd : bit_and (high % 2 ^ 64) 1 ≡ high % 2 ^ 64 % 2
    odd = bit_and_mask 1 (high % 2 ^ 64)

-- CompareTo is the order of the numbers.
pub compare_to-value :
    (a b : Uid) → IsUid a → IsUid b → compare_to a b ≡ compare (value a) (value b)
unfolding compare_to
compare_to-value a b ha hb = ground arith

-- Increment adds one below MaxID; from MaxID on it changes nothing and answers false.
pub increment_lem :
    (a : Uid)
    → IsUid a
    → ((increment a).1 ≡ true) × (value a < value max_id) × (value (increment a).0 ≡ value a + 1)
      ⊎ ((increment a).1 ≡ false) × (value max_id ≤ value a) × ((increment a).0 ≡ a)
unfolding increment max_id
increment_lem a ha = ground arith

-- Decrement subtracts one; from zero it changes nothing and answers false.
pub decrement_lem :
    (a : Uid)
    → IsUid a
    → ((decrement a).1 ≡ true) × (value (decrement a).0 + 1 ≡ value a)
      ⊎ ((decrement a).1 ≡ false) × (value a ≡ 0) × ((decrement a).0 ≡ a)
unfolding decrement
decrement_lem a ha = ground arith

-- IsSet holds from 1 to MaxID: zero and the reserved values above MaxID are left out.
pub is_set_iff :
    (a : Uid) → IsUid a → (is_set a ≡ true) ↔ ((0 < value a) × (value a ≤ value max_id))
unfolding is_set max_id
is_set_iff a ha = ground arith
