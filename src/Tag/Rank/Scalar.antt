-- ===== src/Tag/Rank/Scalar.antt =====
-- Multiplying and dividing a UID by a 64-bit number, word by word.
use amp_sdk.Base.{ℕ, ◌+◌, ◌*◌, ◌/◌, ◌%◌, ◌^◌, ◌<◌, ◌≡◌, sym, ap, ◌∙◌, arith}
use amp_sdk.Tag.Uid.{Uid, IsUid, value}
use amp_sdk.Tag.Rank.{mul_scalar, div_scalar}
use native.Mathlib.Nat.{div-add-mod, mod-lt, div-lt_iff_lt-mul, div-le_self, mul-add-div}

-- The product wraps around at 2^128.
pub value-mul_scalar :
    (id : Uid) (s : ℕ) → IsUid id → value (mul_scalar id s) ≡ value id * s % 2 ^ 128
unfolding mul_scalar
value-mul_scalar id s h = omega arith

high_word : (w s : ℕ) → w * 2 ^ 64 ≡ s * (w / s * 2 ^ 64) + w % s * 2 ^ 64
high_word w s = omega (arith, ap (λ (t : ℕ). t * 2 ^ 64) (div-add-mod w s))

-- Long division by one word gives the quotient, and its low word does not overflow.
pub value-div_scalar :
    (id : Uid) (s : ℕ)
    → IsUid id
    → 0 < s
    → (value (div_scalar id s) ≡ value id / s) × IsUid (div_scalar id s)
unfolding div_scalar
value-div_scalar id s h hs = (
  sym (ap (λ (t : ℕ). t / s) regroup ∙ mul-add-div hs (id.w0 / s * 2 ^ 64) low),
  (omega (arith, div-le_self id.w0 s), (div-lt_iff_lt-mul hs).1 (omega (arith, mod-lt id.w0 hs))),
)
  where
    low : ℕ
    low = id.w0 % s * 2 ^ 64 + id.w1

    regroup : value id ≡ s * (id.w0 / s * 2 ^ 64) + low
    regroup = omega (arith, high_word id.w0 s)
