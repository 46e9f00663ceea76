-- ===== src/Base/Bits.antt =====
-- The bit operations of Go's unsigned integers, as arithmetic at every width.
use Prim.Native.Nat.{ℕ, zero, suc, ◌+◌, ◌-◌, ◌*◌, ◌/◌, ◌%◌, ◌^◌, ◌≤◌, ◌<◌, min, max, digits}
use Prim.Native.Nat.{
  bit_and, bit_or, bit_xor, bit_and-bitwise, bit_or-bitwise, bit_xor-bitwise, differ,
}
use mathlib.Core.Path.{◌≡◌, refl, ap, sym, ◌∙◌}
use native.Mathlib.Nat.{pow-suc, pow-succ', one-le-pow, div-add-mod, div-div-eq-div-mul}
use native.Mathlib.Omega.{arith}

-- `digits` is given a count of digits to go; every count that is large enough has one result.
module _ (z : ℕ → ℕ) (f : ℕ → ℕ → ℕ) where
  count_irrelevant : (a n k b : ℕ) → a ≤ n → a ≤ k → digits z f n a b ≡ digits z f k a b
  count_irrelevant zero zero zero b h g = refl
  count_irrelevant zero zero (suc k) b h g = refl
  count_irrelevant zero (suc n) zero b h g = refl
  count_irrelevant zero (suc n) (suc k) b h g = refl
  count_irrelevant (suc a) zero k b h g = absurd (omega arith)
  count_irrelevant (suc a) (suc n) zero b h g = absurd (omega arith)
  count_irrelevant (suc a) (suc n) (suc k) b h g =
      ap (λ (t : ℕ). t * 2 + f (suc a % 2) (b % 2))
        (count_irrelevant (suc a / 2) n k (b / 2) (omega arith) (omega arith))

-- The lowest digit of the result, and the rest of it.
pub bit_and_low : (a b : ℕ) → bit_and a b ≡ 2 * bit_and (a / 2) (b / 2) + min (a % 2) (b % 2)
bit_and_low zero b = omega (arith, bit_and-bitwise 0 b, bit_and-bitwise 0 (b / 2))
bit_and_low (suc a) b = omega (
  arith,
  bit_and-bitwise (suc a) b,
  bit_and-bitwise (suc a / 2) (b / 2),
  count_irrelevant (λ y. 0) min (suc a / 2) a (suc a / 2) (b / 2) (omega arith) (omega arith),
)

pub bit_or_low : (a b : ℕ) → bit_or a b ≡ 2 * bit_or (a / 2) (b / 2) + max (a % 2) (b % 2)
bit_or_low zero b = omega (arith, bit_or-bitwise 0 b, bit_or-bitwise 0 (b / 2))
bit_or_low (suc a) b = omega (
  arith,
  bit_or-bitwise (suc a) b,
  bit_or-bitwise (suc a / 2) (b / 2),
  count_irrelevant (λ y. y) max (suc a / 2) a (suc a / 2) (b / 2) (omega arith) (omega arith),
)

-- Zero on the right. The bound `n` is only there to recur on.
and_nil : (n a : ℕ) → a ≤ n → bit_and a 0 ≡ 0
and_nil zero a h =
    omega (arith, bit_and_low a 0, bit_and-bitwise a 0, ap (λ (t : ℕ). bit_and t 0) (a_zero a h))
  where
    a_zero : (a : ℕ) → a ≤ 0 → a ≡ 0
    a_zero a h = omega arith
and_nil (suc n) zero h = refl
and_nil (suc n) (suc a) h =
    omega (arith, bit_and_low (suc a) 0, and_nil n (suc a / 2) (omega arith))

or_nil : (n a : ℕ) → a ≤ n → bit_or a 0 ≡ a
or_nil n zero h = refl
or_nil zero (suc a) h = absurd (omega arith)
or_nil (suc n) (suc a) h = omega (arith, bit_or_low (suc a) 0, or_nil n (suc a / 2) (omega arith))

pub bit_and-zero : (a : ℕ) → bit_and a 0 ≡ 0
bit_and-zero a = and_nil a a (omega arith)

pub bit_or-zero : (a : ℕ) → bit_or a 0 ≡ a
bit_or-zero a = or_nil a a (omega arith)

double_pow : (q k : ℕ) → q * 2 ^ suc k ≡ 2 * (q * 2 ^ k)
double_pow q k = omega (arith, ap (λ (t : ℕ). q * t) (pow-suc 2 k))

-- `q << k | r` where `r` has at most `k` bits.
pub bit_or_shifted : (k q r : ℕ) → r < 2 ^ k → bit_or (q * 2 ^ k) r ≡ q * 2 ^ k + r
bit_or_shifted zero q r h = ground (arith, bit_or-zero q)
bit_or_shifted (suc k) q r h = omega (
  arith,
  bit_or_low (q * 2 ^ suc k) r,
  double_pow q k,
  pow-suc 2 k,
  ap (λ (t : ℕ). bit_or t (r / 2)) (half q k),
  bit_or_shifted k q (r / 2) (omega (arith, pow-suc 2 k)),
)
  where
    half : (q k : ℕ) → q * 2 ^ suc k / 2 ≡ q * 2 ^ k
    half q k = omega (arith, double_pow q k)

-- A remainder by a product, from the lowest digit and the rest.
pub mod_mul_low : (b p a : ℕ) → a % (b * p) ≡ b * (a / b % p) + a % b
mod_mul_low b p a = omega (
  arith,
  div-add-mod a (b * p),
  div-add-mod a b,
  ap (λ (t : ℕ). b * t) (div-add-mod (a / b) p),
  ap (λ (t : ℕ). b * p * t) (div-div-eq-div-mul a b p),
)

-- `a & (1<<k - 1)`.
pub bit_and_mask : (k a : ℕ) → bit_and a (2 ^ k - 1) ≡ a % 2 ^ k
bit_and_mask zero a = omega (arith, bit_and-zero a)
bit_and_mask (suc k) a = omega (
  arith,
  bit_and_low a (2 ^ suc k - 1),
  pow-suc 2 k,
  one-le-pow k 2,
  ap (λ (t : ℕ). bit_and (a / 2) t) (half k),
  bit_and_mask k (a / 2),
  ap (λ (t : ℕ). a % t) (pow-succ' 2 k),
  mod_mul_low 2 (2 ^ k) a,
)
  where
    half : (k : ℕ) → (2 ^ suc k - 1) / 2 ≡ 2 ^ k - 1
    half k = omega (arith, pow-suc 2 k, one-le-pow k 2)

-- `a & (1<<k)` is the bit `k` of `a`, in its place.
pub bit_and_bit : (k a : ℕ) → bit_and a (2 ^ k) ≡ a / 2 ^ k % 2 * 2 ^ k
bit_and_bit zero a = omega (arith, bit_and_low a 1, bit_and-zero (a / 2))
bit_and_bit (suc k) a = omega (
  arith,
  bit_and_low a (2 ^ suc k),
  pow-suc 2 k,
  ap (λ (t : ℕ). bit_and (a / 2) t) (half k),
  bit_and_bit k (a / 2),
  double_pow (a / 2 / 2 ^ k % 2) k,
  ap (λ (t : ℕ). t % 2 * 2 ^ suc k)
      (div-div-eq-div-mul a 2 (2 ^ k) ∙ ap (λ (t : ℕ). a / t) (sym (pow-succ' 2 k))),
)
  where
    half : (k : ℕ) → 2 ^ suc k / 2 ≡ 2 ^ k
    half k = omega (arith, pow-suc 2 k)

bit_xor_low : (a b : ℕ) → bit_xor a b ≡ 2 * bit_xor (a / 2) (b / 2) + differ (a % 2) (b % 2)
bit_xor_low zero b = omega (arith, bit_xor-bitwise 0 b, bit_xor-bitwise 0 (b / 2))
bit_xor_low (suc a) b = omega (
  arith,
  bit_xor-bitwise (suc a) b,
  bit_xor-bitwise (suc a / 2) (b / 2),
  count_irrelevant (λ y. y) differ (suc a / 2) a (suc a / 2) (b / 2) (omega arith) (omega arith),
)

xor_nil : (n a : ℕ) → a ≤ n → bit_xor a 0 ≡ a
xor_nil n zero h = refl
xor_nil zero (suc a) h = absurd (omega arith)
xor_nil (suc n) (suc a) h =
    omega
      (arith, bit_xor_low (suc a) 0, xor_nil n (suc a / 2) (omega arith), differ_zero (suc a % 2))
  where
    differ_zero : (a : ℕ) → differ a 0 ≡ a
    differ_zero zero = refl
    differ_zero (suc a) = refl

differ_bit : (a b : ℕ) → a < 2 → b < 2 → differ a b < 2
differ_bit zero b h g = g
differ_bit (suc a) zero h g = h
differ_bit (suc zero) (suc b) h g = omega arith
differ_bit (suc (suc a)) (suc b) h g = absurd (omega arith)

-- A change in the low `k` bits leaves the others as they are.
pub bit_xor_high : (k a b : ℕ) → b < 2 ^ k → bit_xor a b / 2 ^ k ≡ a / 2 ^ k
bit_xor_high zero a zero h = omega (arith, xor_nil a a (omega arith))
bit_xor_high zero a (suc b) h = absurd (omega arith)
bit_xor_high (suc k) a b h =
    ap (λ (t : ℕ). bit_xor a b / t) (pow-succ' 2 k)
    ∙ sym (div-div-eq-div-mul (bit_xor a b) 2 (2 ^ k))
    ∙ ap (λ (t : ℕ). t / 2 ^ k) rest
    ∙ bit_xor_high k (a / 2) (b / 2) (omega (arith, pow-suc 2 k))
    ∙ div-div-eq-div-mul a 2 (2 ^ k)
    ∙ ap (λ (t : ℕ). a / t) (sym (pow-succ' 2 k))
  where
    rest : bit_xor a b / 2 ≡ bit_xor (a / 2) (b / 2)
    rest = omega (arith, bit_xor_low a b, differ_bit (a % 2) (b % 2) (omega arith) (omega arith))
