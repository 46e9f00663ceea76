-- ===== src/Base/Bytes.antt =====
-- Go's encoding/binary big-endian words and bytes.Compare, over byte slices as lists of numbers.
use Prim.Native.Nat.{ℕ, zero, suc, ◌+◌, ◌*◌, ◌/◌, ◌%◌, ◌^◌, ◌<◌, ◌≤◌, Ordering, compare}
use Prim.Native.Nat.Ordering.{lt, eq, gt}
use mathlib.Core.Path.{◌≡◌, refl, ap, ap₂, sym, ◌∙◌}
use mathlib.Core.List.{List, [], ◌∷◌, ◌++◌, append-nil, append_assoc}
use native.Mathlib.Nat.{
  add-suc, pow-suc, pow-succ', one-le-pow, div-add-mod, mod-lt, div-div-eq-div-mul, mod-eq_of_lt,
}
use native.Mathlib.Omega.{arith}
use mathlib.Core.Bool.{Bool, true, ◌&&◌}
use amp_sdk.Base.Tests.{ltb, if◌then◌else◌}
use amp_sdk.Base.Lists.{length, All}

abbrev pub IsByte : ℕ → Type 0
IsByte b = b < 256

-- The `n` bytes of a big-endian word: `BigEndian.PutUint64` at 8, `PutUint32` at 4.
unfoldable pub put_be : ℕ → ℕ → List ℕ
put_be zero v = []
put_be (suc n) v = (v / 256 ^ n % 256) ∷ put_be n v

-- `BigEndian.Uint64` and `Uint32`: the word that a slice of bytes holds.
be_from : ℕ → List ℕ → ℕ
be_from acc [] = acc
be_from acc (b ∷ bs) = be_from (acc * 256 + b) bs

unfoldable pub be_value : List ℕ → ℕ
unfolding be_from
be_value bs = be_from 0 bs

-- `bytes.Compare`, and the order of keys in an LSM store. The results -1, 0, 1 are lt, eq, gt.
unfoldable pub bytes_compare : List ℕ → List ℕ → Ordering
bytes_compare [] [] = eq
bytes_compare [] (y ∷ ys) = lt
bytes_compare (x ∷ xs) [] = gt
bytes_compare (x ∷ xs) (y ∷ ys) =
    if ltb x y then lt else if ltb y x then gt else bytes_compare xs ys

-- The second comparison counts only where the first finds no difference.
abbrev pub then_compare : Ordering → Ordering → Ordering
then_compare lt o = lt
then_compare eq o = o
then_compare gt o = gt

pub length-put_be : (n v : ℕ) → length (put_be n v) ≡ n
unfolding put_be
length-put_be zero v = refl
length-put_be (suc n) v = ap suc (length-put_be n v)

pub put_be-IsByte : (n v : ℕ) → All IsByte (put_be n v)
unfolding put_be
put_be-IsByte zero v = tt
put_be-IsByte (suc n) v = (mod-lt (v / 256 ^ n) (omega arith), put_be-IsByte n v)

-- The top digit of `v % (256 * p)` and the rest.
top_digit : (p v : ℕ) → 0 < p → v % (p * 256) ≡ p * (v / p % 256) + v % p
top_digit p v h = omega (
  arith,
  div-add-mod v (p * 256),
  div-add-mod v p,
  ap (λ (t : ℕ). p * t) (div-add-mod (v / p) 256),
  ap (λ (t : ℕ). p * 256 * t) (div-div-eq-div-mul v p 256),
)

pub mod_pow_suc : (n v : ℕ) → v % 256 ^ suc n ≡ 256 ^ n * (v / 256 ^ n % 256) + v % 256 ^ n
mod_pow_suc n v =
    ap (λ (t : ℕ). v % t) (pow-suc 256 n) ∙ top_digit (256 ^ n) v (one-le-pow n 256 (omega arith))

be_from-put_be : (n acc v : ℕ) → be_from acc (put_be n v) ≡ acc * 256 ^ n + v % 256 ^ n
unfolding be_from put_be
be_from-put_be zero acc v = omega arith
be_from-put_be (suc n) acc v = omega (
  arith,
  be_from-put_be n (acc * 256 + v / 256 ^ n % 256) v,
  mod_pow_suc n v,
  ap (λ (t : ℕ). acc * t) (pow-suc 256 n),
)

-- A word that fits is read back.
pub be_value-put_be : (n v : ℕ) → v < 256 ^ n → be_value (put_be n v) ≡ v
unfolding be_value
be_value-put_be n v h = omega (arith, be_from-put_be n 0 v, mod-eq_of_lt h)

mul_gap : (p d e : ℕ) → d < e → p * d + p ≤ p * e
mul_gap p d e h = grind arith

-- The value of two numbers with a high digit each.
pub compare_digits :
    (p d e r s : ℕ)
    → r < p
    → s < p
    → compare (p * d + r) (p * e + s) ≡ then_compare (compare d e) (compare r s)
compare_digits p d e r s hr hs = ground (arith, mul_gap p d e, mul_gap p e d)

put_be_step :
    (n a b : ℕ) (xs ys : List ℕ)
    → bytes_compare (put_be n a ++ xs) (put_be n b ++ ys)
      ≡ then_compare (compare (a % 256 ^ n) (b % 256 ^ n)) (bytes_compare xs ys)
unfolding put_be bytes_compare
put_be_step zero a b xs ys = ground arith
put_be_step (suc n) a b xs ys = ground (
  arith,
  put_be_step n a b xs ys,
  mod_pow_suc n a,
  mod_pow_suc n b,
  compare_digits (256 ^ n) (a / 256 ^ n % 256) (b / 256 ^ n % 256) (a % 256 ^ n) (b % 256 ^ n),
  mod-lt a (one-le-pow n 256 (omega arith)),
  mod-lt b (one-le-pow n 256 (omega arith)),
)

-- Big-endian words sort as bytes the way the numbers sort.
pub bytes_compare-put_be :
    (n a b : ℕ) (xs ys : List ℕ)
    → a < 256 ^ n
    → b < 256 ^ n
    → bytes_compare (put_be n a ++ xs) (put_be n b ++ ys)
      ≡ then_compare (compare a b) (bytes_compare xs ys)
bytes_compare-put_be n a b xs ys ha hb =
    put_be_step n a b xs ys
    ∙ ap₂ (λ (t u : ℕ). then_compare (compare t u) (bytes_compare xs ys)) (mod-eq_of_lt ha)
        (mod-eq_of_lt hb)

-- The last byte of a word and the bytes before it.
pub put_be-suc : (n v : ℕ) → put_be (suc n) v ≡ put_be n (v / 256) ++ (v % 256) ∷ []
unfolding put_be
put_be-suc zero v = ap (λ (t : ℕ). t % 256 ∷ []) (omega arith)
put_be-suc (suc n) v =
    ap₂ (λ (t : ℕ) (u : List ℕ). t % 256 ∷ u)
      (ap (λ (t : ℕ). v / t) (pow-succ' 256 n) ∙ sym (div-div-eq-div-mul v 256 (256 ^ n)))
      (put_be-suc n v)

-- Two words one after the other are one longer word.
pub put_be-append :
    (m n x y : ℕ) → y < 256 ^ n → put_be (m + n) (x * 256 ^ n + y) ≡ put_be m x ++ put_be n y
put_be-append m zero x y h =
    ap₂ put_be (omega arith) (omega arith) ∙ sym (append-nil (put_be m x)) ∙ unfold put_be in refl
put_be-append m (suc n) x y h =
    ap (λ (t : ℕ). put_be t (x * 256 ^ suc n + y)) (add-suc m n)
    ∙ put_be-suc (m + n) (x * 256 ^ suc n + y)
    ∙ ap₂ (λ (s t : ℕ). put_be (m + n) s ++ t ∷ []) (omega (arith, high)) (omega (arith, high))
    ∙ ap (λ (t : List ℕ). t ++ y % 256 ∷ [])
        (put_be-append m n x (y / 256) (omega (arith, pow-suc 256 n)))
    ∙ append_assoc (put_be m x) (put_be n (y / 256)) (y % 256 ∷ [])
    ∙ ap (λ (t : List ℕ). put_be m x ++ t) (sym (put_be-suc n y))
  where
    high : x * 256 ^ suc n ≡ x * 256 ^ n * 256
    high = omega (arith, ap (λ (t : ℕ). x * t) (pow-suc 256 n))

-- To check every value of a small range by evaluation.
unfoldable pub all_below : ℕ → (ℕ → Bool) → Bool
all_below zero p = true
all_below (suc n) p = p n && all_below n p

pub all_below-true : (n : ℕ) (p : ℕ → Bool) (x : ℕ) → all_below n p ≡ true → x < n → p x ≡ true
unfolding all_below
all_below-true zero p x h l = absurd (omega arith)
all_below-true (suc n) p x h l = ground (arith, all_below-true n p x)
