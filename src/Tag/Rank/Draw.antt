-- ===== src/Tag/Rank/Draw.antt =====
-- randBelow: what it returns lies below the bound, and every value below the bound can be drawn.
use amp_sdk.Base.{
  ℕ, zero, suc, ◌+◌, ◌-◌, ◌*◌, ◌/◌, ◌^◌, ◌≤◌, ◌<◌, ◌≡◌, ◌≢◌, ◌↔◌, refl, ap, ◌∙◌, arith,
}
use amp_sdk.Base.{
  true, false, bit_and, List, [], ◌∷◌, All, Option, none, some, ◌&&◌, ◌==◌, Bool-cases, inl, inr,
}
use amp_sdk.Base.Bits.{bit_and_mask}
use amp_sdk.Tag.Uid.{Uid, IsUid, value, is_nil, compare_to}
use amp_sdk.Tag.Uid.Arith.{compare_to-value}
use amp_sdk.Tag.Rank.{bit_len, leading_zeros128, mask_draw, is_before, draw_below, rand_below}
use native.Mathlib.Nat.{pow-suc, mod-eq_of_lt, mod-le}
use native.Mathlib.Numerals.{towards_suc}

bit_len-le : (k x : ℕ) → bit_len k x ≤ k
unfolding bit_len
bit_len-le zero x = omega arith
bit_len-le (suc k) x = ground (arith, bit_len-le k (x / 2))

lt-two_pow-bit_len : (k x : ℕ) → x < 2 ^ k → x < 2 ^ bit_len k x
unfolding bit_len
lt-two_pow-bit_len zero x h = h
lt-two_pow-bit_len (suc k) x h = elim (Bool-cases (x == 0)) [
  | inl z ↦ rw z (ground arith)
  | inr p ↦ rw p (
      omega
        (arith, lt-two_pow-bit_len k (x / 2) (omega (arith, pow-suc 2 k)), two (bit_len k (x / 2))))
]
  where
    two : (n : ℕ) → 2 ^ (n + 1) ≡ 2 * 2 ^ n
    two n = simp towards_suc (omega arith)

bit_len-pos : (k x : ℕ) → 0 < x → 0 < k → 0 < bit_len k x
unfolding bit_len
bit_len-pos zero x h g = elim g [ ]
bit_len-pos (suc k) x h g = ground arith

mask_le : (n x : ℕ) → bit_and x (2 ^ n - 1) ≤ x
mask_le n x = omega (arith, bit_and_mask n x, mod-le x (2 ^ n))

mask_draw-IsUid : (n : ℕ) (d : Uid) → IsUid d → IsUid (mask_draw n d)
unfolding mask_draw
mask_draw-IsUid n d h = ground (arith, mask_le n d.w1, mask_le (n - 64) d.w0)

small_mask : (n x : ℕ) → x < 2 ^ n → bit_and x (2 ^ n - 1) ≡ x
small_mask n x h = bit_and_mask n x ∙ mod-eq_of_lt h

bits_low : (bound : Uid) → bound.w0 ≡ 0 → 128 - leading_zeros128 bound ≡ bit_len 64 bound.w1
unfolding leading_zeros128
bits_low bound h = ground (arith, bit_len-le 64 bound.w1)

bits_high : (bound : Uid) → bound.w0 ≢ 0 → 128 - leading_zeros128 bound ≡ 64 + bit_len 64 bound.w0
unfolding leading_zeros128
bits_high bound h = ground (arith, bit_len-le 64 bound.w0)

mask_low : (n : ℕ) (d : Uid) → n ≤ 64 → d.w0 ≡ 0 → d.w1 < 2 ^ n → mask_draw n d ≡ d
unfolding mask_draw
mask_low n d hn h0 h1 = ground (arith, small_mask n d.w1 h1)

mask_high : (n : ℕ) (d : Uid) → 0 < n → d.w0 < 2 ^ n → mask_draw (64 + n) d ≡ d
unfolding mask_draw
mask_high n d hn h =
    let e : 64 + n - 64 ≡ n = omega arith in
    ground (arith, small_mask n d.w0 h, ap (λ (t : ℕ). bit_and d.w0 (2 ^ t - 1)) e)

-- The mask keeps every value below the bound.
mask_draw-below :
    (bound d : Uid)
    → IsUid bound
    → IsUid d
    → value d < value bound
    → mask_draw (128 - leading_zeros128 bound) d ≡ d
mask_draw-below bound d hb hd h = elim (Bool-cases (bound.w0 == 0)) [
  | inl z ↦
      let e : bound.w0 ≡ 0 = ground arith in
      rw (bits_low bound e) (
        mask_low (bit_len 64 bound.w1) d (bit_len-le 64 bound.w1) (omega arith)
          (omega (arith, lt-two_pow-bit_len 64 bound.w1)))
  | inr p ↦
      let e : bound.w0 ≢ 0 = ground arith in
      rw (bits_high bound e) (
        mask_high (bit_len 64 bound.w0) d (bit_len-pos 64 bound.w0 (omega arith) (omega arith))
          (omega (arith, lt-two_pow-bit_len 64 bound.w0)))
]

before_iff :
    (a b : Uid) → IsUid a → IsUid b → (is_before (compare_to a b) ≡ true) ↔ (value a < value b)
before_iff a b ha hb = ground (arith, compare_to-value a b ha hb)

-- What holds of the outcome of a draw, if there is one.
abbrev pub IsDrawn : Uid → Option (Uid × List Uid) → Type 0
IsDrawn bound none = Unit
IsDrawn bound (some (r, rest)) = IsUid r × (value r < value bound) × All IsUid rest

draw_below-IsDrawn :
    (bound : Uid) (n : ℕ) (draws : List Uid)
    → IsUid bound
    → All IsUid draws
    → IsDrawn bound (draw_below bound n draws)
unfolding draw_below
draw_below-IsDrawn bound n [] hb hd = tt
draw_below-IsDrawn bound n (d ∷ draws) hb hd =
    elim (Bool-cases (is_before (compare_to (mask_draw n d) bound))) [
      | inl hit ↦
          let valid = mask_draw-IsUid n d hd.0 in
          rw hit (valid, (before_iff _ bound valid hb).0 hit, hd.1)
      | inr miss ↦ rw miss (draw_below-IsDrawn bound n draws hb hd.1)
    ]

-- Whatever a draw below a nonzero bound returns is below the bound.
pub rand_below-IsDrawn :
    (bound : Uid) (draws : List Uid)
    → IsUid bound
    → 0 < value bound
    → All IsUid draws
    → IsDrawn bound (rand_below bound draws)
unfolding rand_below is_nil
rand_below-IsDrawn bound draws hb pos hd =
    let nonzero : (bound.w0 == 0 && bound.w1 == 0) ≡ false = ground arith in
    rw nonzero (draw_below-IsDrawn bound (128 - leading_zeros128 bound) draws hb hd)

-- Every value below the bound is what some draw returns, and a draw that is below the bound ends
-- the loop at once.
pub rand_below-hit :
    (bound d : Uid) (draws : List Uid)
    → IsUid bound
    → IsUid d
    → value d < value bound
    → rand_below bound (d ∷ draws) ≡ some (d, draws)
unfolding rand_below draw_below is_nil
rand_below-hit bound d draws hb hd h =
    let nonzero : (bound.w0 == 0 && bound.w1 == 0) ≡ false = ground arith in
    rw (nonzero, mask_draw-below bound d hb hd h, (before_iff d bound hd hb).1 h) refl
