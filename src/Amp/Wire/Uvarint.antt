-- ===== src/Amp/Wire/Uvarint.antt =====
-- Every 64-bit number is read back from the bytes that AppendUvarint writes for it.
use amp_sdk.Base.{
  ℕ, zero, suc, ◌+◌, ◌*◌, ◌/◌, ◌%◌, ◌^◌, ◌≤◌, ◌<◌, ◌≡◌, refl, ap, ap₂, ◌∙◌, arith, bit_and, bit_or,
}
use amp_sdk.Base.{
  Bool, true, false, List, [], ◌∷◌, ◌++◌, Option, some, length, leb, ◌==◌, Bool-cases, inl, inr,
  ◌⊎◌,
}
use amp_sdk.Base.Bits.{bit_and_mask, bit_or_shifted}
use amp_sdk.Base.Bytes.{all_below, all_below-true}
use amp_sdk.Base.{==_iff}
use amp_sdk.Tag.Uid.{u64}
use amp_sdk.Amp.Wire.{put_uvarint_loop, put_uvarint, uvarint_loop, uvarint}
use native.Mathlib.Nat.{pow-suc, mod-eq_of_lt, mul-le-mul, suc-mul}

next_power : (i : ℕ) → 2 ^ (7 * (i + 1)) ≡ 128 * 2 ^ (7 * i)
next_power i =
    ap (λ (t : ℕ). 2 ^ t) (omega arith)
    ∙ pow-suc 2 (suc (suc (suc (suc (suc (suc (7 * i)))))))
    ∙ omega (
      arith,
      pow-suc 2 (suc (suc (suc (suc (suc (7 * i)))))),
      pow-suc 2 (suc (suc (suc (suc (7 * i))))),
      pow-suc 2 (suc (suc (suc (7 * i)))),
      pow-suc 2 (suc (suc (7 * i))),
      pow-suc 2 (suc (7 * i)),
      pow-suc 2 (7 * i),
    )

split_digit : (v p : ℕ) → v / 128 * (128 * p) + v % 128 * p ≡ v * p
split_digit v p = omega (arith, ap (λ (t : ℕ). t * p) whole)
  where
    whole : v / 128 * 128 + v % 128 ≡ v
    whole = omega arith

marks : ℕ → Bool
marks b = bit_or 0x80 b == 128 + b % 128

marks_table : all_below 256 marks ≡ true
unfolding all_below marks
marks_table = refl

-- A byte with its top bit set.
first_byte : (v : ℕ) → bit_or 0x80 (v % 2 ^ 8) ≡ 128 + v % 128
unfolding marks
first_byte v =
    (==_iff _ _).0 (all_below-true 256 marks (v % 2 ^ 8) marks_table (omega arith)) ∙ omega arith

digit_fits : (v p : ℕ) → v % 128 * p + p ≤ 128 * p
digit_fits v p = omega (arith, times (v % 128) (omega arith))
  where
    times : (d : ℕ) → d < 128 → d * p + p ≤ 128 * p
    times d h = omega (
      arith,
      mul-le-mul {n₁ = suc d} {m₁ = p} {n₂ = 128} {m₂ = p} (omega arith) (omega arith),
      suc-mul d p,
    )

-- A digit goes in above what has been read.
join_digit :
    (i d x : ℕ)
    → x < 2 ^ (7 * i)
    → d * 2 ^ (7 * i) < 2 ^ 64
    → bit_or (u64 (d * 2 ^ (7 * i))) x ≡ d * 2 ^ (7 * i) + x
join_digit i d x h small =
    ap (λ (t : ℕ). bit_or t x) (mod-eq_of_lt small) ∙ bit_or_shifted (7 * i) d x h

uvarint_stop :
    (i x b : ℕ) (bytes : List ℕ)
    → i ≤ 9
    → b < 128
    → i < 9 ⊎ b ≤ 1
    → x < 2 ^ (7 * i)
    → b * 2 ^ (7 * i) < 2 ^ 64
    → uvarint_loop i x (b ∷ bytes) ≡ some (b * 2 ^ (7 * i) + x, i + 1)
unfolding uvarint_loop
uvarint_stop i x b bytes hi hb last hx hv = ground (arith, join_digit i b x hx hv)

uvarint_more :
    (i x d : ℕ) (bytes : List ℕ)
    → i ≤ 9
    → d < 128
    → x < 2 ^ (7 * i)
    → d * 2 ^ (7 * i) < 2 ^ 64
    → uvarint_loop i x ((128 + d) ∷ bytes) ≡ uvarint_loop (i + 1) (d * 2 ^ (7 * i) + x) bytes
unfolding uvarint_loop
uvarint_more i x d bytes hi hd hx hv = rw (low, join_digit i d x hx hv) (ground arith)
  where
    low : bit_and (128 + d) 0x7F ≡ d
    low = bit_and_mask 7 (128 + d) ∙ omega arith

put_long :
    (fuel v : ℕ)
    → leb 0x80 v ≡ true
    → put_uvarint_loop (suc fuel) v ≡ (128 + v % 128) ∷ put_uvarint_loop fuel (v / 128)
unfolding put_uvarint_loop
put_long fuel v h = rw h (ap (λ (t : ℕ). t ∷ put_uvarint_loop fuel (v / 128)) (first_byte v))

put_short : (fuel v : ℕ) → leb 0x80 v ≡ false → put_uvarint_loop (suc fuel) v ≡ v ∷ []
unfolding put_uvarint_loop
put_short fuel v h = rw h (ap (λ (t : ℕ). t ∷ []) (ground arith))

uvarint_loop-put :
    (fuel i x v : ℕ) (rest : List ℕ)
    → fuel + i ≡ 9
    → x < 2 ^ (7 * i)
    → v * 2 ^ (7 * i) < 2 ^ 64
    → uvarint_loop i x (put_uvarint_loop fuel v ++ rest)
      ≡ some (v * 2 ^ (7 * i) + x, i + length (put_uvarint_loop fuel v))
uvarint_loop-put zero i x v rest hi hx hv =
    let e : i ≡ 9 = omega arith in
    let small : v ≤ 1 = omega (arith, ap (λ (t : ℕ). v * 2 ^ (7 * t)) e) in
    let byte : v % 256 ≡ v = omega arith in
    unfold put_uvarint_loop in
    rw byte (uvarint_stop i x v rest (omega arith) (omega arith) (inr small) hx hv)
uvarint_loop-put (suc fuel) i x v rest hi hx hv = elim (Bool-cases (leb 0x80 v)) [
  | inl long ↦
      let p : ℕ = 2 ^ (7 * i) in
      rw (put_long fuel v long) (
        uvarint_more i x (v % 128) _ (omega arith) (omega arith) hx (omega (arith, split_digit v p))
        ∙ uvarint_loop-put fuel (i + 1) (v % 128 * p + x) (v / 128) rest (omega arith)
            (omega (arith, next_power i, digit_fits v p))
            (omega (arith, ap (λ (t : ℕ). v / 128 * t) (next_power i), split_digit v p))
        ∙ ap₂ {C = Option (ℕ × ℕ)} (λ a b. some (a, b))
            (omega (arith, ap (λ (t : ℕ). v / 128 * t) (next_power i), split_digit v p))
            (omega arith))
  | inr short ↦
      rw (put_short fuel v short)
        (uvarint_stop i x v rest (omega arith) (ground arith) (inl (omega arith)) hx hv)
]

-- Uvarint reads back every 64-bit number that AppendUvarint wrote, with the count of its bytes, and
-- leaves what follows them.
pub uvarint-put_uvarint :
    (v : ℕ) (rest : List ℕ)
    → v < 2 ^ 64
    → uvarint (put_uvarint v ++ rest) ≡ some (v, length (put_uvarint v))
unfolding uvarint put_uvarint
uvarint-put_uvarint v rest h =
    uvarint_loop-put 9 0 0 v rest (omega arith) (omega arith) (omega arith)
    ∙ ap₂ {C = Option (ℕ × ℕ)} (λ a b. some (a, b)) (omega arith) (omega arith)

-- AppendUvarint writes one byte at least.
pub put_uvarint-nonempty : (v : ℕ) → 0 < length (put_uvarint v)
unfolding put_uvarint put_uvarint_loop
put_uvarint-nonempty v = ground arith
