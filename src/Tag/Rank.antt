-- ===== src/Tag/Rank.antt =====
-- stdlib/tag/rank.go: ranks drawn at random inside an interval of UIDs. The draws of crypto/rand are
-- a list, and `none` says that the list ran out before the loop accepted a draw.
pub mod Scalar
pub mod Draw
pub mod Between
pub mod Across
use amp_sdk.Base.{ℕ, zero, suc, ◌+◌, ◌-◌, ◌*◌, ◌/◌, ◌%◌, ◌^◌, bit_and, Bool, true, false, ◌&&◌}
use amp_sdk.Base.{List, [], ◌∷◌, Option, none, some, ltb, leb, ◌==◌, if◌then◌else◌}
use amp_sdk.Base.Int.{ℤ, pos, negsuc}
use amp_sdk.Tag.Uid.{Uid, u64, nil, is_nil, compare_to, add, subtract, decrement}
use Prim.Native.Nat.{Ordering}
use Prim.Native.Nat.Ordering.{lt, eq, gt}

-- `bits.Len64`, on at most `k` bits, and `bits.LeadingZeros64`.
unfoldable pub bit_len : ℕ → ℕ → ℕ
bit_len zero x = 0
bit_len (suc k) x = if x == 0 then 0 else bit_len k (x / 2) + 1

unfoldable pub leading_zeros128 : Uid → ℕ
leading_zeros128 id = if id.w0 == 0 then 64 + (64 - bit_len 64 id.w1) else 64 - bit_len 64 id.w0

-- The draw, masked to the bit length of the bound.
unfoldable pub mask_draw : ℕ → Uid → Uid
mask_draw bound_bits draw =
    if leb bound_bits 64
    then record {
      w0 = 0;
      w1 = if ltb bound_bits 64 then bit_and draw.w1 (2 ^ bound_bits - 1) else draw.w1;
    }
    else record draw {
      w0 = if ltb bound_bits 128 then bit_and draw.w0 (2 ^ (bound_bits - 64) - 1) else draw.w0;
    }

abbrev pub is_before : Ordering → Bool
is_before lt = true
is_before eq = false
is_before gt = false

-- `CompareTo(…) <= 0`
abbrev pub not_after : Ordering → Bool
not_after lt = true
not_after eq = true
not_after gt = false

-- The rejection loop of `randBelow`.
unfoldable pub draw_below : Uid → ℕ → List Uid → Option (Uid × List Uid)
draw_below bound bound_bits [] = none
draw_below bound bound_bits (seed ∷ draws) =
    let draw = mask_draw bound_bits seed in
    let again = draw_below bound bound_bits draws in
    if is_before (compare_to draw bound) then some (draw, draws) else again

unfoldable pub rand_below : Uid → List Uid → Option (Uid × List Uid)
rand_below bound draws =
    if is_nil bound
    then some (nil, draws)
    else draw_below bound (128 - leading_zeros128 bound) draws

-- The results of a Go function that draws: its value, its `ok`, and the draws that are left.
pub record Minted (A : Type 0) : Type 0 where
  pub result : A
  pub success : Bool
  pub draws : List Uid

-- `lo.Add(UID{0, 1}).Add(…)` on what was drawn.
abbrev pub minted_above : Uid → Option (Uid × List Uid) → Option (Minted Uid)
minted_above lo none = none
minted_above lo (some (r, rest)) =
    some
      (record { result = add (add lo (record { w0 = 0; w1 = 1 })) r; success = true; draws = rest })

-- The part of `RankBetween` behind its guards.
unfoldable pub mint_between : Uid → Uid → List Uid → Option (Minted Uid)
mint_between lo hi draws =
    let gap = subtract hi lo in
    let interior = (decrement gap).0 in minted_above lo (rand_below interior draws)

unfoldable pub rank_between : Uid → Uid → List Uid → Option (Minted Uid)
rank_between lo hi draws =
    let gap = subtract hi lo in
    let refused : Option (Minted Uid) =
      some (record { result = nil; success = false; draws = draws }) in
    if not_after (compare_to hi lo)
    then refused
    else if gap.w0 == 0 && leb gap.w1 1
    then refused
    else mint_between lo hi draws

-- `mulScalar`, by the 128-bit product of `bits.Mul64`.
unfoldable pub mul_scalar : Uid → ℕ → Uid
mul_scalar id scalar =
    let product = id.w1 * scalar in
    record { w0 = u64 (u64 (id.w0 * scalar) + product / 2 ^ 64); w1 = u64 product }

-- `divScalar`, by the quotient of `bits.Div64`, whose high word is the remainder.
unfoldable pub div_scalar : Uid → ℕ → Uid
div_scalar id scalar = record {
  w0 = id.w0 / scalar;
  w1 = (id.w0 % scalar * 2 ^ 64 + id.w1) / scalar;
}

abbrev pub after_draw :
    {A : Type 0} → Option (Uid × List Uid) → (Uid → List Uid → Option A) → Option A
after_draw none k = none
after_draw (some (r, rest)) k = k r rest

-- One rank more in front of those that the rest of the loop returns.
abbrev pub cons_rank : Uid → Option (List Uid × List Uid) → Option (List Uid × List Uid)
cons_rank rank none = none
cons_rank rank (some (ranks, rest)) = some (rank ∷ ranks, rest)

-- The loop of `RanksAcross` from index `i` on, with `left` ranks to draw.
unfoldable pub ranks_loop : Uid → Uid → ℕ → ℕ → List Uid → Option (List Uid × List Uid)
ranks_loop lo stride i zero draws = some ([], draws)
ranks_loop lo stride i (suc left) draws = after_draw (rand_below stride draws) λ r rest.
    cons_rank (add (add lo (mul_scalar stride (u64 (i + 1)))) r)
      (ranks_loop lo stride (i + 1) left rest)

abbrev pub minted_ranks : Option (List Uid × List Uid) → Option (Minted (List Uid))
minted_ranks none = none
minted_ranks (some (ranks, rest)) = some (record { result = ranks; success = true; draws = rest })

-- The part of `RanksAcross` behind its guards.
unfoldable pub mint_across : Uid → Uid → ℕ → List Uid → Option (Minted (List Uid))
mint_across lo hi count draws =
    minted_ranks (ranks_loop lo (div_scalar (subtract hi lo) (u64 (count + 1))) 0 count draws)

-- `count` is an int: at most 0 there is nothing to draw, and below 0 that is a failure.
unfoldable pub ranks_across : Uid → Uid → ℤ → List Uid → Option (Minted (List Uid))
ranks_across lo hi (negsuc n) draws = some (record { result = []; success = false; draws = draws })
ranks_across lo hi (pos zero) draws = some (record { result = []; success = true; draws = draws })
ranks_across lo hi (pos (suc n)) draws =
    let gap = subtract hi lo in
    let slots = u64 (suc n + 1) in
    let refused : Option (Minted (List Uid)) =
      some (record { result = []; success = false; draws = draws }) in
    if not_after (compare_to hi lo)
    then refused
    else if gap.w0 == 0 && ltb gap.w1 slots
    then refused
    else mint_across lo hi (suc n) draws
