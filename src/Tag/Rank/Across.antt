-- ===== src/Tag/Rank/Across.antt =====
-- RanksAcross: one rank in each slot of the interval, so the ranks ascend strictly inside it.
use amp_sdk.Base.{
  ℕ, zero, suc, ◌+◌, ◌-◌, ◌*◌, ◌/◌, ◌%◌, ◌^◌, ◌≤◌, ◌<◌, ◌≡◌, refl, ap, ap₂, ◌∙◌, arith,
}
use amp_sdk.Base.{
  false, List, [], ◌∷◌, All, Option, none, some, length, ltb, if◌then◌else◌, Bool-cases, inl, inr,
}
use amp_sdk.Base.Int.{pos}
use amp_sdk.Tag.Uid.{Uid, IsUid, u64, value, add, subtract}
use amp_sdk.Tag.Uid.Arith.{compare_to-value, value-add, value-subtract, add-IsUid, subtract-IsUid}
use amp_sdk.Tag.Rank.{
  Minted, mul_scalar, div_scalar, after_draw, cons_rank, ranks_loop, minted_ranks, mint_across,
  ranks_across, rand_below,
}
use amp_sdk.Tag.Rank.Scalar.{value-mul_scalar, value-div_scalar}
use amp_sdk.Tag.Rank.Draw.{IsDrawn, rand_below-IsDrawn}
use native.Mathlib.Nat.{mod-eq_of_lt, div-mul-le_self, le-div_iff_mul-le}

-- From above `a` to below `b`, each rank larger than the one before.
abbrev pub Ascending : ℕ → ℕ → List Uid → Type 0
Ascending a b [] = a < b
Ascending a b (r ∷ ranks) = IsUid r × (a < value r) × Ascending (value r) b ranks

abbrev IsSpread : ℕ → ℕ → ℕ → Option (List Uid × List Uid) → Type 0
IsSpread a b n none = Unit
IsSpread a b n (some (ranks, rest)) = (length ranks ≡ n) × Ascending a b ranks

cons_rank-IsSpread :
    (a b n : ℕ) (rank : Uid) (o : Option (List Uid × List Uid))
    → IsUid rank
    → a < value rank
    → IsSpread (value rank) b n o
    → IsSpread a b (suc n) (cons_rank rank o)
cons_rank-IsSpread a b n rank none valid h s = tt
cons_rank-IsSpread a b n rank (some (ranks, rest)) valid h s = (ap suc s.0, (valid, h, s.1))

-- The rank that stands `r` above the start of slot `i + 1`.
rank_value :
    (lo stride r : Uid) (i hi : ℕ)
    → IsUid lo
    → IsUid stride
    → IsUid r
    → i + 1 < 2 ^ 64
    → hi < 2 ^ 128
    → value lo + value stride * (i + 1) + value r < hi
    → value (add (add lo (mul_scalar stride (u64 (i + 1)))) r)
      ≡ value lo + value stride * (i + 1) + value r
rank_value lo stride r i hi hl hs hr small hh h =
    value-add (add lo (mul_scalar stride (u64 (i + 1)))) r (add-IsUid lo _) hr
    ∙ omega (arith, first)
  where
    multiple : value (mul_scalar stride (u64 (i + 1))) ≡ value stride * (i + 1)
    multiple =
        ap (λ (t : ℕ). value (mul_scalar stride t)) (omega arith)
        ∙ value-mul_scalar stride (i + 1) hs
        ∙ mod-eq_of_lt (omega arith)

    first : value (add lo (mul_scalar stride (u64 (i + 1)))) ≡ value lo + value stride * (i + 1)
    first =
        value-add lo (mul_scalar stride (u64 (i + 1))) hl (unfold mul_scalar in omega arith)
        ∙ ap (λ (t : ℕ). (value lo + t) % 2 ^ 128) multiple
        ∙ mod-eq_of_lt (omega arith)

module _ (lo stride : Uid) (hi : ℕ) (hl : IsUid lo) (hs : IsUid stride) (hh : hi < 2 ^ 128) where
  -- What is left of the interval holds a slot for each rank to draw, and one more.
  abbrev Fits : ℕ → ℕ → ℕ → Type 0
  Fits a i left =
      (a < value lo + value stride * (i + 1))
      × (value lo + value stride * (i + 1) + value stride * left ≤ hi)
      × (i + left + 1 < 2 ^ 64)

  after_draw-IsSpread :
      (a n : ℕ) (o : Option (Uid × List Uid)) (k : Uid → List Uid → Option (List Uid × List Uid))
      → IsDrawn stride o
      → ((r : Uid) (rest : List Uid)
          → IsUid r
          → value r < value stride
          → All IsUid rest
          → IsSpread a hi n (k r rest))
      → IsSpread a hi n (after_draw o k)
  after_draw-IsSpread a n none k h next = tt
  after_draw-IsSpread a n (some (r, rest)) k h next = next r rest h.0 h.1 h.2

  ranks_loop-IsSpread :
      0 < value stride
      → (left a i : ℕ) (draws : List Uid) → All IsUid draws
      → Fits a i left
      → IsSpread a hi left (ranks_loop lo stride i left draws)
  unfolding ranks_loop
  ranks_loop-IsSpread nonzero zero a i draws hd (low, high, small) = (refl, omega arith)
  ranks_loop-IsSpread nonzero (suc left) a i draws hd (low, high, small) =
      after_draw-IsSpread a (suc left) (rand_below stride draws) _
        (rand_below-IsDrawn stride draws hs nonzero hd)
        λ r rest valid below valid_rest.
          let e = rank_value lo stride r i hi hl hs valid (omega arith) hh (omega arith) in
          cons_rank-IsSpread a hi left _ (ranks_loop lo stride (i + 1) left rest) (add-IsUid _ r)
            (omega arith)
            (ranks_loop-IsSpread nonzero left _ (i + 1) rest valid_rest
              (omega arith, omega arith, omega arith))

-- What the ranks promise: a success has `count` ranks that ascend strictly inside the interval, and a
-- refusal has no room for `count` slots and one more.
abbrev pub IsAcross : Uid → Uid → ℕ → Option (Minted (List Uid)) → Type 0
IsAcross lo hi count none = Unit
IsAcross lo hi count (some m) =
    if m.success
    then (length m.result ≡ count) × Ascending (value lo) (value hi) m.result
    else value hi < value lo + (count + 1)

minted_ranks-IsAcross :
    (lo hi : Uid) (count : ℕ) (o : Option (List Uid × List Uid))
    → IsSpread (value lo) (value hi) count o
    → IsAcross lo hi count (minted_ranks o)
minted_ranks-IsAcross lo hi count none h = tt
minted_ranks-IsAcross lo hi count (some (ranks, rest)) h = h

across_guards :
    (lo hi : Uid) (n : ℕ) (draws : List Uid)
    → IsUid lo
    → IsUid hi
    → suc n < 2 ^ 63
    → ranks_across lo hi (pos (suc n)) draws ≡ (
        if ltb (value hi) (value lo + (suc n + 1))
        then some (record { result = []; success = false; draws = draws })
        else mint_across lo hi (suc n) draws)
unfolding ranks_across
across_guards lo hi n draws hl hh small =
    let slots : u64 (suc n + 1) ≡ suc n + 1 = omega arith in
    ground
      (arith, slots, compare_to-value hi lo hh hl, value-subtract hi lo hh hl, subtract-IsUid hi lo)

-- The stride of the slots, and the room that they take.
module _ (lo hi : Uid) (count : ℕ) (hl : IsUid lo) (hh : IsUid hi) where
  mint_across-IsAcross :
      (draws : List Uid)
      → All IsUid draws
      → count < 2 ^ 63
      → value lo + (count + 1) ≤ value hi
      → IsAcross lo hi count (mint_across lo hi count draws)
  unfolding mint_across
  mint_across-IsAcross draws hd small room = minted_ranks-IsAcross lo hi count _ (
      ranks_loop-IsSpread lo stride (value hi) hl divided.1 (omega arith) nonzero count (value lo) 0
        draws hd (omega (arith, nonzero), omega (arith, room_used), omega arith))
    where
      gap : Uid
      gap = subtract hi lo

      stride : Uid
      stride = div_scalar gap (u64 (count + 1))

      slots : u64 (count + 1) ≡ count + 1
      slots = omega arith

      divided : (value stride ≡ value gap / u64 (count + 1)) × IsUid stride
      divided = value-div_scalar gap (u64 (count + 1)) (subtract-IsUid hi lo) (omega arith)

      gap_value : value gap ≡ value hi - value lo
      gap_value = omega (arith, value-subtract hi lo hh hl)

      stride_value : value stride ≡ (value hi - value lo) / (count + 1)
      stride_value = divided.0 ∙ ap₂ (λ (a b : ℕ). a / b) gap_value slots

      nonzero : 0 < value stride
      nonzero = rw stride_value ((le-div_iff_mul-le (omega arith)).1 (omega arith))

      room_used : value stride * (count + 1) ≤ value hi - value lo
      room_used = rw stride_value (div-mul-le_self (value hi - value lo) (count + 1))

-- RanksAcross returns as many ranks as it was asked for, strictly ascending and strictly inside its
-- bounds, and it refuses only where the bounds leave no room for one more slot than that.
pub ranks_across-IsAcross :
    (lo hi : Uid) (n : ℕ) (draws : List Uid)
    → IsUid lo
    → IsUid hi
    → All IsUid draws
    → suc n < 2 ^ 63
    → IsAcross lo hi (suc n) (ranks_across lo hi (pos (suc n)) draws)
ranks_across-IsAcross lo hi n draws hl hh hd small =
    rw (across_guards lo hi n draws hl hh small)
      (elim (Bool-cases (ltb (value hi) (value lo + (suc n + 1)))) [
        | inl shut ↦ rw shut (ground arith)
        | inr room ↦
            rw room (mint_across-IsAcross lo hi (suc n) hl hh draws hd small (ground arith))
      ])
