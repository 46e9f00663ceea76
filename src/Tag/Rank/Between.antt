-- ===== src/Tag/Rank/Between.antt =====
-- RankBetween mints strictly inside the interval, and refuses exactly where there is nothing inside.
use amp_sdk.Base.{◌+◌, ◌-◌, ◌≤◌, ◌<◌, ◌≡◌, ap, ◌∙◌, arith}
use amp_sdk.Base.{
  Bool, true, false, List, ◌∷◌, All, Option, none, some, leb, ◌==◌, ◌&&◌, if◌then◌else◌, Bool-cases,
  inl, inr,
}
use amp_sdk.Tag.Uid.{Uid, IsUid, value, nil, compare_to, add, subtract, decrement}
use amp_sdk.Tag.Uid.Arith.{
  compare_to-value, value-add, value-subtract, add-IsUid, subtract-IsUid, decrement_lem, uid_eq,
}
use amp_sdk.Tag.Rank.{Minted, minted_above, mint_between, rank_between, rand_below, not_after}
use amp_sdk.Tag.Rank.Draw.{IsDrawn, rand_below-IsDrawn, rand_below-hit}

-- The two guards of RankBetween leave an interval with room inside.
abbrev refuses : Uid → Uid → Bool
refuses lo hi =
    if not_after (compare_to hi lo)
    then true
    else (subtract hi lo).w0 == 0 && leb (subtract hi lo).w1 1

refuses_iff : (lo hi : Uid) → IsUid lo → IsUid hi → refuses lo hi ≡ leb (value hi) (value lo + 1)
refuses_iff lo hi hl hh =
    ground (arith, compare_to-value hi lo hh hl, value-subtract hi lo hh hl, subtract-IsUid hi lo)

-- What a minted rank promises: a success lies strictly inside, and a refusal has no room.
abbrev pub IsInside : Uid → Uid → Option (Minted Uid) → Type 0
IsInside lo hi none = Unit
IsInside lo hi (some m) =
    if m.success
    then IsUid m.result × (value lo < value m.result) × (value m.result < value hi)
    else value hi ≤ value lo + 1

interior_value :
    (lo hi : Uid)
    → IsUid lo
    → IsUid hi
    → value lo + 1 < value hi
    → IsUid (decrement (subtract hi lo)).0
      × (value (decrement (subtract hi lo)).0 ≡ value hi - value lo - 1)
interior_value lo hi hl hh h =
    let valid = subtract-IsUid hi lo in
    let gap = value-subtract hi lo hh hl in
    (unfold decrement in ground arith, ground (arith, decrement_lem (subtract hi lo) valid))

-- The point that a draw of `r` above `lo` stands for.
offset_value :
    (lo hi r : Uid)
    → IsUid lo
    → IsUid hi
    → IsUid r
    → value lo + 1 + value r < value hi
    → value (add (add lo (record { w0 = 0; w1 = 1 })) r) ≡ value lo + 1 + value r
offset_value lo hi r hl hh hr h = omega (
  arith,
  value-add lo (record { w0 = 0; w1 = 1 }) hl (omega arith),
  value-add (add lo (record { w0 = 0; w1 = 1 })) r (add-IsUid lo _) hr,
)

minted_above-IsInside :
    (lo hi bound : Uid) (o : Option (Uid × List Uid))
    → IsUid lo
    → IsUid hi
    → value bound ≡ value hi - value lo - 1
    → IsDrawn bound o
    → IsInside lo hi (minted_above lo o)
minted_above-IsInside lo hi bound none hl hh hb h = tt
minted_above-IsInside lo hi bound (some (r, rest)) hl hh hb h =
    let e = offset_value lo hi r hl hh h.0 (omega arith) in
    (add-IsUid _ r, omega arith, omega arith)

rank_between-guards :
    (lo hi : Uid) (draws : List Uid)
    → IsUid lo
    → IsUid hi
    → rank_between lo hi draws ≡ (
        if leb (value hi) (value lo + 1)
        then some (record { result = nil; success = false; draws = draws })
        else mint_between lo hi draws)
unfolding rank_between
rank_between-guards lo hi draws hl hh = ground (arith, refuses_iff lo hi hl hh)

-- RankBetween mints a UID strictly between its bounds, and it refuses only where the upper bound is
-- at most one above the lower.
pub rank_between-IsInside :
    (lo hi : Uid) (draws : List Uid)
    → IsUid lo
    → IsUid hi
    → All IsUid draws
    → IsInside lo hi (rank_between lo hi draws)
rank_between-IsInside lo hi draws hl hh hd =
    rw (rank_between-guards lo hi draws hl hh) (elim (Bool-cases (leb (value hi) (value lo + 1))) [
      | inl shut ↦ rw shut (ground arith)
      | inr room ↦
          let (valid, e) = interior_value lo hi hl hh (ground arith) in
          rw room (
            unfold mint_between in
            minted_above-IsInside lo hi _ (rand_below (decrement (subtract hi lo)).0 draws) hl hh e
              (rand_below-IsDrawn _ draws valid (ground arith) hd))
    ])

-- Where the interval has room, every UID inside it is minted by some draw, and a draw below the
-- number of these UIDs ends the call at once.
pub rank_between-hit :
    (lo hi rank : Uid) (draws : List Uid)
    → IsUid lo
    → IsUid hi
    → IsUid rank
    → value lo < value rank
    → value rank < value hi
    → rank_between lo hi (subtract rank (add lo (record { w0 = 0; w1 = 1 })) ∷ draws)
      ≡ some (record { result = rank; success = true; draws = draws })
rank_between-hit lo hi rank draws hl hh hr h g =
    rank_between-guards lo hi (d ∷ draws) hl hh
    ∙ ap (λ (b : Bool). if b then refusal else mint_between lo hi (d ∷ draws)) room
    ∙ unfold mint_between in
      ap (minted_above lo) (
        rand_below-hit bound d draws bound_valid d_valid
          (omega (arith, d_value, (interior_value lo hi hl hh (omega arith)).1)))
      ∙ ap (λ r. some (record { result = r; success = true; draws = draws })) whole
  where
    base : Uid
    base = add lo (record { w0 = 0; w1 = 1 })

    d : Uid
    d = subtract rank base

    bound : Uid
    bound = (decrement (subtract hi lo)).0

    refusal : Option (Minted Uid)
    refusal = some (record { result = nil; success = false; draws = d ∷ draws })

    room : leb (value hi) (value lo + 1) ≡ false
    room = ground arith

    d_valid : IsUid d
    d_valid = subtract-IsUid rank base

    base_value : value base ≡ value lo + 1
    base_value = omega (arith, value-add lo (record { w0 = 0; w1 = 1 }) hl (omega arith))

    d_value : value d ≡ value rank - value lo - 1
    d_value = omega (arith, base_value, value-subtract rank base hr (add-IsUid lo _))

    bound_valid : IsUid bound
    bound_valid = (interior_value lo hi hl hh (omega arith)).0

    whole : add base d ≡ rank
    whole =
        uid_eq _ rank (add-IsUid base d) hr
          (omega (arith, base_value, d_value, value-add base d (add-IsUid lo _) d_valid))
