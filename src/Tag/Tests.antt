-- ===== src/Tag/Tests.antt =====
-- The tag theorems at concrete inputs, and runs of the tag operations.
use amp_sdk.Base.{ℕ, ◌≡◌, refl, arith, true, List, [], ◌∷◌, some}
use amp_sdk.Base.Bytes.{bytes_compare}
use amp_sdk.Base.Int.{pos}
use amp_sdk.Tag.Uid.{Uid}
use amp_sdk.Tag.Uid.Time.{as_time, from_time}
use amp_sdk.Tag.Uid.Base32.{base32, parse_base32}
use amp_sdk.Tag.Uid.Base32.RoundTrip.{parse_base32-base32}
use amp_sdk.Tag.Address.{ElementId, Address, element_lsm, compare_element_id}
use amp_sdk.Tag.Address.Keys.{bytes_compare-element_lsm}
use amp_sdk.Tag.Uid.{add, subtract}
use amp_sdk.Tag.Rank.{rank_between, ranks_across}
use amp_sdk.Tag.Rank.Between.{IsInside, rank_between-IsInside, rank_between-hit}
use amp_sdk.Tag.Rank.Across.{IsAcross, ranks_across-IsAcross}
use amp_sdk.Tag.Locus.{LocusKit}

abbrev uid : ℕ → ℕ → Uid
uid a b = record { w0 = a; w1 = b }

abbrev big : Uid
big = uid 0xFFFFFFFFFFFFFFFF 7

abbrev carrying : Uid
carrying = uid 4 0xFFFFFFFFFFFFFFFF

-- A whole second comes back with one nanosecond.
whole_second : as_time (from_time 1700000000 0) ≡ (1700000000, 1)
unfolding as_time from_time
whole_second = refl

parse_base32-base32_example : parse_base32 (base32 big) ≡ some big
parse_base32-base32_example = parse_base32-base32 big (omega arith, omega arith)

abbrev element : ElementId
element = record { node_id = uid 1 2; attr_id = uid 3 0xFFFFFFFFFFFFFFFF; item_id = uid 0 0 }

abbrev address : ℕ → Address
address n = record { element_id = element; edit_id = uid n 5 }

abbrev other : ElementId
other = record { node_id = uid 1 2; attr_id = uid 4 0; item_id = uid 0 0 }

bytes_compare-element_lsm_example :
    bytes_compare (element_lsm element) (element_lsm other) ≡ compare_element_id element other
bytes_compare-element_lsm_example =
    bytes_compare-element_lsm element other (omega arith) (omega arith)

abbrev seeds : List Uid
seeds = uid 7 200 ∷ uid 1 5 ∷ uid 0 2 ∷ []

rank_between-IsInside_example :
    IsInside (uid 3 0) (uid 3 100) (rank_between (uid 3 0) (uid 3 100) seeds)
rank_between-IsInside_example =
    rank_between-IsInside (uid 3 0) (uid 3 100) seeds (omega arith) (omega arith) (omega arith)

rank_between-hit_example :
    rank_between (uid 3 0) (uid 3 100) (subtract (uid 3 9) (add (uid 3 0) (uid 0 1)) ∷ seeds)
    ≡ some (record { result = uid 3 9; success = true; draws = seeds })
rank_between-hit_example =
    rank_between-hit (uid 3 0) (uid 3 100) (uid 3 9) seeds (omega arith) (omega arith) (omega arith)
      (omega arith) (omega arith)

ranks_across-IsAcross_example :
    IsAcross (uid 3 0) (uid 3 100) 2 (ranks_across (uid 3 0) (uid 3 100) (pos 2) seeds)
ranks_across-IsAcross_example =
    ranks_across-IsAcross (uid 3 0) (uid 3 100) 1 seeds (omega arith) (omega arith) (omega arith)
      (omega arith)

abbrev kit : LocusKit
kit = record { id = 1; max_cells = 37; pointer = 1 }

abbrev clash : LocusKit
clash = record { id = 1; max_cells = 64; pointer = 2 }
