-- ===== src/Tag/Locus/Spiral.antt =====
-- cellToRing finds the ring of every cell, and the spiral table lays each cell on its ring.
use amp_sdk.Base.{ℕ, zero, suc, ◌+◌, ◌*◌, ◌/◌, ◌≤◌, ◌<◌, ◌≡◌, refl, arith, Bool, true, false, ◌==◌}
use amp_sdk.Base.{Option, none, some, get_elem?, ltb, Bool-cases, inl, inr, ==_iff}
use amp_sdk.Base.Bytes.{all_below, all_below-true}
use amp_sdk.Base.Int.{◌+ℤ◌, abs}
use amp_sdk.Tag.Locus.{HexOffset, locus_hex_spiral, locus_hex_cells, ring_loop, cell_to_ring}

-- The ring and the index in it: ring r starts at cell 1 + 3r(r - 1) and has 6r cells.
abbrev pub IsRingOf : ℕ → Option (ℕ × ℕ) → Type 0
IsRingOf cell none = ⊥
IsRingOf cell (some (ring, index)) =
    (1 ≤ ring) × (index < 6 * ring) × (cell + 3 * ring ≡ 1 + 3 * (ring * ring) + index)

ring_loop-IsRingOf :
    (fuel cell ring start : ℕ)
    → 1 ≤ ring
    → start + 3 * ring ≡ 1 + 3 * (ring * ring)
    → start ≤ cell
    → cell < start + fuel
    → IsRingOf cell (ring_loop fuel cell ring start)
unfolding ring_loop
ring_loop-IsRingOf zero cell ring start h1 h2 h3 h4 = absurd (omega arith)
ring_loop-IsRingOf (suc fuel) cell ring start h1 h2 h3 h4 =
    elim (Bool-cases (ltb cell (start + 6 * ring))) [
      | inl inside ↦ rw inside (h1, ground arith, ground arith)
      | inr beyond ↦ rw beyond (
          ring_loop-IsRingOf fuel cell (ring + 1) (start + 6 * ring) (omega arith) (omega arith)
            (ground arith) (omega arith))
    ]

-- For every cell but the centre the loop ends, and it answers the ring and the index of the cell.
pub cell_to_ring-IsRingOf : (cell : ℕ) → 0 < cell → IsRingOf cell (cell_to_ring cell)
unfolding cell_to_ring
cell_to_ring-IsRingOf cell h =
    ring_loop-IsRingOf (cell + 1) cell 1 1 (omega arith) (omega arith) h (omega arith)

-- The number of steps between the centre and an axial offset.
abbrev pub offset_length : HexOffset → ℕ
offset_length h = (abs h.q + abs h.r + abs (h.q +ℤ h.r)) / 2

-- Whether the entry of the table for the cell lies on the ring that `cellToRing` answers.
on_its_ring : ℕ → Bool
on_its_ring zero = true
on_its_ring (suc n) = elim (get_elem? locus_hex_spiral (suc n)) [
  | none ↦ false
  | some h ↦ elim (cell_to_ring (suc n)) [ none ↦ false | some (ring, i) ↦ offset_length h == ring ]
]

abbrev pub LiesOn : Option HexOffset → Option (ℕ × ℕ) → Type 0
LiesOn none r = ⊥
LiesOn (some h) none = ⊥
LiesOn (some h) (some (ring, i)) = offset_length h ≡ ring

spiral_table : all_below 37 on_its_ring ≡ true
unfolding all_below on_its_ring locus_hex_spiral cell_to_ring ring_loop
spiral_table = refl

lies_on :
    (n : ℕ) (o : Option HexOffset) (r : Option (ℕ × ℕ))
    → elim o [
      | none ↦ false
      | some h ↦ elim r [ none ↦ false | some (ring, i) ↦ offset_length h == ring ]
    ]
      ≡ true
    → LiesOn o r
lies_on n none r h = cc
lies_on n (some o) none h = cc
lies_on n (some o) (some (ring, i)) h = (==_iff (offset_length o) ring).0 h

-- Every cell of the spiral but the centre has an entry, as many steps from the centre as the number of
-- the ring that cellToRing answers for it.
pub spiral-LiesOn :
    (cell : ℕ)
    → 0 < cell
    → cell < locus_hex_cells
    → LiesOn (get_elem? locus_hex_spiral cell) (cell_to_ring cell)
unfolding on_its_ring
spiral-LiesOn zero h g = elim h [ ]
spiral-LiesOn (suc n) h g = lies_on n _ _ (all_below-true 37 on_its_ring (suc n) spiral_table g)
