-- ===== src/Tag/Locus.antt =====
-- stdlib/tag/tag.locus.go: loci of 64 cells, the hex spiral, and the registry of layouts.
pub mod Laws
pub mod Spiral
pub mod Registry
use amp_sdk.Base.{ℕ, zero, suc, ◌+◌, ◌-◌, ◌*◌, ◌^◌, bit_and, bit_or, Bool, true, false, ◌&&◌}
use amp_sdk.Base.{List, [], ◌∷◌, Option, none, some, ltb, ◌==◌, if◌then◌else◌}
use amp_sdk.Base.Int.{ℤ, pos, negsuc}
use amp_sdk.Tag.Uid.{Uid}

abbrev pub locus_mask : ℕ
locus_mask = 0x3F

abbrev pub locus_span : ℕ
locus_span = 64

abbrev pub locus_hex_cells : ℕ
locus_hex_cells = 37

-- `x &^ y`: the bits of `x` that are not in `y`.
abbrev and_not : ℕ → ℕ → ℕ
and_not x y = x - bit_and x y

unfoldable pub locus_base : Uid → Uid
locus_base uid = record { w0 = uid.w0; w1 = and_not uid.w1 locus_mask }

unfoldable pub locus_cell : Uid → ℕ
locus_cell uid = bit_and uid.w1 locus_mask

-- `cell` is the 64-bit pattern of the int.
unfoldable pub with_cell : Uid → ℕ → Uid
with_cell uid cell = record { w0 = uid.w0; w1 = bit_or uid.w1 (bit_and cell locus_mask) }

unfoldable pub locus_match : Uid → Uid → Bool
locus_match base uid = uid.w0 == base.w0 && and_not uid.w1 locus_mask == and_not base.w1 locus_mask

pub record HexOffset : Type 0 where
  pub q : ℤ
  pub r : ℤ

abbrev at : ℤ → ℤ → HexOffset
at q r = record { q = q; r = r }

-- 1, 2, 3 and -1, -2, -3.
abbrev p : ℕ → ℤ
p n = pos n

abbrev n1 : ℤ
n1 = negsuc 0

abbrev n2 : ℤ
n2 = negsuc 1

abbrev n3 : ℤ
n3 = negsuc 2

unfoldable pub locus_hex_spiral : List HexOffset
locus_hex_spiral =
    at (p 0) (p 0)
    ∷ at (p 1) (p 0)
    ∷ at (p 0) (p 1)
    ∷ at n1 (p 1)
    ∷ at n1 (p 0)
    ∷ at (p 0) n1
    ∷ at (p 1) n1
    ∷ at (p 2) (p 0)
    ∷ at (p 1) (p 1)
    ∷ at (p 0) (p 2)
    ∷ at n1 (p 2)
    ∷ at n2 (p 2)
    ∷ at n2 (p 1)
    ∷ at n2 (p 0)
    ∷ at n1 n1
    ∷ at (p 0) n2
    ∷ at (p 1) n2
    ∷ at (p 2) n2
    ∷ at (p 2) n1
    ∷ at (p 3) (p 0)
    ∷ at (p 2) (p 1)
    ∷ at (p 1) (p 2)
    ∷ at (p 0) (p 3)
    ∷ at n1 (p 3)
    ∷ at n2 (p 3)
    ∷ at n3 (p 3)
    ∷ at n3 (p 2)
    ∷ at n3 (p 1)
    ∷ at n3 (p 0)
    ∷ at n2 n1
    ∷ at n1 n2
    ∷ at (p 0) n3
    ∷ at (p 1) n3
    ∷ at (p 2) n3
    ∷ at (p 3) n3
    ∷ at (p 3) n2
    ∷ at (p 3) n1
    ∷ []

-- The loop of `cellToRing` on fuel; `none` says that the fuel ran out.
unfoldable pub ring_loop : ℕ → ℕ → ℕ → ℕ → Option (ℕ × ℕ)
ring_loop zero cell ring start = none
ring_loop (suc fuel) cell ring start =
    let count = 6 * ring in
    let next = ring_loop fuel cell (ring + 1) (start + count) in
    if ltb cell (start + count) then some (ring, cell - start) else next

unfoldable pub cell_to_ring : ℕ → Option (ℕ × ℕ)
cell_to_ring cell = ring_loop (cell + 1) cell 1 1

-- A registered kit is known by its pointer, a number here; the layout function is not called.
pub record LocusKit : Type 0 where
  pub id : ℕ
  pub max_cells : ℕ
  pub pointer : ℕ

-- `Lookup map[LocusKitID]*LocusKit`
unfoldable pub find_kit : List LocusKit → ℕ → Option LocusKit
find_kit [] id = none
find_kit (kit ∷ kits) id = if kit.id == id then some kit else find_kit kits id

-- The error of `RegisterLocusKit` is `true` here.
unfoldable pub register_kit : List LocusKit → LocusKit → List LocusKit × Bool
register_kit kits kit = elim (find_kit kits kit.id) [
  | none ↦ (kit ∷ kits, false)
  | some existing ↦ (kits, if existing.pointer == kit.pointer then false else true)
]

unfoldable pub register_kits : List LocusKit → List LocusKit → List LocusKit
register_kits kits [] = kits
register_kits kits (kit ∷ more) = register_kits (register_kit kits kit).0 more

-- `init` registers the four built-in kits.
unfoldable pub built_in_kits : List LocusKit
unfolding register_kits register_kit find_kit
built_in_kits = register_kits [] (
    record { id = 1; max_cells = locus_hex_cells; pointer = 1 }
    ∷ record { id = 2; max_cells = locus_span; pointer = 2 }
    ∷ record { id = 3; max_cells = locus_hex_cells; pointer = 3 }
    ∷ record { id = 5; max_cells = locus_span; pointer = 4 }
    ∷ [])
