-- ===== src/Tag/Locus/Laws.antt =====
-- A UID is its locus base and its cell, and matching is having one base.
use amp_sdk.Base.{
  ℕ, ◌+◌, ◌-◌, ◌*◌, ◌/◌, ◌%◌, ◌≤◌, ◌<◌, ◌≡◌, ◌↔◌, refl, sym, ap, ap₂, ◌∙◌, arith, bit_and, bit_or,
  true,
}
use amp_sdk.Base.Bits.{bit_and_mask, bit_or_shifted}
use amp_sdk.Tag.Uid.{Uid, IsUid, value}
use amp_sdk.Tag.Locus.{locus_base, locus_cell, with_cell, locus_match, locus_mask}

low_six : (x : ℕ) → bit_and x locus_mask ≡ x % 64
low_six x = bit_and_mask 6 x

joined : (w c : ℕ) → bit_or (w - bit_and w locus_mask) (bit_and c locus_mask) ≡ w / 64 * 64 + c % 64
joined w c =
    ap₂ bit_or (omega (arith, low_six w)) (low_six c)
    ∙ bit_or_shifted 6 (w / 64) (c % 64) (omega arith)

words_path : (a b : Uid) → a.w0 ≡ b.w0 → a.w1 ≡ b.w1 → a ≡ b
words_path a b h0 h1 = λ i. record { w0 = h0 i; w1 = h1 i }

-- Putting a cell into a base: the base and the cell of the result are those two, a cell of 64 or more
-- counting by its low six bits, and every UID is put together from its own base and cell.
pub with_cell_parts :
    (uid : Uid) (cell : ℕ)
    → (locus_base (with_cell (locus_base uid) cell) ≡ locus_base uid)
      × (locus_cell (with_cell (locus_base uid) cell) ≡ cell % 64)
      × (with_cell (locus_base uid) (locus_cell uid) ≡ uid)
unfolding locus_base locus_cell with_cell
with_cell_parts uid cell =
    let j = joined uid.w1 cell in
    (
      words_path _ _ refl (omega (arith, j, low_six uid.w1, low_six joint)),
      omega (arith, j, low_six joint),
      words_path _ _ refl (
          ap (bit_or (uid.w1 - bit_and uid.w1 locus_mask)) (sym (twice uid.w1))
          ∙ joined uid.w1 uid.w1
          ∙ omega arith),
    )
  where
    joint : ℕ
    joint = bit_or (uid.w1 - bit_and uid.w1 locus_mask) (bit_and cell locus_mask)

    twice : (w : ℕ) → bit_and w locus_mask ≡ bit_and (bit_and w locus_mask) locus_mask
    twice w = omega (arith, low_six w, low_six (bit_and w locus_mask))

-- LocusMatch holds exactly of the 64 UIDs from the base on.
pub locus_match_iff :
    (base uid : Uid)
    → IsUid base
    → IsUid uid
    → (locus_match base uid ≡ true)
      ↔ (value (locus_base base) ≤ value uid) × (value uid < value (locus_base base) + 64)
unfolding locus_match locus_base
locus_match_iff base uid hb hu = ground (arith, low_six base.w1, low_six uid.w1)
