-- ===== src/Tag/Locus/Registry.antt =====
-- The registry of locus kits: a kit once registered stays, and only a clash is an error.
use amp_sdk.Base.{ℕ, ◌≡◌, arith, true, false, ◌==◌, ==_iff, if◌then◌else◌}
use amp_sdk.Base.{List, none, some, Bool-cases, inl, inr, ap}
use amp_sdk.Tag.Locus.{LocusKit, find_kit, register_kit}

-- Registering leaves every kit that was there, adds the new one where its id was free, and answers an
-- error exactly where the id belongs to another pointer.
pub register_kit_lem :
    (kits : List LocusKit) (kit : LocusKit) (id : ℕ)
    → let (kits', error) = register_kit kits kit in
      (find_kit kits' id ≡ elim (find_kit kits id) [
        | some old ↦ some old
        | none ↦ if kit.id == id then some kit else none
      ])
      × (error ≡ elim (find_kit kits kit.id) [
        | some old ↦ if old.pointer == kit.pointer then false else true
        | none ↦ false
      ])
unfolding register_kit find_kit
register_kit_lem kits kit id = elim (Bool-cases (kit.id == id)) [
  | inl e ↦
      let same = ap (find_kit kits) ((==_iff kit.id id).0 e) in
      (ground (arith, same, e), ground arith)
  | inr e ↦ (ground (arith, e), ground arith)
]
