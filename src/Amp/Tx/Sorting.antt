-- ===== src/Amp/Tx/Sorting.antt =====
-- The sort of Normalize by address.
use amp_sdk.Base.{ℕ, ◌≤◌, ◌<◌, ◌≡◌, inl, inr, arith, false}
use amp_sdk.Base.{List, [], ◌∷◌, All, ltb, ◌==◌, Bool-cases}
use amp_sdk.Tag.Address.{compare_address}
use amp_sdk.Tag.Address.Keys.{IsAddress}
use amp_sdk.Tag.Address.Order.{address_key, compare_address-key}
use amp_sdk.Tag.Rank.{is_before}
use amp_sdk.Amp.Ops.{TxOp}
use amp_sdk.Amp.Tx.{insert_op, sort_ops, is_equal, has_duplicate_after, has_duplicate}
use mathlib.Core.List.{Perm}
use mathlib.Core.List.Perm

abbrev pub key : TxOp → ℕ
key op = address_key op.addr

abbrev pub HasAddress : TxOp → Type 0
HasAddress op = IsAddress op.addr

-- From `a` on the addresses do not go down.
abbrev After : ℕ → List TxOp → Type 0
After a [] = Unit
After a (x ∷ xs) = (a ≤ key x) × After (key x) xs

insert_op-Perm : (op : TxOp) (xs : List TxOp) → Perm (insert_op op xs) (op ∷ xs)
unfolding insert_op
insert_op-Perm op [] = Perm.refl (op ∷ [])
insert_op-Perm op (x ∷ xs) = elim (Bool-cases (is_before (compare_address op.addr x.addr))) [
  | inl before ↦ rw before (Perm.refl (op ∷ x ∷ xs))
  | inr later ↦ rw later (Perm.trans (Perm.cons x (insert_op-Perm op xs)) (Perm.swap op x xs))
]

pub sort_ops-Perm : (ops : List TxOp) → Perm (sort_ops ops) ops
unfolding sort_ops
sort_ops-Perm [] = Perm.refl []
sort_ops-Perm (op ∷ ops) =
    Perm.trans (insert_op-Perm op (sort_ops ops)) (Perm.cons op (sort_ops-Perm ops))

insert_op-All :
    (P : TxOp → Type 0) (op : TxOp) (xs : List TxOp) → P op → All P xs → All P (insert_op op xs)
unfolding insert_op
insert_op-All P op [] p h = (p, tt)
insert_op-All P op (x ∷ xs) p h = elim (Bool-cases (is_before (compare_address op.addr x.addr))) [
  | inl before ↦ rw before (p, h)
  | inr later ↦ rw later (h.0, insert_op-All P op xs p h.1)
]

pub sort_ops-All : (P : TxOp → Type 0) (ops : List TxOp) → All P ops → All P (sort_ops ops)
unfolding sort_ops
sort_ops-All P [] h = tt
sort_ops-All P (op ∷ ops) h = insert_op-All P op (sort_ops ops) h.0 (sort_ops-All P ops h.1)

pub before_iff :
    (a b : TxOp)
    → HasAddress a
    → HasAddress b
    → is_before (compare_address a.addr b.addr) ≡ ltb (key a) (key b)
before_iff a b ha hb = rw (compare_address-key a.addr b.addr ha hb) (ground arith)

insert_op-After :
    (z : ℕ) (op : TxOp) (xs : List TxOp)
    → HasAddress op
    → All HasAddress xs
    → z ≤ key op
    → After z xs
    → After z (insert_op op xs)
unfolding insert_op
insert_op-After z op [] ho hx hz h = (hz, tt)
insert_op-After z op (x ∷ xs) ho hx hz h = elim (Bool-cases (ltb (key op) (key x))) [
  | inl before ↦ rw (before_iff op x ho hx.0, before) (hz, (ground arith, h.1))
  | inr later ↦
      rw (before_iff op x ho hx.0, later)
        (h.0, insert_op-After (key x) op xs ho hx.1 (ground arith) h.1)
]

pub sort_ops-After : (ops : List TxOp) → All HasAddress ops → After 0 (sort_ops ops)
unfolding sort_ops
sort_ops-After [] h = tt
sort_ops-After (op ∷ ops) h =
    insert_op-After 0 op (sort_ops ops) h.0 (sort_ops-All HasAddress ops h.1) (omega arith)
      (sort_ops-After ops h.1)

-- The addresses go up from one operation to the next.
abbrev pub AscendsFrom : TxOp → List TxOp → Type 0
AscendsFrom op [] = Unit
AscendsFrom op (x ∷ xs) = (address_key op.addr < address_key x.addr) × AscendsFrom x xs

abbrev pub Ascends : List TxOp → Type 0
Ascends [] = Unit
Ascends (op ∷ ops) = AscendsFrom op ops

pub equal_iff :
    (a b : TxOp)
    → HasAddress a
    → HasAddress b
    → is_equal (compare_address a.addr b.addr) ≡ (key a == key b)
equal_iff a b ha hb = rw (compare_address-key a.addr b.addr ha hb) (ground arith)

distinct-AscendsFrom :
    (op : TxOp) (xs : List TxOp)
    → HasAddress op
    → All HasAddress xs
    → After (key op) xs
    → has_duplicate_after op xs ≡ false
    → AscendsFrom op xs
unfolding has_duplicate_after
distinct-AscendsFrom op [] ho hx h g = tt
distinct-AscendsFrom op (x ∷ xs) ho hx h g =
    let differ : (key op == key x) ≡ false = ground (arith, equal_iff op x ho hx.0, g) in
    let further : has_duplicate_after x xs ≡ false = ground (arith, g) in
    (ground (arith, differ, h.0), distinct-AscendsFrom x xs hx.0 hx.1 h.1 further)

pub distinct-Ascends :
    (xs : List TxOp) → All HasAddress xs → After 0 xs → has_duplicate xs ≡ false → Ascends xs
unfolding has_duplicate
distinct-Ascends [] hx h g = tt
distinct-Ascends (op ∷ xs) hx h g = distinct-AscendsFrom op xs hx.0 hx.1 h.1 g
