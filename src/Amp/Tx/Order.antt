-- ===== src/Amp/Tx/Order.antt =====
-- Normalize: what it accepts is strictly ascending by address, with every value inside the store.
use amp_sdk.Base.{ℕ, ◌+◌, ◌^◌, ◌≤◌, ◌<◌, ◌≡◌, inl, inr, refl, ap, ◌∙◌, arith, true, false, ◌||◌}
use amp_sdk.Base.{
  List, [], ◌∷◌, All, Option, none, some, length, ltb, ◌==◌, lt→ltb, Bool-cases, Option-cases,
}
use amp_sdk.Tag.Uid.{IsU64, u64, is_nil}
use amp_sdk.Amp.Ops.{TxOp}
use amp_sdk.Amp.Tx.{
  TxError, TxMsg, check_ops, insert_op, sort_ops, has_duplicate_after, has_duplicate, sorted_tx,
  normalize,
}
use mathlib.Core.List.{Perm}
use amp_sdk.Amp.Tx.Sorting.{
  key, HasAddress, sort_ops-Perm, sort_ops-All, before_iff, sort_ops-After, AscendsFrom, Ascends,
  equal_iff, distinct-Ascends,
}

-- An operation that Normalize lets through: its edit is set, and its value is inside the store, the sum
-- of offset and length being below 2 ^ 64.
abbrev pub IsInStore : ℕ → TxOp → Type 0
IsInStore store_len op = (is_nil op.addr.edit_id ≡ false) × (op.data_ofs + op.data_len ≤ store_len)

abbrev HasSpan : TxOp → Type 0
HasSpan op = IsU64 op.data_ofs × IsU64 op.data_len

check_ops-InStore :
    (store_len : ℕ) (ops : List TxOp)
    → store_len < 2 ^ 63
    → All HasSpan ops
    → check_ops store_len ops ≡ none
    → All (IsInStore store_len) ops
unfolding check_ops
check_ops-InStore store_len [] hs hv h = tt
check_ops-InStore store_len (op ∷ ops) hs hv h =
    let set_edit : is_nil op.addr.edit_id ≡ false = ground (arith, h) in
    let inside : op.data_ofs + op.data_len ≤ store_len = ground (arith, h, hv.0) in
    let further : check_ops store_len ops ≡ none = ground (arith, h) in
    ((set_edit, inside), check_ops-InStore store_len ops hs hv.1 further)

InStore-check_ops :
    (store_len : ℕ) (ops : List TxOp)
    → store_len < 2 ^ 63
    → All (IsInStore store_len) ops
    → check_ops store_len ops ≡ none
unfolding check_ops
InStore-check_ops store_len [] hs h = refl
InStore-check_ops store_len (op ∷ ops) hs h =
    let whole : u64 (op.data_ofs + op.data_len) ≡ op.data_ofs + op.data_len = omega (arith, h.0) in
    let inside : (ltb (op.data_ofs + op.data_len) op.data_ofs
          || ltb store_len (op.data_ofs + op.data_len))
        ≡ false =
      ground (arith, h.0) in
    rw (h.0.0, whole, inside) (InStore-check_ops store_len ops hs h.1)

-- A transaction in the ranges of its Go types.
abbrev pub IsTx : TxMsg → Type 0
IsTx tx = (length tx.data_store < 2 ^ 63) × All HasAddress tx.ops × All HasSpan tx.ops

-- What Normalize promises of the transaction that it accepts, against the one that it was given.
abbrev pub IsNormal : TxMsg → TxMsg × Option TxError → Type 0
IsNormal tx (out, some e) = Unit
IsNormal tx (out, none) =
    Ascends out.ops
    × Perm out.ops tx.ops
    × All (IsInStore (length tx.data_store)) out.ops
    × (out.normalized ≡ true)

sorted_tx-IsNormal :
    (tx : TxMsg)
    → IsTx tx
    → All (IsInStore (length tx.data_store)) tx.ops
    → IsNormal tx (sorted_tx tx)
unfolding sorted_tx
sorted_tx-IsNormal tx valid inside = elim (Bool-cases (has_duplicate (sort_ops tx.ops))) [
  | inl twice ↦ rw twice tt
  | inr once ↦ rw once (
    distinct-Ascends (sort_ops tx.ops) (sort_ops-All HasAddress tx.ops valid.1)
        (sort_ops-After tx.ops valid.1) once,
    sort_ops-Perm tx.ops,
    sort_ops-All (IsInStore (length tx.data_store)) tx.ops inside,
    refl,
  )
]

-- A forced Normalize that returns no error leaves the same operations in another order, their addresses
-- strictly ascending, so none twice, every edit set, and every value inside the store.
pub normalize-IsNormal : (tx : TxMsg) → IsTx tx → IsNormal tx (normalize true tx)
unfolding normalize
normalize-IsNormal tx valid = elim (Option-cases (check_ops (length tx.data_store) tx.ops)) [
  | inr (e, refused) ↦ rw refused tt
  | inl fine ↦ rw fine (
      sorted_tx-IsNormal tx valid
        (check_ops-InStore (length tx.data_store) tx.ops valid.0 valid.2 fine))
]

sort_ops-Ascends : (ops : List TxOp) → All HasAddress ops → Ascends ops → sort_ops ops ≡ ops
unfolding sort_ops insert_op
sort_ops-Ascends [] hv h = refl
sort_ops-Ascends (op ∷ []) hv h = refl
sort_ops-Ascends (op ∷ x ∷ xs) hv h =
    ap (insert_op op) (sort_ops-Ascends (x ∷ xs) hv.1 h.1)
    ∙ rw (before_iff op x hv.0 hv.1.0, lt→ltb (key op) (key x) h.0) refl

Ascends-distinct :
    (op : TxOp) (xs : List TxOp)
    → HasAddress op
    → All HasAddress xs
    → AscendsFrom op xs
    → has_duplicate_after op xs ≡ false
unfolding has_duplicate_after
Ascends-distinct op [] ho hx h = refl
Ascends-distinct op (x ∷ xs) ho hx h =
    let differ : (key op == key x) ≡ false = ground (arith, h.0) in
    rw (equal_iff op x ho hx.0, differ) (Ascends-distinct x xs hx.0 hx.1 h.1)

no_duplicate : (xs : List TxOp) → All HasAddress xs → Ascends xs → has_duplicate xs ≡ false
unfolding has_duplicate
no_duplicate [] hx h = refl
no_duplicate (op ∷ xs) hx h = Ascends-distinct op xs hx.0 hx.1 h

-- Operations that ascend already, with their edits set and their values inside the store, are accepted
-- as they are.
pub normalize_ascending :
    (tx : TxMsg)
    → IsTx tx
    → Ascends tx.ops
    → All (IsInStore (length tx.data_store)) tx.ops
    → normalize true tx ≡ (record tx { normalized = true }, none)
unfolding normalize sorted_tx
normalize_ascending tx valid h inside =
    rw
      (
        InStore-check_ops (length tx.data_store) tx.ops valid.0 inside,
        sort_ops-Ascends tx.ops valid.1 h,
        no_duplicate tx.ops valid.1 h,
      )
      refl
