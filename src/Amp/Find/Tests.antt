-- ===== src/Amp/Find/Tests.antt =====
-- The theorems on values by their elements at concrete inputs.
use amp_sdk.Base.{ℕ, ◌≡◌, ◌^◌, ◌<◌, refl, arith, true, false, [], ◌∷◌}
use amp_sdk.Tag.Uid.{Uid, same_uid, is_wildcard}
use amp_sdk.Tag.Address.{ElementId, Address, compare_element_id}
use amp_sdk.Amp.Ops.{TxOp}
use amp_sdk.Amp.Tx.{TxMsg}
use amp_sdk.Amp.Tx.Result.{fail}
use amp_sdk.Amp.Tx.TxError.{attr_not_found}
use amp_sdk.Amp.Tx.Sorting.{HasAddress}
use amp_sdk.Amp.Find.{load_value, compare_at}
use amp_sdk.Amp.Find.Loads.{load_value-first}

abbrev uid : ℕ → Uid
uid n = record { w0 = 0; w1 = n }

abbrev element : ℕ → ElementId
element n = record { node_id = uid 1; attr_id = uid 2; item_id = uid n }

abbrev op : ℕ → TxOp
op n = record {
  addr = record { element_id = element n; edit_id = uid 77 };
  flags = 4;
  logical = 0;
  data_ofs = 0;
  data_len = 2;
}

-- A normalized transaction with values for the items 3 and 4.
abbrev two_items : TxMsg
two_items = record {
  tx_id = uid 77;
  from_id = uid 5;
  ops = op 3 ∷ op 4 ∷ [];
  data_store = 0 ∷ 9 ∷ [];
  normalized = true;
}

abbrev wanted : Address
wanted = record { element_id = element 4; edit_id = uid 77 }

tame : is_wildcard (uid 4) ≡ false
unfolding is_wildcard
tame = refl

is_op : (n : ℕ) → n < 2 ^ 64 → HasAddress (op n)
is_op n h = (
  ((omega arith, omega arith), (omega arith, omega arith), (omega arith, omega arith)),
  (omega arith, omega arith),
)

-- LoadValue has no answer for the item 4.
load_value-first_example : (load_value two_items wanted).0 ≡ fail attr_not_found
unfolding compare_at compare_element_id
load_value-first_example =
    load_value-first two_items (op 3) (op 4 ∷ []) wanted refl refl (omega arith, tt)
      (is_op 3 (omega arith), (is_op 4 (omega arith), tt))
      ((omega arith, omega arith), (omega arith, omega arith), (omega arith, omega arith)) tame

elsewhere : same_uid (uid 3) (uid 9) ≡ false
unfolding same_uid
elsewhere = refl
