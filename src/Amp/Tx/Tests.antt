-- ===== src/Amp/Tx/Tests.antt =====
-- The theorems on transactions at concrete inputs.
use amp_sdk.Base.{ℕ, ◌≡◌, refl, arith, true, false, List, [], ◌∷◌}
use amp_sdk.Tag.Uid.{Uid, is_nil}
use amp_sdk.Amp.Ops.{TxOp}
use amp_sdk.Amp.Tx.{TxMsg, edit_of, normalize}
use amp_sdk.Amp.Tx.Edits.{edit_of-envelope}
use amp_sdk.Amp.Tx.Order.{IsNormal, normalize-IsNormal}

abbrev uid : ℕ → Uid
uid n = record { w0 = 0; w1 = n }

abbrev op : ℕ → ℕ → ℕ → TxOp
op n ofs len = record {
  addr = record {
    element_id = record { node_id = uid 1; attr_id = uid 2; item_id = uid n };
    edit_id = uid 77;
  };
  flags = 1;
  logical = 0;
  data_ofs = ofs;
  data_len = len;
}

abbrev tx : List TxOp → TxMsg
tx ops = record {
  tx_id = uid 77;
  from_id = uid 5;
  ops = ops;
  data_store = 0 ∷ 1 ∷ 2 ∷ 3 ∷ [];
  normalized = false;
}

edit_of-envelope_example : edit_of (uid 77) (1 ∷ 2 ∷ []) (op 3 0 2) ≡ uid 77
edit_of-envelope_example = edit_of-envelope (uid 77) (1 ∷ 2 ∷ []) (op 3 0 2) refl

normalize-IsNormal_example :
    IsNormal (tx (op 4 0 2 ∷ op 3 2 2 ∷ [])) (normalize true (tx (op 4 0 2 ∷ op 3 2 2 ∷ [])))
normalize-IsNormal_example = normalize-IsNormal (tx (op 4 0 2 ∷ op 3 2 2 ∷ [])) (omega arith)

edit_set : is_nil (uid 77) ≡ false
unfolding is_nil
edit_set = refl

abbrev sealed : List ℕ
sealed = 0 ∷ 0 ∷ 0 ∷ 0 ∷ 0 ∷ 0 ∷ 0 ∷ 0 ∷ 0 ∷ 0 ∷ 0 ∷ 0 ∷ 0 ∷ 2 ∷ 0 ∷ 0 ∷ 9 ∷ 8 ∷ 7 ∷ []
