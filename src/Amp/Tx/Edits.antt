-- ===== src/Amp/Tx/Edits.antt =====
-- reconstructEditIDs: the edit that a value header carries, and the envelope's where it carries none.
use amp_sdk.Base.{ℕ, ◌+◌, ◌^◌, ◌<◌, ◌≡◌, sym, ap, ◌∙◌, arith, bit_and, false, ◌||◌}
use amp_sdk.Base.{
  List, [], ◌∷◌, ◌++◌, length, length-append, get_or, get_or-append, take, drop, drop-append,
  drop_step, ltb, leb, ◌==◌,
}
use amp_sdk.Base.Bytes.{put_be, be_value, length-put_be, be_value-put_be}
use amp_sdk.Tag.Uid.{Uid, IsUid, u64}
use amp_sdk.Tag.Address.{put_uid, uid_at}
use amp_sdk.Amp.Ops.{TxOp}
use amp_sdk.Amp.Tx.{edit_of}

first_word : (v : ℕ) (rest : List ℕ) → v < 2 ^ 64 → be_value (take 8 (put_be 8 v ++ rest)) ≡ v
unfolding put_be
first_word v rest h = be_value-put_be 8 v h

uid_at-put_uid :
    (src : List ℕ) (p : ℕ) (id : Uid) (rest : List ℕ)
    → IsUid id
    → drop p src ≡ put_uid id rest
    → uid_at src p ≡ id
unfolding uid_at put_uid
uid_at-put_uid src p id rest h e =
    let second : drop (p + 8) src ≡ put_be 8 id.w1 ++ rest =
      ap (λ t. drop (p + t) src) (sym (length-put_be 8 id.w0))
      ∙ drop_step p src (put_be 8 id.w0) _ e in
    let high : be_value (take 8 (drop p src)) ≡ id.w0 =
      ap (λ t. be_value (take 8 t)) e ∙ first_word id.w0 _ h.0 in
    let low : be_value (take 8 (drop (p + 8) src)) ≡ id.w1 =
      ap (λ t. be_value (take 8 t)) second ∙ first_word id.w1 _ h.1 in
    λ i. record { w0 = high i; w1 = low i }

-- Sixteen bytes behind a UID.
behind_uid :
    (src : List ℕ) (p : ℕ) (id : Uid) (rest : List ℕ)
    → drop p src ≡ put_uid id rest
    → drop (p + 16) src ≡ rest
unfolding put_uid
behind_uid src p id rest e =
    let n0 = length-put_be 8 id.w0 in
    let n1 = length-put_be 8 id.w1 in
    let size : p + 16 ≡ p + length (put_be 8 id.w0) + length (put_be 8 id.w1) =
      omega (arith, n0, n1) in
    ap (λ t. drop t src) size
    ∙ drop_step (p + length (put_be 8 id.w0)) src (put_be 8 id.w1) rest
        (drop_step p src (put_be 8 id.w0) (put_be 8 id.w1 ++ rest) e)

put_uid-size : (id : Uid) (rest : List ℕ) → length (put_uid id rest) ≡ 16 + length rest
unfolding put_uid
put_uid-size id rest = omega (
  arith,
  length-put_be 8 id.w0,
  length-put_be 8 id.w1,
  length-append (put_be 8 id.w0) (put_be 8 id.w1 ++ rest),
  length-append (put_be 8 id.w1) rest,
)

-- An operation whose value header carries the author and the authoring transaction is given that
-- transaction as its edit, whatever the envelope says.
pub edit_of-carried :
    (tx_id author edit : Uid) (pre content post : List ℕ) (op : TxOp)
    → IsUid edit
    → op.data_ofs ≡ length pre
    → op.data_len ≡ 33 + length content
    → length pre + 33 + length content + length post < 2 ^ 63
    → edit_of tx_id (pre ++ 3 ∷ put_uid author (put_uid edit (content ++ post))) op ≡ edit
unfolding edit_of
edit_of-carried tx_id author edit pre content post op valid ho hl small =
    let store : List ℕ = pre ++ 3 ∷ put_uid author (put_uid edit (content ++ post)) in
    let n : ℕ = length pre in
    let size : length store ≡ n + 33 + length content + length post = omega (
      arith,
      length-append pre (3 ∷ put_uid author (put_uid edit (content ++ post))),
      put_uid-size author (put_uid edit (content ++ post)),
      put_uid-size edit (content ++ post),
      length-append content post,
    ) in
    let header : get_or store op.data_ofs 0 ≡ 3 =
      ap (λ t. get_or store t 0) ho ∙ get_or-append pre 3 _ 0 in
    let first : u64 (op.data_ofs + 1) ≡ n + 1 = omega arith in
    let ofs : u64 (n + 1 + 16) ≡ n + 17 = omega arith in
    let stop : u64 (n + 17 + 16) ≡ n + 33 = omega arith in
    let some_value : (op.data_len == 0 || leb (length store) op.data_ofs) ≡ false =
      ground (arith, size) in
    let room : (ltb (u64 (op.data_ofs + op.data_len)) (n + 33) || ltb (length store) (n + 33))
        ≡ false =
      ground (arith, size) in
    let carried : drop (n + 17) store ≡ put_uid edit (content ++ post) =
      let e : n + 17 ≡ n + 1 + 16 = omega arith in
      ap (λ t. drop t store) e
      ∙ behind_uid store (n + 1) author (put_uid edit (content ++ post))
          (drop_step n store (3 ∷ []) _ (drop-append pre _)) in
    rw (header, first, ofs, stop, some_value, room)
      (uid_at-put_uid store (n + 17) edit (content ++ post) valid carried)

-- An operation without a value, or whose header has no flag for an authoring transaction, is given the
-- envelope's.
pub edit_of-envelope :
    (tx_id : Uid) (store : List ℕ) (op : TxOp)
    → bit_and (get_or store op.data_ofs 0) 2 ≡ 0
    → edit_of tx_id store op ≡ tx_id
unfolding edit_of
edit_of-envelope tx_id store op h = ground (arith, h)
