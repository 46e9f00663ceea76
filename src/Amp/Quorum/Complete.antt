-- ===== src/Amp/Quorum/Complete.antt =====
-- Enough valid signatures of distinct declared signers are accepted, and nobody is when none is declared.
use amp_sdk.Base.{ℕ, ◌≡◌, sym, ap, ◌∙◌, Bool, true, false}
use amp_sdk.Base.{
  List, [], ◌∷◌, ◌++◌, append-nil, append_assoc, none, some, map, length, ltb, if◌then◌else◌,
}
use amp_sdk.Base.Int.{ℤ}
use amp_sdk.Tag.Uid.{Uid}
use amp_sdk.Amp.Quorum.{
  CoSignature, has_uid, is_empty, quorum_size, enough, find_key, collect, verify_quorum,
}
use amp_sdk.Amp.Quorum.Steps.{collect-counted}

module _ {K : Type 0} (verify : K → List ℕ → List ℕ → Bool) (keys : List (Uid × K))
    (digest : List ℕ) where
  -- Valid signatures, each by a declared signer who is not among those before it; the list of their
  -- signers.
  abbrev pub AreValid : List Uid → List CoSignature → List Uid → Type 0
  AreValid before [] [] = Unit
  AreValid before [] (id ∷ ids) = ⊥
  AreValid before (c ∷ cs) [] = ⊥
  AreValid before (c ∷ cs) (id ∷ ids) =
      (key : K) × (c.member_tag ≡ some id)
      × (find_key id keys ≡ some key)
      × (has_uid id before ≡ false)
      × (is_empty c.signature ≡ false)
      × (verify key c.signature digest ≡ true)
      × AreValid (before ++ id ∷ []) cs ids

  collect-valid :
      (before : List Uid) (cs : List CoSignature) (ids : List Uid)
      → AreValid before cs ids
      → collect verify keys digest before (map (λ c. some c) cs) ≡ some (before ++ ids)
  collect-valid before [] [] h = unfold collect in ap some (sym (append-nil before))
  collect-valid before [] (id ∷ ids) h = absurd h
  collect-valid before (c ∷ cs) [] h = absurd h
  collect-valid before (c ∷ cs) (id ∷ ids) (key, named, declared, fresh, filled, valid, h) =
      collect-counted verify keys digest before c (map (λ c. some c) cs) id named key declared fresh
        filled valid
      ∙ collect-valid (before ++ id ∷ []) cs ids h
      ∙ ap some (append_assoc before (id ∷ []) ids)

  -- Where every signature is valid and the signers are distinct, the quorum alone decides, and the answer
  -- lists the signers in order.
  pub verify_quorum-valid :
      (cs : List CoSignature) (ids : List Uid) (required : ℤ)
      → AreValid [] cs ids
      → verify_quorum verify (map (λ c. some c) cs) digest keys required
        ≡ (if ltb (length ids) (quorum_size required (length keys)) then none else some ids)
  unfolding verify_quorum
  verify_quorum-valid cs ids required h =
      ap (enough (quorum_size required (length keys))) (collect-valid [] cs ids h)
