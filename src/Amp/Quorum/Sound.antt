-- ===== src/Amp/Quorum/Sound.antt =====
-- What VerifyCoSignatureQuorum accepts: distinct declared signers, each with a signature that verifies,
-- and as many as the quorum.
use amp_sdk.Base.{
  ℕ, zero, suc, ◌≤◌, ◌≡◌, ◌⊎◌, inl, inr, refl, sym, ap, ◌∙◌, subst, arith, Bool, true, false, ◌||◌,
}
use amp_sdk.Base.{
  List, [], ◌∷◌, ◌++◌, All, All-map, Option, none, some, length, ltb, Bool-cases, Option-cases,
}
use amp_sdk.Base.Int.{ℤ, pos, negsuc}
use amp_sdk.Tag.Uid.{Uid}
use amp_sdk.Tag.Uid.{same_uid}
use amp_sdk.Tag.UidMap.{same_uid_iff, same_uid-swap}
use amp_sdk.Amp.Quorum.{
  CoSignature, has_uid, is_empty, quorum_size, enough, find_key, collect, verify_quorum,
}
use amp_sdk.Amp.Quorum.Steps.{
  collect-end, collect-absent, collect-unnamed, collect-undeclared, collect-before, collect-refused,
  collect-counted,
}

abbrev pub Distinct : List Uid → Type 0
Distinct [] = Unit
Distinct (x ∷ xs) = (has_uid x xs ≡ false) × Distinct xs

pub has_uid-snoc :
    (id y : Uid) (xs : List Uid) → has_uid id (xs ++ y ∷ []) ≡ (has_uid id xs || same_uid y id)
unfolding has_uid
has_uid-snoc id y [] = ground arith
has_uid-snoc id y (x ∷ xs) = rw (has_uid-snoc id y xs) (ground arith)

pub snoc-Distinct :
    (xs : List Uid) (y : Uid) → Distinct xs → has_uid y xs ≡ false → Distinct (xs ++ y ∷ [])
unfolding has_uid
snoc-Distinct [] y d h = (refl, tt)
snoc-Distinct (x ∷ xs) y d h = (
  has_uid-snoc x y xs ∙ ground (arith, same_uid-swap x y, d.0),
  snoc-Distinct xs y d.1 (ground arith),
)

has_uid-All : (xs : List Uid) → All (λ id. has_uid id xs ≡ true) xs
unfolding has_uid
has_uid-All [] = tt
has_uid-All (x ∷ xs) = (
  ground (arith, (same_uid_iff x x).1 refl),
  All-map xs (λ id h. ground (arith, h)) (has_uid-All xs),
)

module _ {K : Type 0} (verify : K → List ℕ → List ℕ → Bool) (keys : List (Uid × K))
    (digest : List ℕ) where
  -- Among the signatures there is one that names the signer, is not empty, and verifies by the
  -- signer's declared key.
  abbrev pub HasSigned : List (Option CoSignature) → Uid → Type 0
  HasSigned [] id = ⊥
  HasSigned (none ∷ rest) id = HasSigned rest id
  HasSigned (some c ∷ rest) id =
      ((key : K) × (c.member_tag ≡ some id)
        × (is_empty c.signature ≡ false)
        × (find_key id keys ≡ some key)
        × (verify key c.signature digest ≡ true))
      ⊎ HasSigned rest id

  -- Of a result: distinct signers, those before it or signed.
  abbrev IsCollected : List Uid → List (Option CoSignature) → Option (List Uid) → Type 0
  IsCollected verified rest none = Unit
  IsCollected verified rest (some ids) =
      Distinct ids × All (λ id. (has_uid id verified ≡ true) ⊎ HasSigned rest id) ids

  skip-IsCollected :
      (verified : List Uid) (c : CoSignature) (rest : List (Option CoSignature))
      (o : Option (List Uid))
      → IsCollected verified rest o
      → IsCollected verified (some c ∷ rest) o
  skip-IsCollected verified c rest none h = tt
  skip-IsCollected verified c rest (some ids) (d, h) = (
    d,
    All-map ids (λ id side. elim side [ inl old ↦ inl old | inr signed ↦ inr (inr signed) ]) h,
  )

  count-IsCollected :
      (verified : List Uid) (c : CoSignature) (rest : List (Option CoSignature)) (id : Uid)
      (key : K) (o : Option (List Uid))
      → c.member_tag ≡ some id
      → is_empty c.signature ≡ false
      → find_key id keys ≡ some key
      → verify key c.signature digest ≡ true
      → IsCollected (verified ++ id ∷ []) rest o
      → IsCollected verified (some c ∷ rest) o
  count-IsCollected verified c rest id key none named nonempty declared valid h = tt
  count-IsCollected verified c rest id key (some ids) named nonempty declared valid (d, h) = (
    d,
    All-map ids (λ x side. elim side [ inl old ↦ place x old | inr signed ↦ inr (inr signed) ]) h,
  )
    where
      place :
          (x : Uid)
          → has_uid x (verified ++ id ∷ []) ≡ true
          → (has_uid x verified ≡ true) ⊎ HasSigned (some c ∷ rest) x
      place x old = elim (Bool-cases (has_uid x verified)) [
        | inl before ↦ inl before
        | inr fresh ↦
            let same : id ≡ x =
              (same_uid_iff id x).0 (ground (arith, has_uid-snoc x id verified)) in
            inr (
              inl (
                key,
                named ∙ ap some same,
                nonempty,
                subst (λ y. find_key y keys ≡ some key) same declared,
                valid,
              ))
      ]

  absent-IsCollected :
      (verified : List Uid) (rest : List (Option CoSignature)) (o : Option (List Uid))
      → IsCollected verified rest o
      → IsCollected verified (none ∷ rest) o
  absent-IsCollected verified rest none h = tt
  absent-IsCollected verified rest (some ids) h = h

  collect-IsCollected :
      (verified : List Uid) (cosigs : List (Option CoSignature))
      → Distinct verified
      → IsCollected verified cosigs (collect verify keys digest verified cosigs)
  collect-IsCollected verified [] d =
      subst (IsCollected verified []) (sym (collect-end verify keys digest verified))
        (d, All-map verified (λ id h. inl h) (has_uid-All verified))
  collect-IsCollected verified (none ∷ rest) d =
      subst (IsCollected verified (none ∷ rest))
        (sym (collect-absent verify keys digest verified rest))
        (absent-IsCollected verified rest _ (collect-IsCollected verified rest d))
  collect-IsCollected verified (some c ∷ rest) d =
      let skipped = skip-IsCollected verified c rest _ (collect-IsCollected verified rest d) in
      elim (Option-cases c.member_tag) [
        | inl unnamed ↦ by_step (collect-unnamed verify keys digest verified c rest unnamed) skipped
        | inr (id, named) ↦ elim (Option-cases (find_key id keys)) [
          | inl undeclared ↦
              by_step (collect-undeclared verify keys digest verified c rest id named undeclared) tt
          | inr (key, declared) ↦ elim (Bool-cases (has_uid id verified)) [
            | inl before ↦
                by_step
                  (collect-before verify keys digest verified c rest id named key declared before)
                  skipped
            | inr fresh ↦ elim (Bool-cases (is_empty c.signature)) [
              | inl blank ↦
                  by_step
                    (collect-refused verify keys digest verified c rest id named key declared fresh
                      (inl blank))
                    tt
              | inr filled ↦ elim (Bool-cases (verify key c.signature digest)) [
                | inr forged ↦
                    by_step
                      (collect-refused verify keys digest verified c rest id named key declared
                        fresh (inr forged))
                      tt
                | inl valid ↦
                    by_step
                      (collect-counted verify keys digest verified c rest id named key declared
                        fresh filled valid)
                      (count-IsCollected verified c rest id key _ named filled declared valid (
                        collect-IsCollected (verified ++ id ∷ []) rest
                          (snoc-Distinct verified id d fresh)))
              ]
            ]
          ]
        ]
      ]
    where
      by_step :
          {o : Option (List Uid)}
          → collect verify keys digest verified (some c ∷ rest) ≡ o
          → IsCollected verified (some c ∷ rest) o
          → IsCollected verified
              (some c ∷ rest)
              (collect verify keys digest verified (some c ∷ rest))
      by_step e h = subst (IsCollected verified (some c ∷ rest)) (sym e) h

  -- What an answer promises.
  abbrev pub IsQuorum : ℤ → List (Option CoSignature) → Option (List Uid) → Type 0
  IsQuorum required cosigs none = Unit
  IsQuorum required cosigs (some ids) =
      Distinct ids
      × All (HasSigned cosigs) ids
      × (quorum_size required (length keys) ≤ length ids)
      × (1 ≤ length ids)

  quorum_size-pos : (required : ℤ) (n : ℕ) → 1 ≤ quorum_size required n
  unfolding quorum_size
  quorum_size-pos (negsuc m) n = ground arith
  quorum_size-pos (pos zero) n = ground arith
  quorum_size-pos (pos (suc m)) n = omega arith

  nobody : false ≡ true → ⊥
  nobody e = cc

  enough-IsQuorum :
      (required : ℤ) (cosigs : List (Option CoSignature)) (o : Option (List Uid))
      → IsCollected [] cosigs o
      → IsQuorum required cosigs (enough (quorum_size required (length keys)) o)
  unfolding has_uid
  enough-IsQuorum required cosigs none h = tt
  enough-IsQuorum required cosigs (some ids) (d, h) =
      elim (Bool-cases (ltb (length ids) (quorum_size required (length keys)))) [
        | inl few ↦ rw few tt
        | inr many ↦
            let size : quorum_size required (length keys) ≤ length ids = ground arith in
            rw many (
              d,
              All-map ids
                  (λ id side. elim side [ inl old ↦ absurd (nobody old) | inr signed ↦ signed ]) h,
              size,
              omega (arith, quorum_size-pos required (length keys)),
            )
      ]

  -- VerifyCoSignatureQuorum accepts distinct signers only, each of whom signed with a declared key that
  -- verifies the signature, as many as the quorum asks for, and never nobody.
  pub verify_quorum-IsQuorum :
      (required : ℤ) (cosigs : List (Option CoSignature))
      → IsQuorum required cosigs (verify_quorum verify cosigs digest keys required)
  unfolding verify_quorum
  verify_quorum-IsQuorum required cosigs =
      enough-IsQuorum required cosigs _ (collect-IsCollected [] cosigs tt)
