-- ===== src/Tag/UidMap.antt =====
-- Go's `map[tag.UID]V` as an association list, with the laws of its operations. A map is ranged over in
-- the order of the list.
use amp_sdk.Base.{
  ◌≡◌, ◌↔◌, inl, inr, refl, sym, ap, ◌∙◌, arith, Bool, true, false, ◌&&◌, List, [], ◌∷◌, Option,
  none, some, ◌==◌, if◌then◌else◌, All, Bool-cases,
}
use amp_sdk.Tag.Uid.{Uid, same_uid}

pub same_uid_iff : (a b : Uid) → (same_uid a b ≡ true) ↔ (a ≡ b)
unfolding same_uid
same_uid_iff a b = (λ h. words h, λ e. back e)
  where
    words : (a.w0 == b.w0 && a.w1 == b.w1) ≡ true → a ≡ b
    words h =
        let e0 : a.w0 ≡ b.w0 = ground arith in
        let e1 : a.w1 ≡ b.w1 = ground arith in λ i. record { w0 = e0 i; w1 = e1 i }

    back : a ≡ b → (a.w0 == b.w0 && a.w1 == b.w1) ≡ true
    back e =
        let e0 : a.w0 ≡ b.w0 = ap (λ x. x.w0) e in
        let e1 : a.w1 ≡ b.w1 = ap (λ x. x.w1) e in ground arith

pub same_uid-swap : (a b : Uid) → same_uid a b ≡ same_uid b a
unfolding same_uid
same_uid-swap a b = ground arith

pub same_uid_refl : (a : Uid) → same_uid a a ≡ true
same_uid_refl a = (same_uid_iff a a).1 refl

module _ {V : Type 0} where
  -- `m[k]`
  unfoldable pub find : Uid → List (Uid × V) → Option V
  find k [] = none
  find k ((j, v) ∷ m) = if same_uid j k then some v else find k m

  -- `delete(m, k)`
  unfoldable pub remove : Uid → List (Uid × V) → List (Uid × V)
  remove k [] = []
  remove k ((j, v) ∷ m) = let rest = remove k m in if same_uid j k then rest else (j, v) ∷ rest

  -- `m[k] = v`
  unfoldable pub put : Uid → V → List (Uid × V) → List (Uid × V)
  put k v m = (k, v) ∷ remove k m

  abbrev pub is_some : Option V → Bool
  is_some none = false
  is_some (some v) = true

  -- `_, ok := m[k]`
  unfoldable pub holds : Uid → List (Uid × V) → Bool
  holds k m = is_some (find k m)

  pub find-remove :
      (j k : Uid) (m : List (Uid × V))
      → find j (remove k m) ≡ (if same_uid k j then none else find j m)
  unfolding find remove
  find-remove j k [] = ground arith
  find-remove j k ((i, v) ∷ m) = elim (Bool-cases (same_uid i k)) [
    | inl same ↦
        let e : i ≡ k = (same_uid_iff i k).0 same in rw (same, find-remove j k m, e) (ground arith)
    | inr other ↦ elim (Bool-cases (same_uid i j)) [
      | inl at ↦
          let e : i ≡ j = (same_uid_iff i j).0 at in
          let h : same_uid k j ≡ false =
            same_uid-swap k j ∙ ap (λ x. same_uid x k) (sym e) ∙ other in
          rw (other, at, h) refl
      | inr away ↦ rw (other, away, find-remove j k m) refl
    ]
  ]

  pub find-put :
      (j k : Uid) (v : V) (m : List (Uid × V))
      → find j (put k v m) ≡ (if same_uid k j then some v else find j m)
  unfolding find put
  find-put j k v m = rw (find-remove j k m) (ground arith)

  -- No key occurs twice.
  abbrev pub DistinctKeys : List (Uid × V) → Type 0
  DistinctKeys [] = Unit
  DistinctKeys ((k, v) ∷ m) = (find k m ≡ none) × DistinctKeys m

  pub remove-DistinctKeys :
      (k : Uid) (m : List (Uid × V)) → DistinctKeys m → DistinctKeys (remove k m)
  unfolding remove
  remove-DistinctKeys k [] d = tt
  remove-DistinctKeys k ((j, v) ∷ m) (fresh, d) = elim (Bool-cases (same_uid j k)) [
    | inl same ↦ rw same (remove-DistinctKeys k m d)
    | inr other ↦ rw other (find-remove j k m ∙ rw fresh (ground arith), remove-DistinctKeys k m d)
  ]

  pub put-DistinctKeys :
      (k : Uid) (v : V) (m : List (Uid × V)) → DistinctKeys m → DistinctKeys (put k v m)
  unfolding put
  put-DistinctKeys k v m d =
      (find-remove k k m ∙ rw (same_uid_refl k) refl, remove-DistinctKeys k m d)

  pub remove-All :
      (P : Uid × V → Type 0) (k : Uid) (m : List (Uid × V)) → All P m → All P (remove k m)
  unfolding remove
  remove-All P k [] h = tt
  remove-All P k ((j, v) ∷ m) (p, h) = elim (Bool-cases (same_uid j k)) [
    | inl same ↦ rw same (remove-All P k m h)
    | inr other ↦ rw other (p, remove-All P k m h)
  ]

  -- The value of the first of two maps that has the key.
  abbrev pub or_else : Option V → Option V → Option V
  or_else none other = other
  or_else (some v) other = some v

  some-none : {v : V} → some v ≡ none → ⊥
  some-none e = cc

  -- A key that is not found is no key of an entry.
  pub find-cons-none :
      (k j : Uid) (v : V) (m : List (Uid × V))
      → find k ((j, v) ∷ m) ≡ none
      → (same_uid j k ≡ false) × (find k m ≡ none)
  unfolding find
  find-cons-none k j v m h = elim (Bool-cases (same_uid j k)) [
    | inl same ↦ let e : some v ≡ none = (rw same refl) ∙ h in absurd (some-none e)
    | inr other ↦ let e : find k m ≡ find k ((j, v) ∷ m) = rw other refl in (other, e ∙ h)
  ]
