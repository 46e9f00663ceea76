-- ===== src/Amp/Founders/Order.antt =====
-- bytes.Compare orders byte strings totally, so that two insertions commute.
use amp_sdk.Base.{ℕ, ◌≡◌, refl, sym, ap, ap₂, arith}
use amp_sdk.Base.{Bool, true, false, List, [], ◌∷◌, ltb, Bool-cases, inl, inr, if◌then◌else◌}
use amp_sdk.Base.Bytes.{bytes_compare}
use amp_sdk.Tag.Rank.{is_before}
use amp_sdk.Amp.Founders.{insert_entry}

abbrev before : List ℕ → List ℕ → Bool
before a b = is_before (bytes_compare a b)

before_cons :
    (x y : ℕ) (a b : List ℕ)
    → before (x ∷ a) (y ∷ b) ≡ (if ltb x y then true else if ltb y x then false else before a b)
unfolding bytes_compare
before_cons x y a b = ground arith

before_trans : (a b c : List ℕ) → before a b ≡ true → before b c ≡ true → before a c ≡ true
unfolding bytes_compare
before_trans a [] [] h k = absurd (grind arith)
before_trans a (y ∷ b) [] h k = absurd (grind arith)
before_trans [] b (z ∷ c) h k = refl
before_trans (x ∷ a) [] (z ∷ c) h k = absurd (grind arith)
before_trans (x ∷ a) (y ∷ b) (z ∷ c) h k = ground (arith, before_trans a b c)

before_asym : (a b : List ℕ) → before a b ≡ true → before b a ≡ false
unfolding bytes_compare
before_asym [] [] h = refl
before_asym [] (y ∷ b) h = refl
before_asym (x ∷ a) [] h = absurd (grind arith)
before_asym (x ∷ a) (y ∷ b) h = ground (arith, before_asym a b)

before_total : (a b : List ℕ) → before a b ≡ false → before b a ≡ false → a ≡ b
unfolding bytes_compare
before_total [] [] h k = refl
before_total [] (y ∷ b) h k = absurd (grind arith)
before_total (x ∷ a) [] h k = absurd (grind arith)
before_total (x ∷ a) (y ∷ b) h k =
    let first : x ≡ y = ground arith in
    let h2 : before a b ≡ false = ground arith in
    let k2 : before b a ≡ false = ground arith in ap₂ ◌∷◌ first (before_total a b h2 k2)

abbrev then_insert : List ℕ → List ℕ → List (List ℕ) → List (List ℕ)
then_insert a b xs = insert_entry a (insert_entry b xs)

-- Where a sorts before b, the other order of insertion is the same.
commute_before :
    (a b : List ℕ) (xs : List (List ℕ))
    → before a b ≡ true
    → then_insert a b xs ≡ then_insert b a xs
unfolding insert_entry
commute_before a b [] h = rw (h, before_asym a b h) refl
commute_before a b (x ∷ xs) h =
    let swapped = before_asym a b h in
    elim (Bool-cases (before b x)) [
      | inl b_first ↦ rw (b_first, h, before_trans a b x h b_first, swapped, b_first) refl
      | inr b_later ↦ elim (Bool-cases (before a x)) [
        | inl a_first ↦ rw (b_later, a_first, swapped, b_later) refl
        | inr a_later ↦ rw (b_later, a_later, b_later) (ap (◌∷◌ x) (commute_before a b xs h))
      ]
    ]

pub insert_entry_comm :
    (a b : List ℕ) (xs : List (List ℕ))
    → insert_entry a (insert_entry b xs) ≡ insert_entry b (insert_entry a xs)
insert_entry_comm a b xs = elim (Bool-cases (before a b)) [
  | inl a_first ↦ commute_before a b xs a_first
  | inr a_later ↦ elim (Bool-cases (before b a)) [
    | inl b_first ↦ sym (commute_before b a xs b_first)
    | inr b_later ↦ rw (before_total a b a_later b_later) refl
  ]
]
