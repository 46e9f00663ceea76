-- ===== src/Tag/Address/Step.antt =====
-- Incrementing and decrementing a UID in the bytes of an element key.
use amp_sdk.Base.{ℕ, zero, suc, ◌+◌, ◌-◌, ◌/◌, ◌%◌, ◌^◌, ◌<◌, ◌≡◌, sym, ap, ap₂, ◌∙◌, arith}
use amp_sdk.Base.{
  Bool, true, false, List, [], ◌∷◌, ◌++◌, length, length-append, get_or, set, ltb, if◌then◌else◌,
}
use amp_sdk.Base.{get_or-append, set-append, append_assoc, Bool-cases, inl, inr}
use amp_sdk.Base.Bytes.{put_be, put_be-suc, length-put_be}
use amp_sdk.Tag.Address.{increment_bytes, decrement_bytes}
use native.Mathlib.Nat.{pow-suc, one-le-pow}

module _ (pre post : List ℕ) where
  -- A word between the two parts, and its last byte.
  abbrev word : ℕ → ℕ → List ℕ
  word n v = pre ++ (put_be n v ++ post)

-- The last byte of the word, with what stands before it.
word-suc :
    (pre post : List ℕ) (n v : ℕ)
    → word pre post (suc n) v ≡ (pre ++ put_be n (v / 256)) ++ (v % 256) ∷ post
word-suc pre post n v =
    ap (λ (t : List ℕ). pre ++ (t ++ post)) (put_be-suc n v)
    ∙ ap (λ (t : List ℕ). pre ++ t) (append_assoc (put_be n (v / 256)) (v % 256 ∷ []) post)
    ∙ sym (append_assoc pre (put_be n (v / 256)) (v % 256 ∷ post))

last_index : (pre : List ℕ) (n v : ℕ) → length pre + n ≡ length (pre ++ put_be n v)
last_index pre n v = omega (arith, length-append pre (put_be n v), length-put_be n v)

read_last :
    (pre post : List ℕ) (n v : ℕ) → get_or (word pre post (suc n) v) (length pre + n) 0 ≡ v % 256
read_last pre post n v =
    ap₂ (λ (l : List ℕ) (i : ℕ). get_or l i 0) (word-suc pre post n v) (last_index pre n (v / 256))
    ∙ get_or-append (pre ++ put_be n (v / 256)) (v % 256) post 0

set_last :
    (pre post : List ℕ) (n v x : ℕ)
    → set (word pre post (suc n) v) (length pre + n) x ≡ word pre (x ∷ post) n (v / 256)
set_last pre post n v x =
    ap₂ (λ (l : List ℕ) (i : ℕ). set l i x) (word-suc pre post n v) (last_index pre n (v / 256))
    ∙ set-append (pre ++ put_be n (v / 256)) (v % 256) x post
    ∙ append_assoc pre (put_be n (v / 256)) (x ∷ post)

-- A longer word is its last byte joined to what follows the others.
word_last :
    (pre post : List ℕ) (n w q x : ℕ)
    → w / 256 ≡ q
    → w % 256 ≡ x
    → word pre (x ∷ post) n q ≡ word pre post (suc n) w
word_last pre post n w q x hq hr =
    ap₂ (λ (q r : ℕ). word pre (r ∷ post) n q) (sym hq) (sym hr)
    ∙ sym (append_assoc pre (put_be n (w / 256)) (w % 256 ∷ post))
    ∙ sym (word-suc pre post n w)

module _ (pre post : List ℕ) (n v : ℕ) where
  increment_room :
      ltb (v % 256) 0xFF ≡ true
      → increment_bytes (length pre) (suc n) (word pre post (suc n) v)
        ≡ (word pre ((v % 256 + 1) ∷ post) n (v / 256), true)
  unfolding increment_bytes
  increment_room h =
      rw (read_last pre post n v, h)
        (ap (λ (l : List ℕ). (l, true)) (set_last pre post n v (v % 256 + 1)))

  increment_carry :
      ltb (v % 256) 0xFF ≡ false
      → increment_bytes (length pre) (suc n) (word pre post (suc n) v)
        ≡ increment_bytes (length pre) n (word pre (0 ∷ post) n (v / 256))
  unfolding increment_bytes
  increment_carry h =
      rw (read_last pre post n v, h) (ap (increment_bytes (length pre) n) (set_last pre post n v 0))

  decrement_room :
      ltb 0 (v % 256) ≡ true
      → decrement_bytes (length pre) (suc n) (word pre post (suc n) v)
        ≡ (word pre ((v % 256 - 1) ∷ post) n (v / 256), true)
  unfolding decrement_bytes
  decrement_room h =
      rw (read_last pre post n v, h)
        (ap (λ (l : List ℕ). (l, true)) (set_last pre post n v (v % 256 - 1)))

  decrement_borrow :
      ltb 0 (v % 256) ≡ false
      → decrement_bytes (length pre) (suc n) (word pre post (suc n) v)
        ≡ decrement_bytes (length pre) n (word pre (0xFF ∷ post) n (v / 256))
  unfolding decrement_bytes
  decrement_borrow h =
      rw (read_last pre post n v, h)
        (ap (decrement_bytes (length pre) n) (set_last pre post n v 0xFF))

abbrev pair : List ℕ → Bool → List ℕ × Bool
pair l b = (l, b)

-- The word as a number goes up by one, and the answer is false where it wraps around to zero.
pub increment_word :
    (pre post : List ℕ) (n v : ℕ)
    → v < 256 ^ n
    → increment_bytes (length pre) n (word pre post n v)
      ≡ (word pre post n (v + 1), ltb (v + 1) (256 ^ n))
increment_word pre post zero v h =
    unfold increment_bytes put_be in ap (λ (b : Bool). (pre ++ post, b)) (ground arith)
increment_word pre post (suc n) v h = elim (Bool-cases (ltb (v % 256) 0xFF)) [
  | inl room ↦
      increment_room pre post n v room
      ∙ ap₂ pair
          (word_last pre post n (v + 1) (v / 256) (v % 256 + 1) (ground arith) (ground arith))
          (ground (arith, pow-suc 256 n))
  | inr full ↦
      increment_carry pre post n v full
      ∙ increment_word pre (0 ∷ post) n (v / 256) (omega (arith, pow-suc 256 n))
      ∙ ap₂ pair (word_last pre post n (v + 1) (v / 256 + 1) 0 (ground arith) (ground arith))
          (ground (arith, pow-suc 256 n))
]

-- The word as a number goes down by one; from zero it wraps around, and the answer is false.
pub decrement_word :
    (pre post : List ℕ) (n v : ℕ)
    → v < 256 ^ n
    → decrement_bytes (length pre) n (word pre post n v)
      ≡ (word pre post n (if ltb 0 v then v - 1 else 256 ^ n - 1), ltb 0 v)
decrement_word pre post zero v h =
    unfold decrement_bytes put_be in ap (λ (b : Bool). (pre ++ post, b)) (ground arith)
decrement_word pre post (suc n) v h = elim (Bool-cases (ltb 0 (v % 256))) [
  | inl room ↦
      decrement_room pre post n v room
      ∙ ap₂ pair (word_last pre post n _ (v / 256) (v % 256 - 1) (ground arith) (ground arith))
          (ground arith)
  | inr empty ↦
      decrement_borrow pre post n v empty
      ∙ decrement_word pre (0xFF ∷ post) n (v / 256) (omega (arith, pow-suc 256 n))
      ∙ ap₂ pair
          (word_last pre post n _ _ 0xFF (ground (arith, pow-suc 256 n, one-le-pow n 256))
            (ground (arith, pow-suc 256 n, one-le-pow n 256)))
          (ground arith)
]
