-- ===== src/Tag/Uid/Base32/Scanned.antt =====
-- The text that Base32 renders, read character by character: the digits of the number.
use amp_sdk.Base.{
  ℕ, zero, suc, ◌+◌, ◌-◌, ◌*◌, ◌/◌, ◌%◌, ◌^◌, ◌≤◌, ◌<◌, ◌≡◌, refl, sym, ap, ap₂, ◌∙◌, arith,
}
use amp_sdk.Base.{
  bit_and, bit_or, Bool, true, false, not, ◌&&◌, ◌||◌, inl, inr, Bool-cases, append_assoc,
  append-nil,
}
use native.Mathlib.Numerals.{add-one}
use amp_sdk.Base.{List, [], ◌∷◌, ◌++◌, length, length-append, get_or, ltb, ◌==◌, if◌then◌else◌}
use amp_sdk.Base.Bits.{bit_or_shifted, bit_and_mask}
use amp_sdk.Base.Bytes.{all_below, all_below-true}
use amp_sdk.Tag.Uid.{IsU64, u64}
use amp_sdk.Tag.Uid.Base32.{alphabet_lower, render, is_space, base32_lookup, scan}

-- The number of digit slots below slot `i`.
unfoldable pub slots : ℕ → ℕ
slots zero = 0
slots (suc i) = if i % 11 == 3 then slots i else slots i + 1

-- The `k` lowest base-32 digits of a number, the highest first.
unfoldable pub digits : ℕ → ℕ → List ℕ
digits zero n = []
digits (suc k) n = digits k (n / 32) ++ (n % 32) ∷ []

pub length-digits : (k n : ℕ) → length (digits k n) ≡ k
unfolding digits
length-digits zero n = refl
length-digits (suc k) n =
    length-append (digits k (n / 32)) (n % 32 ∷ []) ∙ omega (arith, length-digits k (n / 32))

-- One shift of the two words by five bits.
pub shift_low :
    (x0 x1 : ℕ)
    → IsU64 x1
    → bit_or (u64 (bit_and x0 0x1F * 2 ^ 59)) (x1 / 2 ^ 5) ≡ x0 % 32 * 2 ^ 59 + x1 / 32
shift_low x0 x1 h =
    ap (λ (t : ℕ). bit_or t (x1 / 2 ^ 5)) fits ∙ bit_or_shifted 59 (x0 % 32) (x1 / 32) (omega arith)
  where
    fits : u64 (bit_and x0 0x1F * 2 ^ 59) ≡ x0 % 32 * 2 ^ 59
    fits = omega (arith, bit_and_mask 5 x0)

pub digit_eq : (x0 x1 : ℕ) → bit_and (x1 % 2 ^ 8) 0x1F ≡ (x0 * 2 ^ 64 + x1) % 32
digit_eq x0 x1 = omega (arith, bit_and_mask 5 (x1 % 2 ^ 8))

-- A character of the alphabet is no noise, and stands for its position.
reads_back : ℕ → Bool
reads_back d =
    let c = get_or alphabet_lower d 0 in
    not (is_space c || c == b'-') && (ltb 32 c && ltb c 127) && (base32_lookup c == d + 1)

alphabet_table : all_below 32 reads_back ≡ true
unfolding all_below reads_back is_space base32_lookup
alphabet_table = refl

scan_char :
    (c d : ℕ) (out acc : List ℕ)
    → (is_space c || c == b'-') ≡ false
    → (ltb 32 c && ltb c 127) ≡ true
    → base32_lookup c ≡ d + 1
    → length acc < 26
    → scan (c ∷ out) acc ≡ scan out (acc ++ d ∷ [])
unfolding scan
scan_char c d out acc noise range found short =
    let minus : d + 1 - 1 ≡ d = omega arith in
    rw (noise, range, found) (ground (arith, ap (λ t. scan out (acc ++ t ∷ [])) minus))

scan_digit :
    (d : ℕ) (out acc : List ℕ)
    → d < 32
    → length acc < 26
    → scan (get_or alphabet_lower d 0 ∷ out) acc ≡ scan out (acc ++ d ∷ [])
unfolding reads_back
scan_digit d out acc hd ha =
    let h = all_below-true 32 reads_back d alphabet_table hd in
    scan_char (get_or alphabet_lower d 0) d out acc (ground arith) (ground arith) (ground arith) ha

scan_dash : (out acc : List ℕ) → scan (b'-' ∷ out) acc ≡ scan out acc
unfolding scan is_space
scan_dash out acc = refl

digits-add-one : (k n : ℕ) → digits (k + 1) n ≡ digits k (n / 32) ++ n % 32 ∷ []
digits-add-one k n = rw add-one (unfold digits in refl)

append_digit :
    (k n m b : ℕ) (out acc : List ℕ)
    → length acc + (k + 1) ≤ 26
    → m ≡ n / 32
    → b ≡ n % 32
    → scan (get_or alphabet_lower b 0 ∷ out) (acc ++ digits k m)
      ≡ scan out (acc ++ digits (k + 1) n)
append_digit k n m b out acc h hm hb =
    scan_digit b out (acc ++ digits k m) (omega arith)
      (omega (arith, length-append acc (digits k m), length-digits k m))
    ∙ ap (scan out) (
        append_assoc acc (digits k m) (b ∷ [])
        ∙ ap (λ (t : List ℕ). acc ++ t)
            (ap₂ (λ (s t : ℕ). digits k s ++ t ∷ []) hm hb ∙ sym (digits-add-one k n)))

-- The number in the two words after a shift by five.
pub shifted :
    (x0 x1 : ℕ)
    → IsU64 x0
    → IsU64 x1
    → (x0 / 2 ^ 5) * 2 ^ 64 + bit_or (u64 (bit_and x0 0x1F * 2 ^ 59)) (x1 / 2 ^ 5)
      ≡ (x0 * 2 ^ 64 + x1) / 32
shifted x0 x1 h0 h1 = omega (arith, shift_low x0 x1 h1)

-- What the parser reads of a rendered text: the digits of the number.
pub scan-render :
    (i x0 x1 : ℕ) (out acc : List ℕ) (z : Bool)
    → IsU64 x0
    → IsU64 x1
    → length acc + slots i ≤ 26
    → scan (render i x0 x1 out z).0 acc ≡ scan out (acc ++ digits (slots i) (x0 * 2 ^ 64 + x1))
unfolding render slots
scan-render zero x0 x1 out acc z h0 h1 h = unfold digits in rw append-nil
scan-render (suc i) x0 x1 out acc z h0 h1 h = elim (Bool-cases (i % 11 == 3)) [
  | inl dash ↦
      rw dash (scan-render i x0 x1 (b'-' ∷ out) acc z h0 h1 (rw dash at h) ∙ scan_dash out _)
  | inr digit ↦
      let room : length acc + (slots i + 1) ≤ 26 = rw digit at h in
      rw digit (
        scan-render i (x0 / 2 ^ 5) (bit_or (u64 (bit_and x0 0x1F * 2 ^ 59)) (x1 / 2 ^ 5))
          (get_or alphabet_lower (bit_and (x1 % 2 ^ 8) 0x1F) 0 ∷ out) acc
          (if bit_and (x1 % 2 ^ 8) 0x1F == 0 then z else false) (omega arith)
          (omega (arith, shift_low x0 x1 h1)) (omega arith)
        ∙ append_digit (slots i) (x0 * 2 ^ 64 + x1) _ _ out acc room (shifted x0 x1 h0 h1)
            (digit_eq x0 x1))
]

-- The flag of the renderer says that every digit was zero.
pub render-false : (i x0 x1 : ℕ) (out : List ℕ) → (render i x0 x1 out false).1 ≡ false
unfolding render
render-false zero x0 x1 out = refl
render-false (suc i) x0 x1 out = ground (
  arith,
  render-false i x0 x1 (b'-' ∷ out),
  render-false i (x0 / 2 ^ 5) (bit_or (u64 (bit_and x0 0x1F * 2 ^ 59)) (x1 / 2 ^ 5))
      (get_or alphabet_lower (bit_and (x1 % 2 ^ 8) 0x1F) 0 ∷ out),
)
