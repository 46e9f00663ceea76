-- ===== src/Tag/Uid/Base32/RoundTrip.antt =====
-- Parsing the rendered text of a UID gives the UID back.
use amp_sdk.Base.{ℕ, zero, suc, ◌+◌, ◌*◌, ◌/◌, ◌%◌, ◌^◌, ◌<◌, ◌≡◌, refl, ap, ◌∙◌, arith}
use amp_sdk.Base.{bit_and, bit_or, true, inl, inr, Bool-cases, ==_iff}
use native.Mathlib.Numerals.{add-one}
use amp_sdk.Base.{List, [], ◌∷◌, ◌++◌, some, length, get_or, ◌==◌}
use amp_sdk.Base.Bits.{bit_or_shifted, mod_mul_low}
use amp_sdk.Tag.Uid.{Uid, IsUid, IsU64, u64, value, nil}
use amp_sdk.Tag.Uid.Arith.{uid_eq}
use amp_sdk.Tag.Uid.Base32.{
  alphabet_lower, grouped_length, render, base32, is_space, base32_lookup, scan, push_digit,
  push_digits, from_digits, parse_base32,
}
use native.Mathlib.Nat.{pow-suc, pow-succ'}
use amp_sdk.Tag.Uid.Base32.Scanned.{
  slots, digits, length-digits, shift_low, digit_eq, shifted, scan-render, render-false,
}

low_digit : (k n : ℕ) → n % 32 ^ suc k ≡ 32 * (n / 32 % 32 ^ k) + n % 32
low_digit k n = rw (pow-succ' 32 k) (mod_mul_low 32 (32 ^ k) n)

low_zero : (k n m b : ℕ) → m ≡ n / 32 → b ≡ n % 32 → m % 32 ^ k ≡ 0 → b ≡ 0 → n % 32 ^ (k + 1) ≡ 0
low_zero k n m b hm hb h g =
    rw add-one (omega (arith, low_digit k n, ap (λ (t : ℕ). t % 32 ^ k) hm))

render_zero :
    (i x0 x1 : ℕ) (out : List ℕ)
    → IsU64 x0
    → IsU64 x1
    → (render i x0 x1 out true).1 ≡ true
    → (x0 * 2 ^ 64 + x1) % 32 ^ slots i ≡ 0
unfolding render slots
render_zero zero x0 x1 out h0 h1 h = omega arith
render_zero (suc i) x0 x1 out h0 h1 h = elim (Bool-cases (i % 11 == 3)) [
  | inl dash ↦ rw dash (render_zero i x0 x1 (b'-' ∷ out) h0 h1 (rw dash at h))
  | inr digit ↦ rw digit (elim (Bool-cases (low == 0)) [
    | inl z ↦
        low_zero (slots i) (x0 * 2 ^ 64 + x1) (x0 / 2 ^ 5 * 2 ^ 64 + y1) low (shifted x0 x1 h0 h1)
          (digit_eq x0 x1)
          (render_zero i (x0 / 2 ^ 5) y1 (c ∷ out) (omega arith) (omega (arith, shift_low x0 x1 h1))
            (rw (digit, z) at h))
          ((==_iff low 0).0 z)
    | inr z ↦ cc (render-false i (x0 / 2 ^ 5) y1 (c ∷ out), (rw (digit, z) at h))
  ])
]
  where
    low : ℕ
    low = bit_and (x1 % 2 ^ 8) 0x1F

    y1 : ℕ
    y1 = bit_or (u64 (bit_and x0 0x1F * 2 ^ 59)) (x1 / 2 ^ 5)

    c : ℕ
    c = get_or alphabet_lower low 0

shifted_in : (w b : ℕ) → b < 32 → bit_or (u64 (w * 2 ^ 5)) b ≡ w * 32 % 2 ^ 64 + b
shifted_in w b hb =
    ap (λ (t : ℕ). bit_or t b) top ∙ bit_or_shifted 5 (w % 2 ^ 59) b hb ∙ omega arith
  where
    top : u64 (w * 2 ^ 5) ≡ w % 2 ^ 59 * 2 ^ 5
    top = omega arith

push_value :
    (id : Uid) (b : ℕ)
    → IsUid id
    → b < 32
    → IsUid (push_digit id b) × (value (push_digit id b) ≡ (value id * 32 + b) % 2 ^ 128)
unfolding push_digit
push_value id b h hb =
    let high = shifted_in id.w0 (id.w1 / 2 ^ 59) (omega arith) in
    let low = shifted_in id.w1 b hb in (omega arith, omega arith)

push_digits-append :
    (id : Uid) (xs : List ℕ) (b : ℕ)
    → push_digits id (xs ++ b ∷ []) ≡ push_digit (push_digits id xs) b
unfolding push_digits
push_digits-append id [] b = refl
push_digits-append id (x ∷ xs) b = push_digits-append (push_digit id x) xs b

-- The UID that the digits leave behind `id`.
abbrev Pushed : ℕ → ℕ → Uid → Uid → Type 0
Pushed k n id out = IsUid out × (value out ≡ (value id * 32 ^ k + n % 32 ^ k) % 2 ^ 128)

push_one :
    (k n : ℕ) (id out : Uid)
    → Pushed k (n / 32) id out
    → Pushed (suc k) n id (push_digit out (n % 32))
push_one k n id out (valid, sum) =
    let (valid', sum') = push_value out (n % 32) valid (omega arith) in
    (
      valid',
      sum' ∙ rw sum (omega (arith, low_digit k n, ap (λ (t : ℕ). value id * t) (pow-suc 32 k))),
    )

push-digits : (k n : ℕ) (id : Uid) → IsUid id → Pushed k n id (push_digits id (digits k n))
unfolding digits
push-digits zero n id h = unfold push_digits in (h, omega arith)
push-digits (suc k) n id h = rw push_digits-append (push_one k n id _ (push-digits k (n / 32) id h))

-- The digits of a nonempty text.
from_some : (xs : List ℕ) → 0 < length xs → from_digits (some xs) ≡ some (push_digits nil xs)
unfolding from_digits
from_some [] h = elim h [ ]
from_some (x ∷ xs) h = refl

all_digits :
    (id : Uid)
    → IsUid id
    → scan (render grouped_length id.w0 id.w1 [] true).0 [] ≡ some (digits 26 (value id))
all_digits id h =
    scan-render grouped_length id.w0 id.w1 [] [] true h.0 h.1 (unfold slots in omega arith)
    ∙ unfold scan slots in refl

push_all : (id : Uid) → IsUid id → push_digits nil (digits 26 (value id)) ≡ id
push_all id h =
    let (valid, sum) = push-digits 26 (value id) nil (omega arith) in
    uid_eq _ id valid h (sum ∙ omega arith)

nil_of_zero :
    (id : Uid) → IsUid id → (render grouped_length id.w0 id.w1 [] true).1 ≡ true → nil ≡ id
unfolding slots
nil_of_zero id h z =
    uid_eq nil id (omega arith) h
      (omega (arith, render_zero grouped_length id.w0 id.w1 [] h.0 h.1 z))

parse_zero : parse_base32 (b'0' ∷ []) ≡ some nil
unfolding parse_base32 scan is_space base32_lookup from_digits push_digits
parse_zero = refl

-- Parsing the text that Base32 renders gives back the UID, for every UID.
pub parse_base32-base32 : (id : Uid) → IsUid id → parse_base32 (base32 id) ≡ some id
unfolding base32
parse_base32-base32 id h = elim (Bool-cases (render grouped_length id.w0 id.w1 [] true).1) [
  | inl zero_flag ↦ rw zero_flag (parse_zero ∙ ap some (nil_of_zero id h zero_flag))
  | inr digit_flag ↦ rw digit_flag (
      unfold parse_base32 in
      ap from_digits (all_digits id h)
      ∙ from_some (digits 26 (value id)) (omega (arith, length-digits 26 (value id)))
      ∙ ap some (push_all id h))
]
